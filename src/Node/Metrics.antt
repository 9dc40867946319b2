-- ===== src/Node/Metrics.antt =====
-- components/sparkplug_node/sparkplug_payloads.c: the metrics of a birth and of the reports after
-- it.
use esp32_sparkplug.Prelude.{
  ℕ, ◌==◌, ◌≡◌, Bool, true, false, ◌&&◌, ◌||◌, List, [], ◌∷◌, arith, is_some,
}
use esp32_sparkplug.Node.Payloads.{
  MetricDescriptor, BirthPayload, DataPayload, nbirth_metrics, ndata_metrics,
}

-- Some metric of the list is sent with this alias.
abbrev pub sends_alias : ℕ → List MetricDescriptor → Bool
sends_alias alias [] = false
sends_alias alias (d ∷ ds) = (d.has_alias && d.alias == alias) || sends_alias alias ds

-- Some metric of the list is sent with its name, a datatype and this alias.
abbrev pub defines_alias : ℕ → List MetricDescriptor → Bool
defines_alias alias [] = false
defines_alias alias (d ∷ ds) =
    (is_some d.name && d.has_datatype && d.has_alias && d.alias == alias) || defines_alias alias ds

-- Every alias that an NDATA sends is one that every NBIRTH defines, with a name and a datatype.
pub birth_defines_data :
    (b : BirthPayload) (p : DataPayload) (alias : ℕ)
    → sends_alias alias (ndata_metrics p) ≡ true
    → defines_alias alias (nbirth_metrics b) ≡ true
unfolding nbirth_metrics ndata_metrics
birth_defines_data b p alias h = ground arith
