-- ===== src/Node/Decode.antt =====
-- components/sparkplug_node/sparkplug_decode.c: the NCMD rebirth request.
use Prim.Native.Nat.{min}
use esp32_sparkplug.Prelude.{
  ℕ, zero, suc, ◌-◌, ◌++◌, ◌==◌, ltb, Bool, true, false, ◌&&◌, ◌||◌, Option, none, some, [], ◌∷◌,
  Bytes, CString, length, take, same_text, if◌then◌else◌,
}
use esp32_sparkplug.Esp.{EspErr, esp_ok, esp_fail, err_invalid_arg, Pointer, is_null}
use esp32_sparkplug.Node.Nanopb.{Nanopb, StringDecode, DecodedMetric, MetricUnion, boolean_value}
use esp32_sparkplug.Node.Payloads.{
  metric_name_node_control_rebirth, metric_alias_node_control_rebirth,
}

-- `sizeof(state->buffer) - 1U`.
abbrev pub name_capacity : ℕ
name_capacity = 63

-- One round's copy: what fits of the chunk goes behind what is there.
unfoldable pub append_chunk : StringDecode → Bytes → StringDecode
append_chunk state chunk =
    if ltb (length state.buffer) name_capacity
    then (record { buffer = state.buffer ++ take (name_capacity - length state.buffer) chunk })
    else state

-- The text before the first NUL, which is what `strcmp` reads.
unfoldable pub c_text : Bytes → CString
c_text [] = []
c_text (c ∷ cs) = let rest = c_text cs in if c == 0 then [] else c ∷ rest

abbrev pub is_true_boolean : MetricUnion → Bool
is_true_boolean (boolean_value b) = b
is_true_boolean _ = false

module _ (pb : Nanopb) where
  -- `while (remaining > 0U)`: every round reads at least one byte, so `remaining` is fuel enough.
  unfoldable pub decode_string_from : ℕ → ℕ → Bytes → StringDecode → Bool × StringDecode
  decode_string_from zero remaining stream state = (true, state)
  decode_string_from (suc fuel) remaining stream state =
      if remaining == 0 then (true, state) else (elim (pb.read stream (min remaining 16)) [
        | none ↦ (false, state)
        | some (chunk, rest) ↦
            decode_string_from fuel (remaining - min remaining 16) rest (append_chunk state chunk)
      ])

  unfoldable pub decode_string : Bytes → StringDecode → Bool × StringDecode
  decode_string stream state = decode_string_from (length stream) (length stream) stream state

  -- The command flag is set by a metric that names the rebirth control and holds `true`.
  unfoldable pub requests_rebirth : DecodedMetric → StringDecode → Bool
  requests_rebirth metric name =
      (same_text (c_text name.buffer) metric_name_node_control_rebirth
        || (metric.has_alias && metric.alias == metric_alias_node_control_rebirth))
      && is_true_boolean metric.value

  abbrev pub metric_outcome : Bool × DecodedMetric × StringDecode → Bool → Bool × Bool
  metric_outcome (false, metric, name) requested = (false, requested)
  metric_outcome (true, metric, name) requested = (true, requested || requests_rebirth metric name)

  unfoldable pub decode_metric : Bytes → Bool → Bool × Bool
  decode_metric stream requested =
      metric_outcome (pb.decode_metric decode_string stream (record { buffer = [] })) requested

  -- The code and `command->rebirth_requested`, `none` where the call does not set it.
  unfoldable pub decode_ncmd : Option Bytes → Pointer → EspErr × Option Bool
  decode_ncmd none command = (err_invalid_arg, none)
  decode_ncmd (some buffer) command =
      if length buffer == 0 || is_null command
      then (err_invalid_arg, none)
      else (let (done, requested) = pb.decode_payload decode_metric buffer false in
          ((if done then esp_ok else esp_fail), some requested))
