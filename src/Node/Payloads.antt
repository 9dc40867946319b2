-- ===== src/Node/Payloads.antt =====
-- components/sparkplug_node/sparkplug_payloads.c: NBIRTH, NDATA and NDEATH. `encoded_size` and the
-- bytes that it counts are returned as the bytes, `none` where the call does not set it. A `float`
-- is its bit pattern.
use esp32_sparkplug.Prelude.{
  ℕ, ◌==◌, Bool, true, false, ◌||◌, Option, none, some, List, [], ◌∷◌, Bytes, CString, codes,
  to_u64, to_i64, ℤ, if◌then◌else◌,
}
use esp32_sparkplug.Esp.{EspErr, esp_ok, esp_fail, err_invalid_arg, Pointer, is_null}
use esp32_sparkplug.Node.Nanopb.{OutStream, Encoder, Metric, Payload, Nanopb, MetricUnion}

-- `value_type` and the union, as one sum.
pub data DescriptorValue : Type 0 where
  uint64_value : ℕ → DescriptorValue
  int64_value : ℤ → DescriptorValue
  bool_value : Bool → DescriptorValue
  float_value : ℕ → DescriptorValue

pub record MetricDescriptor : Type 0 where
  pub name : Option CString
  pub has_alias : Bool
  pub alias : ℕ
  pub has_timestamp : Bool
  pub timestamp_ms : ℕ
  pub has_datatype : Bool
  pub datatype : ℕ
  pub value : DescriptorValue

abbrev pub metric_name_bdseq : CString
metric_name_bdseq = codes "bdSeq"

abbrev pub metric_name_node_control_rebirth : CString
metric_name_node_control_rebirth = codes "Node Control/Rebirth"

abbrev pub metric_name_temperature_c : CString
metric_name_temperature_c = codes "temperature_c"

abbrev pub metric_name_synthetic_sinewave : CString
metric_name_synthetic_sinewave = codes "synthetic_sinewave"

abbrev pub metric_alias_node_control_rebirth : ℕ
metric_alias_node_control_rebirth = 1

abbrev pub metric_alias_temperature_c : ℕ
metric_alias_temperature_c = 2

abbrev pub metric_alias_synthetic_sinewave : ℕ
metric_alias_synthetic_sinewave = 3

-- `org_eclipse_tahu_protobuf_DataType_Int64`, `…_Float` and `…_Boolean`.
abbrev pub datatype_int64 : ℕ
datatype_int64 = 4

abbrev pub datatype_float : ℕ
datatype_float = 9

abbrev pub datatype_boolean : ℕ
datatype_boolean = 11

pub record BirthPayload : Type 0 where
  pub timestamp_ms : ℕ
  pub bdseq : ℕ
  pub temperature_c : ℕ
  pub synthetic_sinewave : ℕ

pub record DataPayload : Type 0 where
  pub timestamp_ms : ℕ
  pub seq : ℕ
  pub temperature_c : ℕ
  pub synthetic_sinewave : ℕ

pub record DeathPayload : Type 0 where
  pub timestamp_ms : ℕ
  pub bdseq : ℕ

-- A descriptor with every field zero, as a C initialiser leaves what it does not name.
abbrev pub empty_descriptor : DescriptorValue → MetricDescriptor
empty_descriptor v = record {
  name = none;
  has_alias = false;
  alias = 0;
  has_timestamp = false;
  timestamp_ms = 0;
  has_datatype = false;
  datatype = 0;
  value = v;
}

-- The tables of metrics that the three encoders build.
abbrev pub bdseq_metric : ℕ → MetricDescriptor
bdseq_metric bdseq = record (empty_descriptor (int64_value (to_i64 bdseq))) {
  name = some metric_name_bdseq;
  has_datatype = true;
  datatype = datatype_int64;
}

abbrev pub rebirth_metric : MetricDescriptor
rebirth_metric = record (empty_descriptor (bool_value false)) {
  name = some metric_name_node_control_rebirth;
  alias = metric_alias_node_control_rebirth;
  has_datatype = true;
  datatype = datatype_boolean;
}

abbrev pub float_metric : Option CString → ℕ → ℕ → Bool → ℕ → ℕ → MetricDescriptor
float_metric name alias timestamp_ms has_datatype datatype v =
    record (empty_descriptor (DescriptorValue.float_value v)) {
      name = name;
      has_alias = true;
      alias = alias;
      has_timestamp = true;
      timestamp_ms = timestamp_ms;
      has_datatype = has_datatype;
      datatype = datatype;
    }

unfoldable pub nbirth_metrics : BirthPayload → List MetricDescriptor
nbirth_metrics p =
    bdseq_metric p.bdseq
    ∷ (rebirth_metric
        ∷ (float_metric (some metric_name_temperature_c) metric_alias_temperature_c p.timestamp_ms
              true datatype_float p.temperature_c
            ∷ (float_metric (some metric_name_synthetic_sinewave) metric_alias_synthetic_sinewave
                  p.timestamp_ms true datatype_float p.synthetic_sinewave
                ∷ [])))

unfoldable pub ndata_metrics : DataPayload → List MetricDescriptor
ndata_metrics p =
    float_metric none metric_alias_temperature_c p.timestamp_ms false 0 p.temperature_c
    ∷ (float_metric none metric_alias_synthetic_sinewave p.timestamp_ms false 0 p.synthetic_sinewave
        ∷ [])

unfoldable pub ndeath_metrics : DeathPayload → List MetricDescriptor
ndeath_metrics p = bdseq_metric p.bdseq ∷ []

-- The union member that `encode_metric` sets for a value; a signed one is stored as 64 bits.
unfoldable pub metric_union : DescriptorValue → MetricUnion
metric_union (uint64_value n) = MetricUnion.long_value n
metric_union (int64_value a) = MetricUnion.long_value (to_u64 a)
metric_union (bool_value b) = MetricUnion.boolean_value b
metric_union (DescriptorValue.float_value f) = MetricUnion.float_value f

module _ (pb : Nanopb) where
  -- `sparkplug_node_encode_string` with its argument.
  unfoldable pub encode_string : Option CString → Encoder
  encode_string none stream field = some stream
  encode_string (some value) stream field = elim (pb.encode_tag_for_field stream field) [
    | none ↦ none
    | some tagged ↦ pb.encode_string tagged value
  ]

  abbrev pub name_encoder : Option CString → Option Encoder
  name_encoder none = none
  name_encoder (some name) = some (encode_string (some name))

  -- The message that `encode_metric` fills in from a descriptor.
  unfoldable pub metric_message : MetricDescriptor → Metric
  metric_message d = record {
    name = name_encoder d.name;
    has_alias = d.has_alias;
    alias = if d.has_alias then d.alias else 0;
    has_timestamp = d.has_timestamp;
    timestamp = if d.has_timestamp then d.timestamp_ms else 0;
    has_datatype = d.has_datatype;
    datatype = if d.has_datatype then d.datatype else 0;
    value = metric_union d.value;
  }

  unfoldable pub encode_metric : OutStream → MetricDescriptor → Option OutStream
  encode_metric stream d = pb.encode_submessage stream (metric_message d)

  -- The loop of `encode_metrics`, which stops at the first failure.
  unfoldable pub encode_metrics : List MetricDescriptor → Encoder
  encode_metrics [] stream field = some stream
  encode_metrics (d ∷ ds) stream field = elim (pb.encode_tag_for_field stream field) [
    | none ↦ none
    | some tagged ↦ elim (encode_metric tagged d) [
      | none ↦ none
      | some next ↦ encode_metrics ds next field
    ]
  ]

  abbrev pub written_bytes : Option OutStream → Option Bytes
  written_bytes none = none
  written_bytes (some stream) = some stream.written

  -- `sparkplug_node_encode_payload` of a payload that is not NULL.
  unfoldable pub encode_payload : Payload → Pointer → ℕ → Pointer → Option Bytes
  encode_payload payload buffer buffer_size encoded_size =
      if is_null buffer || buffer_size == 0 || is_null encoded_size
      then none
      else written_bytes (pb.encode (record { written = []; max_size = buffer_size }) payload)

  -- The last line of the three encoders.
  abbrev pub encode_result : Option Bytes → EspErr × Option Bytes
  encode_result none = (esp_fail, none)
  encode_result (some bytes) = (esp_ok, some bytes)

  unfoldable pub encode_nbirth : Option BirthPayload → Pointer → ℕ → Pointer → EspErr × Option Bytes
  encode_nbirth none buffer buffer_size encoded_size = (err_invalid_arg, none)
  encode_nbirth (some p) buffer buffer_size encoded_size =
      if is_null buffer || is_null encoded_size
      then (err_invalid_arg, none)
      else encode_result (encode_payload message buffer buffer_size encoded_size)
    where
      message : Payload
      message = record {
        has_timestamp = true;
        timestamp = p.timestamp_ms;
        metrics = some (encode_metrics (nbirth_metrics p));
        has_seq = true;
        seq = 0;
      }

  unfoldable pub encode_ndata : Option DataPayload → Pointer → ℕ → Pointer → EspErr × Option Bytes
  encode_ndata none buffer buffer_size encoded_size = (err_invalid_arg, none)
  encode_ndata (some p) buffer buffer_size encoded_size =
      if is_null buffer || is_null encoded_size
      then (err_invalid_arg, none)
      else encode_result (encode_payload message buffer buffer_size encoded_size)
    where
      message : Payload
      message = record {
        has_timestamp = true;
        timestamp = p.timestamp_ms;
        metrics = some (encode_metrics (ndata_metrics p));
        has_seq = true;
        seq = p.seq;
      }

  unfoldable pub encode_ndeath : Option DeathPayload → Pointer → ℕ → Pointer → EspErr × Option Bytes
  encode_ndeath none buffer buffer_size encoded_size = (err_invalid_arg, none)
  encode_ndeath (some p) buffer buffer_size encoded_size =
      if is_null buffer || is_null encoded_size
      then (err_invalid_arg, none)
      else encode_result (encode_payload message buffer buffer_size encoded_size)
    where
      message : Payload
      message = record {
        has_timestamp = true;
        timestamp = p.timestamp_ms;
        metrics = some (encode_metrics (ndeath_metrics p));
        has_seq = false;
        seq = 0;
      }
