-- ===== src/Node/Nanopb.antt =====
-- The messages that components/sparkplug_node hands to nanopb, and nanopb's entry points as an
-- interface. The library itself (vendor/nanopb) is not modelled: `Nanopb` holds what it answers.
-- An output stream is the bytes written to it and its capacity; a failed call is `none`.
use esp32_sparkplug.Prelude.{ℕ, Bool, Option, Bytes, CString}

pub record OutStream : Type 0 where
  pub written : Bytes
  pub max_size : ℕ

-- `pb_field_t *`, handed to a callback and back.
abbrev pub Field : Type 0
Field = ℕ

-- A `pb_callback_t` for encoding, with its argument.
abbrev pub Encoder : Type 0
Encoder = OutStream → Field → Option OutStream

-- `which_value` and the union: `unset` is tag 0.
pub data MetricUnion : Type 0 where
  unset : MetricUnion
  long_value : ℕ → MetricUnion
  boolean_value : Bool → MetricUnion
  float_value : ℕ → MetricUnion
  other_value : ℕ → MetricUnion

-- `org_eclipse_tahu_protobuf_Payload_Metric`, with the fields that the program sets or reads.
pub record Metric : Type 0 where
  pub name : Option Encoder
  pub has_alias : Bool
  pub alias : ℕ
  pub has_timestamp : Bool
  pub timestamp : ℕ
  pub has_datatype : Bool
  pub datatype : ℕ
  pub value : MetricUnion

-- `org_eclipse_tahu_protobuf_Payload`, likewise.
pub record Payload : Type 0 where
  pub has_timestamp : Bool
  pub timestamp : ℕ
  pub metrics : Option Encoder
  pub has_seq : Bool
  pub seq : ℕ

-- `sparkplug_node_string_decode_t`: the bytes of `buffer` below `length`.
pub record StringDecode : Type 0 where
  pub buffer : CString

-- What the decoder of one metric leaves: the scalar fields that the program reads.
pub record DecodedMetric : Type 0 where
  pub has_alias : Bool
  pub alias : ℕ
  pub value : MetricUnion

pub record Nanopb : Type 0 where
  pub encode_tag_for_field : OutStream → Field → Option OutStream
  pub encode_string : OutStream → Bytes → Option OutStream
  pub encode_submessage : OutStream → Metric → Option OutStream
  pub encode : OutStream → Payload → Option OutStream
  -- `pb_read` from the bytes that are left.
  pub read : Bytes → ℕ → Option (Bytes × Bytes)
  -- `pb_decode` of a metric, with the callback for the name and its argument. The callback's
  -- argument comes back on failure too.
  pub decode_metric :
      (Bytes → StringDecode → Bool × StringDecode)
      → Bytes
      → StringDecode
      → Bool × DecodedMetric × StringDecode
  -- `pb_decode` of a payload, with the callback for a metric; its argument is the flag
  -- `rebirth_requested`.
  pub decode_payload : (Bytes → Bool → Bool × Bool) → Bytes → Bool → Bool × Bool
