-- ===== src/Node/Examples.antt =====
-- The theorems about topics, payloads and names at concrete inputs.
use esp32_sparkplug.Prelude.{
  ◌≤◌, ◌<◌, ◌≡◌, ◌≢◌, refl, true, false, some, [], codes, length, take, arith,
}
use esp32_sparkplug.Esp.{esp_ok, is_ok, Pointer}
use esp32_sparkplug.Node.Topics.{
  TopicType, TopicConfig, topic_type_suffix, topic_text, build_topic, build_state_topic,
}
use esp32_sparkplug.Node.TopicFit.{Fits, config, build_topic_iff, builders-Fit, topic_text_apart}
use esp32_sparkplug.Node.Payloads.{BirthPayload, DataPayload, nbirth_metrics, ndata_metrics}
use esp32_sparkplug.Node.Metrics.{defines_alias, birth_defines_data}
use esp32_sparkplug.Node.Decode.{decode_string, name_capacity}
use esp32_sparkplug.Node.NameBuffer.{ReadsExactly, decode_string-take}
use esp32_sparkplug.Testbed.{test_nanopb}

abbrev home : TopicConfig
home = config (codes "home") (codes "n1") (codes "NDATA") TopicType.topic_ndata 64

build_topic_iff_example :
    (length (topic_text (codes "home") (codes "NDATA") (codes "n1")) < 64
      → build_topic (some home) TopicType.topic_ndata Pointer.valid 64
        ≡ (esp_ok, some (topic_text (codes "home") (codes "NDATA") (codes "n1"))))
    × (64 ≤ length (topic_text (codes "home") (codes "NDATA") (codes "n1"))
        → is_ok (build_topic (some home) TopicType.topic_ndata Pointer.valid 64).0 ≡ false)
unfolding topic_type_suffix
build_topic_iff_example =
    build_topic_iff (codes "home") (codes "n1") (codes "NDATA") TopicType.topic_ndata 64 refl
      (omega arith) (omega arith)

builders-Fit_example :
    Fits 16 (build_topic (some home) TopicType.topic_nbirth Pointer.valid 16).1
    × Fits 16 (build_state_topic (some (codes "host-1")) Pointer.valid 16).1
builders-Fit_example =
    builders-Fit (some home) (some (codes "host-1")) TopicType.topic_nbirth Pointer.valid 16

topic_text_apart_example :
    topic_text (codes "home") (codes "NDATA") (codes "n1")
    ≢ topic_text (codes "home") (codes "NDEATH") (codes "n1")
unfolding topic_type_suffix
topic_text_apart_example =
    topic_text_apart (codes "home") (codes "n1") (codes "NDATA") (codes "NDEATH")
      TopicType.topic_ndata TopicType.topic_ndeath refl refl (λ e. cc)

abbrev birth : BirthPayload
birth = record { timestamp_ms = 7000; bdseq = 3; temperature_c = 21; synthetic_sinewave = 50 }

abbrev report : DataPayload
report = record { timestamp_ms = 7000; seq = 4; temperature_c = 21; synthetic_sinewave = 50 }

birth_defines_data_example : defines_alias 2 (nbirth_metrics birth) ≡ true
unfolding ndata_metrics
birth_defines_data_example = birth_defines_data birth report 2 refl

test_nanopb-ReadsExactly : ReadsExactly test_nanopb
test_nanopb-ReadsExactly s n h = ground arith

decode_string-take_example :
    decode_string test_nanopb (codes "Node Control/Rebirth") (record { buffer = [] })
    ≡ (true, record { buffer = take name_capacity (codes "Node Control/Rebirth") })
decode_string-take_example =
    decode_string-take test_nanopb test_nanopb-ReadsExactly (codes "Node Control/Rebirth")
