-- ===== src/Node/TopicFit.antt =====
-- components/sparkplug_node/sparkplug_node.c: which topics fit, and what the buffer holds then.
use esp32_sparkplug.Prelude.{
  false, ℕ, ◌^◌, ◌<◌, ◌≤◌, ◌++◌, ◌∷◌, [], ◌≡◌, ◌≢◌, List, Option, none, some, CString, codes,
  length, length-snprintf_text, snprintf_text_fits, arith,
}
use esp32_sparkplug.Esp.{esp_ok, is_ok, Pointer}
use esp32_sparkplug.Node.Topics.{
  TopicType, TopicConfig, topic_namespace, topic_type_suffix, topic_text, write_text, build_topic,
  build_state_topic,
}

-- What a call leaves in a buffer of `size` bytes, and its closing NUL, fit there.
abbrev pub Fits : ℕ → Option CString → Type 0
Fits size none = Unit
Fits size (some text) = length text < size

write_text-Fits : (text : CString) (size : ℕ) → 0 < size → Fits size (write_text text size).1
unfolding write_text
write_text-Fits text size h = length-snprintf_text size text h

build_topic-Fits :
    (config : Option TopicConfig) (t : TopicType) (buffer : Pointer) (size : ℕ)
    → Fits size (build_topic config t buffer size).1
unfolding build_topic
build_topic-Fits config t buffer size = grind (arith, write_text-Fits)

build_state_topic-Fits :
    (host : Option CString) (buffer : Pointer) (size : ℕ)
    → Fits size (build_state_topic host buffer size).1
unfolding build_state_topic
build_state_topic-Fits host buffer size = grind (arith, write_text-Fits)

-- Neither builder ever writes behind the buffer, whatever its arguments.
pub builders-Fit :
    (config : Option TopicConfig) (host : Option CString) (t : TopicType) (buffer : Pointer)
    (size : ℕ)
    → Fits size (build_topic config t buffer size).1
      × Fits size (build_state_topic host buffer size).1
builders-Fit config host t buffer size =
    (build_topic-Fits config t buffer size, build_state_topic-Fits host buffer size)

module _ (group node_id suffix : CString) (t : TopicType) (size : ℕ) where
  -- The configuration that names the node.
  abbrev pub config : TopicConfig
  config = record { group_id = some group; node_id = some node_id }

  -- For a kind of topic with a suffix and a buffer that has room, no larger than 2 GiB,
  -- `build_topic` succeeds with the topic in the buffer if the topic and its NUL fit, and fails if
  -- they do not.
  pub build_topic_iff :
      topic_type_suffix t ≡ some suffix
      → 0 < size
      → size ≤ 2 ^ 31
      → (length (topic_text group suffix node_id) < size
          → build_topic (some config) t Pointer.valid size
            ≡ (esp_ok, some (topic_text group suffix node_id)))
        × (size ≤ length (topic_text group suffix node_id)
            → is_ok (build_topic (some config) t Pointer.valid size).0 ≡ false)
  unfolding build_topic write_text
  build_topic_iff e h k = grind (arith, snprintf_text_fits)

append_cancel_left : {A : Type 0} (xs : List A) {ys zs : List A} → xs ++ ys ≡ xs ++ zs → ys ≡ zs
append_cancel_left [] e = e
append_cancel_left (x ∷ xs) e = append_cancel_left xs (ground arith)

suffix_apart :
    (node_id s s' : CString) (t u : TopicType)
    → topic_type_suffix t ≡ some s
    → topic_type_suffix u ≡ some s'
    → s ++ (codes "/" ++ node_id) ≡ s' ++ (codes "/" ++ node_id)
    → t ≡ u
unfolding topic_type_suffix
suffix_apart node_id s s' t u h k e = ground arith

module _ (group node_id s s' : CString) (t u : TopicType) where
  -- The topics of one node of two kinds, both with a suffix, are different texts.
  pub topic_text_apart :
      topic_type_suffix t ≡ some s
      → topic_type_suffix u ≡ some s'
      → t ≢ u
      → topic_text group s node_id ≢ topic_text group s' node_id
  unfolding topic_text
  topic_text_apart h k apart e = apart (
      suffix_apart node_id s s' t u h k (
        append_cancel_left (codes "/") (
          append_cancel_left group
            (append_cancel_left (codes "/") (append_cancel_left topic_namespace e)))))
