-- ===== src/Node/Topics.antt =====
-- components/sparkplug_node/sparkplug_node.c: the topic strings. The out-buffer is returned as the
-- text that the call leaves in it, `none` where the call does not write.
use esp32_sparkplug.Prelude.{
  ℕ, ◌-◌, ◌^◌, ◌++◌, ◌||◌, Option, none, some, CString, codes, length, snprintf_text, ltb, leb,
  ◌==◌, if◌then◌else◌,
}
use esp32_sparkplug.Esp.{
  EspErr, esp_ok, esp_fail, err_invalid_arg, err_invalid_size, Pointer, is_null,
}

pub data TopicType : Type 0 where
  topic_nbirth topic_ndata topic_ndeath topic_ncmd : TopicType
  topic_other : ℕ → TopicType

pub record TopicConfig : Type 0 where
  pub group_id : Option CString
  pub node_id : Option CString

abbrev pub topic_namespace : CString
topic_namespace = codes "spBv1.0"

unfoldable pub topic_type_suffix : TopicType → Option CString
topic_type_suffix topic_nbirth = some (codes "NBIRTH")
topic_type_suffix topic_ndata = some (codes "NDATA")
topic_type_suffix topic_ndeath = some (codes "NDEATH")
topic_type_suffix topic_ncmd = some (codes "NCMD")
topic_type_suffix (topic_other n) = none

-- The text of the format "%s/%s/%s/%s".
unfoldable pub topic_text : CString → CString → CString → CString
topic_text group suffix node =
    topic_namespace ++ (codes "/" ++ (group ++ (codes "/" ++ (suffix ++ (codes "/" ++ node)))))

-- `snprintf` into the buffer, and the two tests of its result. The result is negative where the
-- text is longer than an `int` can say.
unfoldable pub write_text : CString → ℕ → EspErr × Option CString
write_text text buffer_size = (
  (if ltb (2 ^ 31 - 1) (length text)
      then esp_fail
      else if leb buffer_size (length text)
      then err_invalid_size
      else esp_ok),
  some (snprintf_text buffer_size text),
)

abbrev pub build_suffixed : CString → CString → Option CString → ℕ → EspErr × Option CString
build_suffixed group node none buffer_size = (err_invalid_arg, none)
build_suffixed group node (some suffix) buffer_size =
    write_text (topic_text group suffix node) buffer_size

abbrev pub build_named :
    Option CString → Option CString → TopicType → Pointer → ℕ → EspErr × Option CString
build_named none node_id topic_type buffer buffer_size = (err_invalid_arg, none)
build_named (some group) none topic_type buffer buffer_size = (err_invalid_arg, none)
build_named (some group) (some node) topic_type buffer buffer_size =
    if is_null buffer || buffer_size == 0
    then (err_invalid_arg, none)
    else build_suffixed group node (topic_type_suffix topic_type) buffer_size

unfoldable pub build_topic : Option TopicConfig → TopicType → Pointer → ℕ → EspErr × Option CString
build_topic none topic_type buffer buffer_size = (err_invalid_arg, none)
build_topic (some config) topic_type buffer buffer_size =
    build_named config.group_id config.node_id topic_type buffer buffer_size

-- The text of the format "%s/STATE/%s".
unfoldable pub state_topic_text : CString → CString
state_topic_text host_id = topic_namespace ++ (codes "/STATE/" ++ host_id)

unfoldable pub build_state_topic : Option CString → Pointer → ℕ → EspErr × Option CString
build_state_topic none buffer buffer_size = (err_invalid_arg, none)
build_state_topic (some host_id) buffer buffer_size =
    if is_null buffer || buffer_size == 0
    then (err_invalid_arg, none)
    else write_text (state_topic_text host_id) buffer_size
