-- ===== src/Config/State.antt =====
-- components/app_config/app_config.c: what changes of the configuration at run time.
use esp32_sparkplug.Prelude.{ℕ, Option, CString}

-- `APP_CONFIG_NODE_ID_MAX_LEN`.
abbrev pub node_id_max_len : ℕ
node_id_max_len = 32

-- `s_app_config.sparkplug.node_id`, and the buffer `s_node_id_buf` that it points to.
pub record ConfigState : Type 0 where
  pub node_id : Option CString
  pub node_id_buf : CString
