-- ===== src/Config/Storage.antt =====
-- components/app_config/app_config.c: the node id in the non-volatile storage, across restarts.
use esp32_sparkplug.Prelude.{
  ℕ, suc, ◌-◌, ◌≡◌, ◌∙◌, sym, true, false, inl, inr, Option, none, some, Option-cases, [], ◌∷◌,
  CString, if◌then◌else◌, arith,
}
use esp32_sparkplug.Esp.{esp_ok, is_ok, is_nvs_not_found}
use esp32_sparkplug.Device.{DeviceCall}
use esp32_sparkplug.Config.NodeId.{generate_node_id, store_new_id, load_id, init, reset_node_id}
use esp32_sparkplug.Platform.{Trace, Call}
use esp32_sparkplug.Board.{Devices, Board}

-- What the namespace holds: the text that is written, and the one that is committed.
pub record Stored : Type 0 where
  pub written : Option CString
  pub committed : Option CString

module _ (dev : Devices) where
  -- What a call changes of it. A new handle sees what was committed.
  abbrev pub stored_after : DeviceCall → Trace → Stored → Stored
  stored_after DeviceCall.nvs_open t s = record s { written = s.committed }
  stored_after (DeviceCall.nvs_set_str nvs text) t s =
      if is_ok (dev.result t (DeviceCall.nvs_set_str nvs text))
      then (record s { written = some text })
      else s
  stored_after (DeviceCall.nvs_erase_key nvs) t s =
      if is_ok (dev.result t (DeviceCall.nvs_erase_key nvs))
      then (record s { written = none })
      else s
  stored_after (DeviceCall.nvs_commit nvs) t s =
      if is_ok (dev.result t (DeviceCall.nvs_commit nvs))
      then (record s { committed = s.written })
      else s
  stored_after _ t s = s

  -- The namespace after a history, from `first` on.
  unfoldable pub stored : Option CString → Trace → Stored
  stored first [] = record { written = first; committed = first }
  stored first (Call.device_call c ∷ t) = stored_after c t (stored first t)
  stored first (_ ∷ t) = stored first t

  -- The handles that are open.
  abbrev pub handles_after : DeviceCall → Trace → ℕ → ℕ
  handles_after DeviceCall.nvs_open t n =
      if is_ok (dev.result t DeviceCall.nvs_open) then suc n else n
  handles_after (DeviceCall.nvs_close nvs) t n = n - 1
  handles_after _ t n = n

  unfoldable pub handles : Trace → ℕ
  handles [] = 0
  handles (Call.device_call c ∷ t) = handles_after c t (handles t)
  handles (_ ∷ t) = handles t

  -- What ESP-IDF documents of `nvs_get_str` with a buffer that is large enough.
  pub record Nvs (first : Option CString) : Type 0 where
    pub finds :
        (t : Trace) (nvs : ℕ) (text : CString)
        → (stored first t).written ≡ some text
        → (dev.result t (DeviceCall.nvs_get_str nvs) ≡ esp_ok)
          × (dev.text t (DeviceCall.nvs_get_str nvs) ≡ some text)
    pub misses :
        (t : Trace) (nvs : ℕ)
        → (stored first t).written ≡ none
        → is_nvs_not_found (dev.result t (DeviceCall.nvs_get_str nvs)) ≡ true

  -- Where no node id was adopted before, `app_config_init` closes the handle that it opened on every
  -- path, and adopts the buffer's text if it succeeds, and none if it fails.
  -- `app_config_reset_node_id` closes its handle too, and changes neither the node id nor the buffer.
  pub node_id_init_outcome :
      (b : Board)
      → b.config.node_id ≡ none
      → (handles (init dev b).1.node.trace ≡ handles b.node.trace)
        × (is_ok (init dev b).0 ≡ true
            → (init dev b).1.config.node_id ≡ some (init dev b).1.config.node_id_buf)
        × (is_ok (init dev b).0 ≡ false → (init dev b).1.config.node_id ≡ none)
        × (handles (reset_node_id dev b).1.node.trace ≡ handles b.node.trace)
        × ((reset_node_id dev b).1.config ≡ b.config)
  unfolding init load_id store_new_id generate_node_id reset_node_id handles
  node_id_init_outcome b h = ground arith

  module _ (first : Option CString) (nvs : Nvs first) where
    open nvs use {finds, misses}

    -- The node id that is adopted is the one that is committed.
    init-stored :
        (b : Board)
        → b.config.node_id ≡ none
        → is_ok (init dev b).0 ≡ true
        → ((init dev b).1.config.node_id ≡ some (init dev b).1.config.node_id_buf)
          × ((stored first (init dev b).1.node.trace).committed
              ≡ some (init dev b).1.config.node_id_buf)
    unfolding init load_id store_new_id generate_node_id stored
    init-stored b h k = elim (Option-cases (stored first b.node.trace).committed) [
      | inl missing ↦ grind (arith, misses)
      | inr found ↦ grind (arith, finds)
    ]

    -- What is committed is adopted.
    init-adopts :
        (text : CString) (c : Board)
        → c.config.node_id ≡ none
        → is_ok (dev.result c.node.trace DeviceCall.nvs_open) ≡ true
        → (stored first c.node.trace).committed ≡ some text
        → (is_ok (init dev c).0 ≡ true) × ((init dev c).1.config.node_id ≡ some text)
    unfolding init load_id stored
    init-adopts text c h k found = grind (arith, finds)

    -- A node id survives a restart: where `app_config_init` has succeeded once, a later start of the
    -- program that finds the namespace as it was left, and can open it, succeeds with the same node
    -- id, whether it was read or made up the first time. The storage is taken to answer as ESP-IDF
    -- documents.
    pub init_survives_restart :
        (b c : Board)
        → b.config.node_id ≡ none
        → is_ok (init dev b).0 ≡ true
        → c.config.node_id ≡ none
        → (stored first c.node.trace).committed ≡ (stored first (init dev b).1.node.trace).committed
        → is_ok (dev.result c.node.trace DeviceCall.nvs_open) ≡ true
        → (is_ok (init dev c).0 ≡ true)
          × ((init dev c).1.config.node_id ≡ (init dev b).1.config.node_id)
    init_survives_restart b c h ok h' same opened =
        let s = init-stored b h ok in
        let again = init-adopts (init dev b).1.config.node_id_buf c h' opened (same ∙ s.1) in
        (again.0, again.1 ∙ sym (s.0))
