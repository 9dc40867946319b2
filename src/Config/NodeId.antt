-- ===== src/Config/NodeId.antt =====
-- components/app_config/app_config.c: the node id, generated once and kept in NVS.
use esp32_sparkplug.Prelude.{
  ℕ, zero, suc, ◌+◌, ◌-◌, ◌/◌, ◌%◌, ◌++◌, ltb, ℤ, pos_part, Option, none, some, [], ◌∷◌, CString,
  codes, is_some, snprintf_text, if◌then◌else◌,
}
use esp32_sparkplug.Esp.{EspErr, esp_ok, is_ok, is_nvs_not_found}
use esp32_sparkplug.Device.{DeviceCall}
use esp32_sparkplug.Config.State.{node_id_max_len}
use esp32_sparkplug.Board.{
  Devices, BoardAct, ◌>>=◌, ◌>>◌, pure, ask, perform, modify, get, call, number_of,
}

-- A digit of "%x", and the `n` last of them in front of `rest`.
abbrev pub hex_digit : ℕ → ℕ
hex_digit d = if ltb d 10 then b'0' + d else b'a' + (d - 10)

unfoldable pub hex_onto : ℕ → ℕ → CString → CString
hex_onto zero r rest = rest
hex_onto (suc n) r rest = hex_onto n (r / 16) (hex_digit (r % 16) ∷ rest)

-- The text of the format "node-%08lx" for a `uint32_t`.
unfoldable pub generated_id : ℕ → CString
generated_id r = codes "node-" ++ hex_onto 8 r []

module _ (dev : Devices) where
  abbrev pub set_buf : CString → BoardAct (Unit {0})
  set_buf text = modify (λ b. record b { config = record b.config { node_id_buf = text } })

  unfoldable pub generate_node_id : ℕ → BoardAct (Unit {0})
  generate_node_id buf_size = do
    r ← number_of dev DeviceCall.esp_random
    set_buf (snprintf_text buf_size (generated_id (pos_part r)))

  -- `nvs_close`, with a code to return.
  abbrev pub close_with : ℕ → EspErr → BoardAct EspErr
  close_with nvs err = do perform (DeviceCall.nvs_close nvs); pure err

  -- `nvs_commit` where the call before succeeded.
  abbrev pub commit_if_ok : ℕ → EspErr → BoardAct EspErr
  commit_if_ok nvs err = if is_ok err then call dev (DeviceCall.nvs_commit nvs) else pure err

  -- The end of `app_config_init`: the table points to the buffer.
  abbrev pub adopt_buf : ℕ → BoardAct EspErr
  adopt_buf nvs = do
    perform (DeviceCall.nvs_close nvs)
    modify (λ b. record b { config = record b.config { node_id = some b.config.node_id_buf } })
    pure esp_ok

  -- Nothing is stored yet.
  unfoldable pub store_new_id : ℕ → BoardAct EspErr
  store_new_id nvs = do
    generate_node_id (node_id_max_len + 1)
    c ← get (λ b. b.config)
    err ← call dev (DeviceCall.nvs_set_str nvs c.node_id_buf)
    err ← commit_if_ok nvs err
    if is_ok err then adopt_buf nvs else close_with nvs err

  abbrev pub write_buf : Option CString → BoardAct (Unit {0})
  write_buf none = pure tt
  write_buf (some text) = set_buf text

  -- `nvs_get_str` writes the buffer when it succeeds.
  unfoldable pub load_id : ℕ → BoardAct EspErr
  load_id nvs = do
    got ←
        ask {A = EspErr × Option CString} (DeviceCall.nvs_get_str nvs) (λ t.
          (dev.result t (DeviceCall.nvs_get_str nvs), dev.text t (DeviceCall.nvs_get_str nvs)))
    if is_nvs_not_found (got.0)
        then store_new_id nvs
        else if is_ok (got.0)
        then (write_buf (got.1) >> adopt_buf nvs)
        else close_with nvs (got.0)

  -- `nvs_open` writes the handle when it succeeds.
  abbrev pub with_nvs : (ℕ → BoardAct EspErr) → BoardAct EspErr
  with_nvs use_it = do
    opened ←
        ask {A = EspErr × ℤ} DeviceCall.nvs_open
          (λ t. (dev.result t DeviceCall.nvs_open, dev.number t DeviceCall.nvs_open))
    if is_ok (opened.0) then use_it (pos_part (opened.1)) else pure (opened.0)

  unfoldable pub init : BoardAct EspErr
  init = do c ← get (λ b. b.config); if is_some c.node_id then pure esp_ok else with_nvs load_id

  abbrev pub ok_if_not_found : EspErr → EspErr
  ok_if_not_found err = if is_nvs_not_found err then esp_ok else err

  abbrev pub erase_id : ℕ → BoardAct EspErr
  erase_id nvs = do
    err ← call dev (DeviceCall.nvs_erase_key nvs)
    err ← commit_if_ok nvs (ok_if_not_found err)
    close_with nvs err

  unfoldable pub reset_node_id : BoardAct EspErr
  reset_node_id = with_nvs erase_id
