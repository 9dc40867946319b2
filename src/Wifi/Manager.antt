-- ===== src/Wifi/Manager.antt =====
-- components/wifi_manager/wifi_manager.c: every operation of the Wi-Fi manager. The critical
-- sections are single steps here.
use esp32_sparkplug.Prelude.{
  ℕ, ◌+◌, ◌-◌, ◌*◌, ◌%◌, ◌^◌, ◌==◌, ℤ, pos, Bool, true, false, not, ◌||◌, Option, none, some,
  CString, snprintf_text, is_some, if◌then◌else◌,
}
use esp32_sparkplug.Esp.{
  EspErr, esp_ok, esp_fail, err_no_mem, err_invalid_arg, err_invalid_state, err_timeout, is_ok,
  is_invalid_state, is_wifi_not_connect, Pointer,
}
use esp32_sparkplug.Wifi.State.{WifiState, WifiCall}
use esp32_sparkplug.Platform.{
  Env, Act, Call, ◌>>=◌, ◌>>◌, pure, ask, perform, get_wifi, modify_wifi, when,
}

-- `memset(&s_state, 0, sizeof(s_state))`.
abbrev pub zero_state : WifiState
zero_state = record {
  initialized = false;
  started = false;
  connected = false;
  has_ip = false;
  reconnect_count = 0;
  ipv4_addr = 0;
  sta_netif = none;
  event_group = none;
  reconnect_timer = none;
  reconnect_suppressed = false;
  simulated_disconnect_active = false;
}

-- An event from the ESP-IDF event loop; `event_data` may be NULL.
pub data WifiEvent : Type 0 where
  sta_start sta_connected sta_disconnected other_event : WifiEvent
  got_ip : Option ℕ → WifiEvent

pub record WifiStatus : Type 0 where
  pub ssid : CString
  pub initialized : Bool
  pub started : Bool
  pub connected : Bool
  pub has_ip : Bool
  pub reconnect_count : ℕ
  pub ipv4_addr : ℕ
  pub rssi_dbm : ℤ

module _ (env : Env) where
  -- A Wi-Fi call that answers with a code.
  abbrev pub call : WifiCall → Act EspErr
  call c = ask (Call.wifi_call c) (λ t. env.wifi_result t c)

  abbrev pub run_call : WifiCall → Act (Unit {0})
  run_call c = perform (Call.wifi_call c)

  abbrev pub with_handle : Option ℕ → (ℕ → Act (Unit {0})) → Act (Unit {0})
  with_handle none act = pure tt
  with_handle (some handle) act = act handle

  unfoldable pub cleanup_init_failure : Act (Unit {0})
  cleanup_init_failure = do
    s ← get_wifi
    with_handle s.sta_netif (λ netif. run_call (WifiCall.netif_destroy netif))
    run_call WifiCall.wifi_handler_unregister
    run_call WifiCall.ip_handler_unregister
    run_call WifiCall.wifi_deinit
    with_handle s.reconnect_timer
        (λ timer. run_call (WifiCall.timer_stop timer) >> run_call (WifiCall.timer_delete timer))
    with_handle s.event_group (λ group. run_call (WifiCall.event_group_delete group))
    modify_wifi (λ _. zero_state)

  unfoldable pub issue_connect_request : Act (Unit {0})
  issue_connect_request = run_call WifiCall.wifi_connect

  unfoldable pub reconnect_timer_callback : Act (Unit {0})
  unfolding issue_connect_request
  reconnect_timer_callback = do
    modify_wifi
        (λ s. record s { reconnect_suppressed = false; simulated_disconnect_active = false })
    issue_connect_request

  unfoldable pub event_handler : WifiEvent → Act (Unit {0})
  unfolding issue_connect_request
  event_handler WifiEvent.sta_start = do s ← get_wifi; when s.started issue_connect_request
  event_handler WifiEvent.sta_connected = modify_wifi (λ s. record s { connected = true })
  event_handler WifiEvent.sta_disconnected = do
    modify_wifi (λ s. record s {
      connected = false;
      has_ip = false;
      ipv4_addr = 0;
      reconnect_count = (s.reconnect_count + 1) % 2 ^ 32;
    })
    s ← get_wifi
    with_handle s.event_group (λ group. run_call (WifiCall.clear_connected_bit group))
    when (not s.reconnect_suppressed) issue_connect_request
  event_handler (WifiEvent.got_ip none) = pure tt
  event_handler (WifiEvent.got_ip (some ip)) = do
    modify_wifi (λ s. record s { connected = true; has_ip = true; ipv4_addr = ip })
    s ← get_wifi
    with_handle s.event_group (λ group. run_call (WifiCall.set_connected_bit group))
  event_handler WifiEvent.other_event = pure tt

  -- One call of `wifi_manager_init`: a failure undoes what was set up and is returned.
  abbrev pub or_cleanup : WifiCall → Act EspErr → Act EspErr
  or_cleanup c next = do
    err ← call c
    if is_ok err then next else (cleanup_init_failure >> pure err)

  -- `esp_timer_create` writes the handle when it succeeds.
  abbrev pub create_timer : Act EspErr → Act EspErr
  create_timer next = do
    handle ←
        ask {A = EspErr × Option ℕ} (Call.wifi_call WifiCall.timer_create)
          (λ t. (env.wifi_result t WifiCall.timer_create, env.wifi_handle t WifiCall.timer_create))
    if is_ok handle.0
        then (modify_wifi (λ s. record s { reconnect_timer = handle.1 }) >> next)
        else (cleanup_init_failure >> pure (handle.0))

  -- The ESP-IDF calls from `esp_wifi_init` to the end of `wifi_manager_init`, in order.
  unfoldable pub bring_up : Act EspErr
  bring_up = or_cleanup WifiCall.wifi_init (
      or_cleanup WifiCall.wifi_handler_register (
        or_cleanup WifiCall.ip_handler_register (
          or_cleanup WifiCall.set_storage (
            or_cleanup WifiCall.set_mode (
              create_timer (
                or_cleanup
                  (WifiCall.set_config (snprintf_text 32 env.config.wifi.ssid)
                    (snprintf_text 64 env.config.wifi.password))
                  (modify_wifi (λ s. record s { initialized = true }) >> pure esp_ok)))))))

  unfoldable pub init : Act EspErr
  init = do
    s ← get_wifi
    if s.initialized then pure esp_ok else (do
      group ←
          ask (Call.wifi_call WifiCall.event_group_create)
            (λ t. env.wifi_handle t WifiCall.event_group_create)
      modify_wifi (λ s. record s { event_group = group })
      if not (is_some group) then pure err_no_mem else (do
        netif ←
            ask (Call.wifi_call WifiCall.netif_create)
              (λ t. env.wifi_handle t WifiCall.netif_create)
        modify_wifi (λ s. record s { sta_netif = netif })
        if not (is_some netif) then (cleanup_init_failure >> pure esp_fail) else bring_up))

  abbrev pub start_radio : Act EspErr
  start_radio = do
    modify_wifi (λ s. record s { started = true; connected = false; has_ip = false; ipv4_addr = 0 })
    err ← call WifiCall.wifi_start
    if is_ok err then pure esp_ok else (modify_wifi (λ s. record s { started = false }) >> pure err)

  unfoldable pub start : Act EspErr
  start = do
    s ← get_wifi
    if s.started then pure esp_ok else (do err ← init; if is_ok err then start_radio else pure err)

  unfoldable pub is_connected : Act Bool
  is_connected = do s ← get_wifi; pure s.connected

  unfoldable pub has_ip : Act Bool
  has_ip = do s ← get_wifi; pure s.has_ip

  abbrev pub wait_bit : Option ℕ → ℕ → Act EspErr
  wait_bit none ticks = pure err_invalid_state
  wait_bit (some group) ticks = do
    set ←
        ask (Call.wifi_call (WifiCall.wait_connected_bit group ticks))
          (λ t. env.wifi_bit t (WifiCall.wait_connected_bit group ticks))
    pure (if set then esp_ok else err_timeout)

  unfoldable pub wait_connected : ℕ → Act EspErr
  wait_connected timeout_ms = do
    s ← get_wifi
    if s.started
        then wait_bit s.event_group
            (if timeout_ms == 2 ^ 32 - 1 then env.port_max_delay else env.pd_ms_to_ticks timeout_ms)
        else pure err_invalid_state

  -- `rssi_dbm` is 0 unless the access point answers.
  unfoldable pub get_status : Pointer → Act (EspErr × Option WifiStatus)
  get_status Pointer.null = pure (err_invalid_arg, none)
  get_status Pointer.valid = do
    s ← get_wifi
    rssi ←
        (if s.connected
          then ask (Call.wifi_call WifiCall.get_ap_info) (λ t.
            if is_ok (env.wifi_result t WifiCall.get_ap_info) then env.wifi_rssi t else pos 0)
          else pure (pos 0))
    pure (
      esp_ok,
      some (record {
        ssid = snprintf_text 33 env.config.wifi.ssid;
        initialized = s.initialized;
        started = s.started;
        connected = s.connected;
        has_ip = s.has_ip;
        reconnect_count = s.reconnect_count;
        ipv4_addr = s.ipv4_addr;
        rssi_dbm = rssi;
      }),
    )

  -- The part of `simulate_disconnect` behind `esp_timer_stop`.
  abbrev pub drop_link : ℕ → ℕ → Act EspErr
  drop_link timer duration_ms = do
    modify_wifi (λ s. record s { reconnect_suppressed = true; simulated_disconnect_active = true })
    err ← call (WifiCall.timer_start_once timer (duration_ms * 1000))
    if is_ok err
        then (do
          result ← call WifiCall.wifi_disconnect
          pure (if is_wifi_not_connect result then esp_ok else result))
        else (do
          modify_wifi
              (λ s. record s { reconnect_suppressed = false; simulated_disconnect_active = false })
          pure err)

  -- `esp_timer_stop` answers ESP_ERR_INVALID_STATE for a timer that is not running.
  abbrev pub stop_timer : ℕ → Act EspErr → Act EspErr
  stop_timer timer next = do
    err ← call (WifiCall.timer_stop timer)
    if is_ok err || is_invalid_state err then next else pure err

  abbrev pub simulate_with : Bool → Option ℕ → ℕ → Act EspErr
  simulate_with started none duration_ms = pure err_invalid_state
  simulate_with started (some timer) duration_ms =
      if started
      then (if duration_ms == 0
          then pure err_invalid_arg
          else stop_timer timer (drop_link timer duration_ms))
      else pure err_invalid_state

  unfoldable pub simulate_disconnect : ℕ → Act EspErr
  simulate_disconnect duration_ms = do
    s ← get_wifi
    simulate_with s.started s.reconnect_timer duration_ms

  abbrev pub restore_link : Act EspErr
  restore_link = do
    modify_wifi
        (λ s. record s { reconnect_suppressed = false; simulated_disconnect_active = false })
    issue_connect_request
    pure esp_ok

  abbrev pub resume_with : Bool → Option ℕ → Act EspErr
  resume_with started none = pure err_invalid_state
  resume_with started (some timer) =
      if started then stop_timer timer restore_link else pure err_invalid_state

  unfoldable pub resume_simulated_disconnect : Act EspErr
  unfolding issue_connect_request
  resume_simulated_disconnect = do s ← get_wifi; resume_with s.started s.reconnect_timer
