-- ===== src/Console/Commands.antt =====
-- components/app_console/app_console.c: the commands. `argv` is the list of words, the command's name
-- first, and the result is the exit code.
use esp32_sparkplug.Prelude.{
  ℕ, ◌==◌, ℤ, div_ℤ, Bool, true, false, Option, none, some, List, [], ◌∷◌, CString, codes, length,
  same_text, if◌then◌else◌,
}
use esp32_sparkplug.Prelude.Decimal.{dec, dec_ℤ}
use esp32_sparkplug.Esp.{EspErr, is_ok}
use esp32_sparkplug.Device.{DeviceCall, ResetReason}
use esp32_sparkplug.Config.NodeId.{reset_node_id}
use esp32_sparkplug.Platform.{Call}
use esp32_sparkplug.Console.Providers.{
  ProviderCode, bool_to_str, print, snapshot_providers, print_provider_unwired,
  report_provider_error, usage,
}
use esp32_sparkplug.Console.Reports.{
  sensor_line, sensor_report, wifi_line, wifi_report, time_line, time_report, mqtt_line,
  mqtt_report, sparkplug_lines, sparkplug_report, sim_report,
}
use esp32_sparkplug.Board.{Devices, BoardAct, ◌>>=◌, ◌>>◌, pure, get, perform, on_node}

abbrev pub Handler : Type 0
Handler = List CString → BoardAct ℕ

-- `app_reset_reason_to_str`.
unfoldable pub reset_reason_to_str : ResetReason → CString
reset_reason_to_str ResetReason.unknown = codes "unknown"
reset_reason_to_str ResetReason.poweron = codes "poweron"
reset_reason_to_str ResetReason.external = codes "external"
reset_reason_to_str ResetReason.software = codes "software"
reset_reason_to_str ResetReason.panic = codes "panic"
reset_reason_to_str ResetReason.int_wdt = codes "int_wdt"
reset_reason_to_str ResetReason.task_wdt = codes "task_wdt"
reset_reason_to_str ResetReason.wdt = codes "wdt"
reset_reason_to_str ResetReason.deepsleep = codes "deepsleep"
reset_reason_to_str ResetReason.brownout = codes "brownout"
reset_reason_to_str ResetReason.sdio = codes "sdio"
reset_reason_to_str ResetReason.other = codes "other"

module _ (dev : Devices) (code : ProviderCode) where
  open code use {
    sensor_status, wifi_status, time_status, mqtt_status, sparkplug_status, action, set_enabled,
  }

  -- The commands that take no arguments.
  abbrev pub no_arguments : CString → BoardAct ℕ → Handler
  no_arguments name act argv = if length argv == 1 then act else usage dev name

  -- A status asked of its provider and shown; `code` is the exit code where all went well.
  abbrev pub show :
      {A : Type 0}
      → CString
      → (ℕ → Option ℕ → BoardAct (EspErr × A))
      → (A → BoardAct (Unit {0}))
      → ℕ
      → Option ℕ
      → Option ℕ
      → BoardAct ℕ
  show name ask_it shown so_far none ctx = do print_provider_unwired name; pure so_far
  show name ask_it shown so_far (some f) ctx = do
    answer ← ask_it f ctx
    if is_ok (answer.0)
        then (do shown (answer.1); pure so_far)
        else report_provider_error dev name (answer.0)

  -- `app_console_report_action_result`.
  unfoldable pub report_action_result : CString → Option ℕ → Option ℕ → BoardAct ℕ
  report_action_result name none ctx = do print_provider_unwired name; pure 0
  report_action_result name (some f) ctx = do
    err ← action f ctx
    if is_ok err then (do print (name ∷ (codes ": request accepted\n" ∷ [])); pure 0) else (do
      print (name ∷ (codes ": request failed (" ∷ (dev.esp_err_to_name err ∷ (codes ")\n" ∷ []))))
      pure 1)

  -- `esp_timer_get_time() / 1000`.
  abbrev pub uptime_ms : BoardAct ℤ
  uptime_ms = on_node (λ m. (
    div_ℤ (dev.env.esp_timer_get_time m.trace) 1000,
    record m { trace = Call.esp_timer_get_time ∷ m.trace },
  ))

  -- The lines about the device itself.
  unfoldable pub device_lines : BoardAct (Unit {0})
  unfolding dec dec_ℤ reset_reason_to_str div_ℤ
  device_lines = do
    print (
        codes "project="
        ∷ (dev.identity.project_name
            ∷ (codes " version="
                ∷ (dev.identity.version
                    ∷ (codes " idf="
                        ∷ (dev.identity.idf_ver
                            ∷ (codes " target=" ∷ (dev.identity.target ∷ (codes "\n" ∷ [])))))))))
    uptime ← uptime_ms
    print (
        codes "uptime_ms="
        ∷ (dec_ℤ uptime
            ∷ (codes " reset_reason="
                ∷ (reset_reason_to_str dev.identity.reset_reason
                    ∷ (codes " cores="
                        ∷ (dec dev.identity.cores
                            ∷ (codes " revision="
                                ∷ (dec dev.identity.revision ∷ (codes "\n" ∷ [])))))))))
    s ← get (λ b. b.console)
    print (
        codes "console: initialized="
        ∷ (bool_to_str s.initialized
            ∷ (codes " started=" ∷ (bool_to_str s.started ∷ (codes "\n" ∷ [])))))

  -- One component of `cmd_status`: a failing provider sets the exit code to 1.
  abbrev pub component :
      {A : Type 0}
      → CString
      → (ℕ → Option ℕ → BoardAct (EspErr × A))
      → (A → BoardAct (Unit {0}))
      → Option ℕ
      → Option ℕ
      → ℕ
      → BoardAct ℕ
  component name ask_it shown f ctx exit_code = show name ask_it shown exit_code f ctx

  unfoldable pub cmd_status : Handler
  unfolding snapshot_providers
  cmd_status = no_arguments (codes "status") (do
    device_lines
    p ← snapshot_providers
    exit_code ←
        component (codes "sensor") sensor_status (sensor_line dev) p.get_sensor_status
          p.sensor_status_ctx 0
    exit_code ←
        component (codes "wifi") wifi_status wifi_line p.get_wifi_status p.wifi_status_ctx exit_code
    exit_code ←
        component (codes "time") time_status time_line p.get_time_status p.time_status_ctx exit_code
    exit_code ←
        component (codes "mqtt") mqtt_status mqtt_line p.get_mqtt_status p.mqtt_status_ctx exit_code
    component (codes "sparkplug") sparkplug_status sparkplug_lines p.get_sparkplug_status
        p.sparkplug_status_ctx exit_code)

  unfoldable pub cmd_sensor : Handler
  unfolding snapshot_providers
  cmd_sensor = no_arguments (codes "sensor") (do
    p ← snapshot_providers
    show (codes "sensor") sensor_status (sensor_report dev) 0 p.get_sensor_status
        p.sensor_status_ctx)

  unfoldable pub cmd_wifi : Handler
  unfolding snapshot_providers
  cmd_wifi = no_arguments (codes "wifi") (do
    p ← snapshot_providers
    show (codes "wifi") wifi_status wifi_report 0 p.get_wifi_status p.wifi_status_ctx)

  unfoldable pub cmd_time : Handler
  unfolding snapshot_providers
  cmd_time = no_arguments (codes "time") (do
    p ← snapshot_providers
    show (codes "time") time_status time_report 0 p.get_time_status p.time_status_ctx)

  unfoldable pub cmd_mqtt : Handler
  unfolding snapshot_providers
  cmd_mqtt = no_arguments (codes "mqtt") (do
    p ← snapshot_providers
    show (codes "mqtt") mqtt_status mqtt_report 0 p.get_mqtt_status p.mqtt_status_ctx)

  unfoldable pub cmd_sparkplug : Handler
  unfolding snapshot_providers
  cmd_sparkplug = no_arguments (codes "sparkplug") (do
    p ← snapshot_providers
    show (codes "sparkplug") sparkplug_status sparkplug_report 0 p.get_sparkplug_status
        p.sparkplug_status_ctx)

  abbrev pub sim_usage : BoardAct ℕ
  sim_usage = usage dev (codes "disconnect_sim [status|on|off]")

  -- "on" and "off".
  abbrev pub parse_switch : CString → Option Bool
  parse_switch word =
      if same_text word (codes "on")
      then some true
      else if same_text word (codes "off")
      then some false
      else none

  abbrev pub sim_outcome : Bool → EspErr → BoardAct ℕ
  sim_outcome enabled err =
      if is_ok err
      then (do
        print (
            codes "disconnect_sim: "
            ∷ ((if enabled then codes "enabled" else codes "disabled") ∷ (codes "\n" ∷ [])))
        pure 0)
      else (do
        print (
            codes "disconnect_sim: request failed ("
            ∷ (dev.esp_err_to_name err ∷ (codes ")\n" ∷ [])))
        pure 1)

  abbrev pub switch_sim : ℕ → Option ℕ → Option Bool → BoardAct ℕ
  switch_sim f ctx none = sim_usage
  switch_sim f ctx (some enabled) = do err ← set_enabled f ctx enabled; sim_outcome enabled err

  -- "disconnect_sim" with a word that is not "status".
  abbrev pub set_sim : Option ℕ → Option ℕ → CString → BoardAct ℕ
  set_sim none ctx word = do print_provider_unwired (codes "disconnect_sim"); pure 0
  set_sim (some f) ctx word = switch_sim f ctx (parse_switch word)

  abbrev pub show_sim : BoardAct ℕ
  show_sim = do
    p ← snapshot_providers
    show (codes "disconnect_sim") sparkplug_status sim_report 0 p.get_sparkplug_status
        p.sparkplug_status_ctx

  unfoldable pub cmd_disconnect_sim : Handler
  unfolding snapshot_providers
  cmd_disconnect_sim [] = sim_usage
  cmd_disconnect_sim (name ∷ []) = show_sim
  cmd_disconnect_sim (name ∷ (word ∷ [])) =
      if same_text word (codes "status") then show_sim else (do
        p ← snapshot_providers
        set_sim p.set_disconnect_sim_enabled p.disconnect_sim_ctx word)
  cmd_disconnect_sim (name ∷ (word ∷ (more ∷ words))) = sim_usage

  unfoldable pub cmd_publish : Handler
  unfolding snapshot_providers
  cmd_publish = no_arguments (codes "publish") (do
    p ← snapshot_providers
    report_action_result (codes "publish") p.request_publish p.publish_ctx)

  unfoldable pub cmd_rebirth : Handler
  unfolding snapshot_providers
  cmd_rebirth = no_arguments (codes "rebirth") (do
    p ← snapshot_providers
    report_action_result (codes "rebirth") p.request_rebirth p.rebirth_ctx)

  unfoldable pub cmd_reset_name : Handler
  cmd_reset_name = no_arguments (codes "reset_name") (do
    err ← reset_node_id dev
    if is_ok err
        then (do
          print (codes "reset_name: node_id erased from NVS; restart to assign a new name\n" ∷ [])
          pure 0)
        else (do
          print (codes "reset_name: failed (" ∷ (dev.esp_err_to_name err ∷ (codes ")\n" ∷ [])))
          pure 1))

  -- `esp_restart` does not return.
  unfoldable pub cmd_restart : Handler
  cmd_restart = no_arguments (codes "restart") (do
    print (codes "restart: rebooting device\n" ∷ [])
    perform DeviceCall.flush
    perform DeviceCall.restart
    pure 0)
