-- ===== src/Console/Repl.antt =====
-- components/app_console/app_console.c: the console's own life. ESP-IDF's REPL reads the words and
-- calls the command that was registered under the first.
use esp32_sparkplug.Prelude.{
  ℕ, Bool, true, ◌||◌, Option, List, [], ◌∷◌, CString, codes, if◌then◌else◌,
}
use esp32_sparkplug.Esp.{EspErr, esp_ok, is_ok, is_invalid_state}
use esp32_sparkplug.Device.{DeviceCall}
use esp32_sparkplug.Console.Providers.{ProviderCode}
use esp32_sparkplug.Console.Commands.{
  Handler, cmd_status, cmd_sensor, cmd_wifi, cmd_time, cmd_mqtt, cmd_sparkplug, cmd_disconnect_sim,
  cmd_publish, cmd_rebirth, cmd_reset_name, cmd_restart,
}
use esp32_sparkplug.Board.{
  Devices, BoardAct, ◌>>=◌, ◌>>◌, pure, ask, get, modify_console, on_ok, call,
}

-- `app_console_command_def_t`, less its help text.
pub record CommandDef : Type 0 where
  pub name : CString
  pub handler : Handler

module _ (dev : Devices) (code : ProviderCode) where
  -- The table `commands`.
  unfoldable pub commands : List CommandDef
  commands =
      record { name = codes "status"; handler = cmd_status dev code }
      ∷ (record { name = codes "sensor"; handler = cmd_sensor dev code }
          ∷ (record { name = codes "wifi"; handler = cmd_wifi dev code }
              ∷ (record { name = codes "time"; handler = cmd_time dev code }
                  ∷ (record { name = codes "mqtt"; handler = cmd_mqtt dev code }
                      ∷ (record { name = codes "sparkplug"; handler = cmd_sparkplug dev code }
                          ∷ (record {
                            name = codes "disconnect_sim";
                            handler = cmd_disconnect_sim dev code;
                          }
                              ∷ (record { name = codes "publish"; handler = cmd_publish dev code }
                                  ∷ (record {
                                    name = codes "rebirth";
                                    handler = cmd_rebirth dev code;
                                  }
                                      ∷ (record {
                                        name = codes "reset_name";
                                        handler = cmd_reset_name dev code;
                                      }
                                          ∷ (record {
                                            name = codes "restart";
                                            handler = cmd_restart dev code;
                                          }
                                              ∷ []))))))))))

  unfoldable pub register_command : CommandDef → BoardAct EspErr
  register_command command = call dev (DeviceCall.register_command command.name)

  -- The loop over the table, which stops at the first failure.
  unfoldable pub register_all : List CommandDef → BoardAct EspErr
  unfolding register_command
  register_all [] = pure esp_ok
  register_all (command ∷ rest) = on_ok (register_command command) (register_all rest)

  abbrev pub registered : BoardAct EspErr
  registered = do modify_console (λ s. record s { commands_registered = true }); pure esp_ok

  abbrev pub register_afresh : BoardAct EspErr
  register_afresh = do
    err ← call dev DeviceCall.register_help
    if is_ok err || is_invalid_state err then on_ok (register_all commands) registered else pure err

  unfoldable pub register_commands_once : BoardAct EspErr
  unfolding commands
  register_commands_once = do
    s ← get (λ b. b.console)
    if s.commands_registered then pure esp_ok else register_afresh

  -- `esp_console_new_repl_uart` writes the handle when it succeeds.
  abbrev pub new_repl : BoardAct EspErr
  new_repl = do
    made ←
        ask {A = EspErr × Option ℕ} DeviceCall.new_repl
          (λ t. (dev.result t DeviceCall.new_repl, dev.handle t DeviceCall.new_repl))
    if is_ok (made.0)
        then (do modify_console (λ s. record s { repl = made.1 }); pure esp_ok)
        else pure (made.0)

  abbrev pub initialized : BoardAct EspErr
  initialized = do modify_console (λ s. record s { initialized = true }); pure esp_ok

  unfoldable pub init : BoardAct EspErr
  init = do
    s ← get (λ b. b.console)
    if s.initialized then pure esp_ok else on_ok new_repl (on_ok register_commands_once initialized)

  abbrev pub run_repl : BoardAct EspErr
  run_repl =
      on_ok (call dev DeviceCall.start_repl)
        (do modify_console (λ s. record s { started = true }); pure esp_ok)

  unfoldable pub start : BoardAct EspErr
  start = do s ← get (λ b. b.console); if s.started then pure esp_ok else on_ok init run_repl

unfoldable pub is_started : BoardAct Bool
is_started = get (λ b. b.console.started)
