-- ===== src/Console/Providers.antt =====
-- components/app_console: what the console calls through the pointers that it was given, as an
-- interface that the application fills in, and what it prints.
use esp32_sparkplug.Prelude.{
  ℕ, Bool, true, false, Option, none, some, List, CString, codes, ◌∷◌, [],
}
use esp32_sparkplug.Prelude.Decimal.{text_of}
use esp32_sparkplug.Esp.{EspErr}
use esp32_sparkplug.Device.{DeviceCall}
use esp32_sparkplug.Console.State.{
  SensorStatus, LinkStatus, ClockStatus, MqttStatus, SparkplugStatus, Providers,
}
use esp32_sparkplug.Board.{Devices, BoardAct, ◌>>◌, pure, get, perform, modify_console}

-- The functions behind the pointers, each with its context. A status that is not written is zero.
pub record ProviderCode : Type 0 where
  pub sensor_status : ℕ → Option ℕ → BoardAct (EspErr × SensorStatus)
  pub wifi_status : ℕ → Option ℕ → BoardAct (EspErr × LinkStatus)
  pub time_status : ℕ → Option ℕ → BoardAct (EspErr × ClockStatus)
  pub mqtt_status : ℕ → Option ℕ → BoardAct (EspErr × MqttStatus)
  pub sparkplug_status : ℕ → Option ℕ → BoardAct (EspErr × SparkplugStatus)
  pub action : ℕ → Option ℕ → BoardAct EspErr
  pub set_enabled : ℕ → Option ℕ → Bool → BoardAct EspErr

-- `memset(&s_providers, 0, sizeof(s_providers))`.
abbrev pub no_providers : Providers
no_providers = record {
  get_sensor_status = none;
  sensor_status_ctx = none;
  get_wifi_status = none;
  wifi_status_ctx = none;
  get_time_status = none;
  time_status_ctx = none;
  get_mqtt_status = none;
  mqtt_status_ctx = none;
  get_sparkplug_status = none;
  sparkplug_status_ctx = none;
  request_publish = none;
  publish_ctx = none;
  request_rebirth = none;
  rebirth_ctx = none;
  set_disconnect_sim_enabled = none;
  disconnect_sim_ctx = none;
}

abbrev pub bool_to_str : Bool → CString
bool_to_str true = codes "true"
bool_to_str false = codes "false"

-- A text, or what stands for an empty one.
abbrev pub or_else : CString → CString → CString
or_else [] instead = instead
or_else (c ∷ cs) instead = c ∷ cs

abbrev pub print : List CString → BoardAct (Unit {0})
print pieces = perform (DeviceCall.printf (text_of pieces))

unfoldable pub snapshot_providers : BoardAct Providers
snapshot_providers = get (λ b. b.console.providers)

-- `app_console_set_providers`.
abbrev pub given : Option Providers → Providers
given none = no_providers
given (some p) = p

unfoldable pub set_providers : Option Providers → BoardAct EspErr
set_providers p = do modify_console (λ s. record s { providers = given p }); pure EspErr.esp_ok

unfoldable pub print_provider_unwired : CString → BoardAct (Unit {0})
print_provider_unwired name = print (name ∷ (codes ": runtime provider not attached\n" ∷ []))

module _ (dev : Devices) where
  unfoldable pub report_provider_error : CString → EspErr → BoardAct ℕ
  report_provider_error name err = do
    print (name ∷ (codes ": provider failed (" ∷ (dev.esp_err_to_name err ∷ (codes ")\n" ∷ []))))
    pure 1

  abbrev pub usage : CString → BoardAct ℕ
  usage text = do print (codes "usage: " ∷ (text ∷ (codes "\n" ∷ []))); pure 1
