-- ===== src/Platform.antt =====
-- What the firmware calls and does not implement: ESP-IDF, FreeRTOS, the MQTT client, the clocks
-- and the floating-point unit. `Env` holds their answers, each a function of all calls made so far,
-- so that two calls may be answered differently; `Machine` is the firmware's static state with the
-- history of calls, newest first; `Act` is a C function that runs on it.
use esp32_sparkplug.Prelude.{ℕ, ℤ, Bool, Option, List, ◌∷◌, Bytes, CString, if◌then◌else◌}
use esp32_sparkplug.Esp.{EspErr, is_ok}
use esp32_sparkplug.AppConfig.{AppConfig}
use esp32_sparkplug.Node.Nanopb.{Nanopb}
use esp32_sparkplug.Device.{DeviceCall}
use esp32_sparkplug.Wifi.State.{WifiState, WifiCall}
use esp32_sparkplug.Session.State.{Session, SessionStatus, Cmd}

-- The fields of `esp_mqtt_client_config_t` that the session sets. The rest is fixed there: MQTT
-- 3.1.1, a clean session, keepalive 60, will QoS 1 and not retained, no automatic reconnect.
pub record MqttConfig : Type 0 where
  pub uri : Option CString
  pub broker_certificate : Bool
  pub username : Option CString
  pub password : Option CString
  pub will_topic : CString
  pub will_payload : Bytes

pub data Call : Type 0 where
  esp_timer_get_time gettimeofday queue_create queue_delete task_create : Call
  queue_send : Cmd → Call
  queue_receive : ℕ → Call
  status_callback : ℕ → Option ℕ → SessionStatus → Call
  mqtt_client_init : MqttConfig → Call
  mqtt_client_register_event mqtt_client_start mqtt_client_stop mqtt_client_destroy : ℕ → Call
  mqtt_client_publish : ℕ → CString → Bytes → Call
  mqtt_client_subscribe : Option ℕ → CString → Call
  wifi_call : WifiCall → Call
  device_call : DeviceCall → Call

abbrev pub Trace : Type 0
Trace = List Call

-- `float` values are bit patterns; a comparison answers with a Boolean.
pub record FloatUnit : Type 0 where
  pub add : ℕ → ℕ → ℕ
  pub sub : ℕ → ℕ → ℕ
  pub mul : ℕ → ℕ → ℕ
  pub div : ℕ → ℕ → ℕ
  pub fabsf : ℕ → ℕ
  pub sinf : ℕ → ℕ
  pub of_int : ℤ → ℕ
  pub ge : ℕ → ℕ → Bool

pub record Env : Type 0 where
  pub config : AppConfig
  pub nanopb : Nanopb
  pub float : FloatUnit
  pub esp_timer_get_time : Trace → ℤ
  pub gettimeofday : Trace → ℤ × ℤ
  pub pd_ms_to_ticks : ℕ → ℕ
  pub port_max_delay : ℕ
  pub queue_create : Trace → Option ℕ
  pub task_create : Trace → Bool
  pub queue_send : Trace → Cmd → ℕ → Bool
  pub queue_receive : Trace → ℕ → Option Cmd
  pub mqtt_over_ssl_scheme : CString
  pub mqtt_over_wss_scheme : CString
  pub mqtt_client_init : Trace → MqttConfig → Option ℕ
  pub mqtt_client_register_event : Trace → ℕ → EspErr
  pub mqtt_client_start : Trace → ℕ → EspErr
  pub mqtt_client_publish : Trace → ℕ → CString → Bytes → ℤ
  pub mqtt_client_subscribe : Trace → Option ℕ → CString → ℤ
  pub wifi_result : Trace → WifiCall → EspErr
  pub wifi_handle : Trace → WifiCall → Option ℕ
  pub wifi_bit : Trace → WifiCall → Bool
  pub wifi_rssi : Trace → ℤ

pub record Machine : Type 0 where
  pub session : Session
  pub wifi : WifiState
  pub trace : Trace

abbrev pub Act : Type 0 → Type 0
Act A = Machine → A × Machine

infixl 5 ◌>>=◌ ◌>>◌
abbrev pub ◌>>=◌ : {A B : Type 0} → Act A → (A → Act B) → Act B
◌>>=◌ m f s = f (m s).0 (m s).1

abbrev pub ◌>>◌ : {B : Type 0} → Act (Unit {0}) → Act B → Act B
◌>>◌ m k s = k (m s).1

module _ {A : Type 0} where
  abbrev pub pure : A → Act A
  pure a m = (a, m)

  -- A call that answers with `f` of the history before it.
  abbrev pub ask : Call → (Trace → A) → Act A
  ask c f m = (f m.trace, record m { trace = c ∷ m.trace })

abbrev pub perform : Call → Act (Unit {0})
perform c m = (tt, record m { trace = c ∷ m.trace })

abbrev pub get_session : Act Session
get_session m = (m.session, m)

abbrev pub get_wifi : Act WifiState
get_wifi m = (m.wifi, m)

abbrev pub modify_session : (Session → Session) → Act (Unit {0})
modify_session f m = (tt, record m { session = f m.session })

abbrev pub modify_wifi : (WifiState → WifiState) → Act (Unit {0})
modify_wifi f m = (tt, record m { wifi = f m.wifi })

abbrev pub when : Bool → Act (Unit {0}) → Act (Unit {0})
when b act = if b then act else pure tt

-- `ESP_RETURN_ON_ERROR`: go on only if the first call succeeds.
abbrev pub on_ok : Act EspErr → Act EspErr → Act EspErr
on_ok first next m = if is_ok (first m).0 then next (first m).1 else ((first m).0, (first m).1)

-- A call whose code is not read.
abbrev pub ignore : {A : Type 0} → Act A → Act (Unit {0})
ignore act m = (tt, (act m).1)
