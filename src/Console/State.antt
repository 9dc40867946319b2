-- ===== src/Console/State.antt =====
-- components/app_console: the records of app_console.h and the console's static state. A provider is
-- a function pointer with its context.
use esp32_sparkplug.Prelude.{ℕ, ℤ, Bool, Option, CString}

pub record SensorStatus : Type 0 where
  pub valid : Bool
  pub sample_count : ℕ
  pub raw_average : ℤ
  pub calibrated_mv : ℤ
  pub temperature_c : ℕ
  pub last_sample_ms : ℤ

pub record LinkStatus : Type 0 where
  pub initialized : Bool
  pub connected : Bool
  pub has_ip : Bool
  pub ssid : CString
  pub ip_address : CString
  pub rssi_dbm : ℤ
  pub reconnect_count : ℕ

pub record ClockStatus : Type 0 where
  pub initialized : Bool
  pub synchronized : Bool
  pub unix_time_ms : ℤ
  pub last_sync_ms : ℤ

pub record MqttStatus : Type 0 where
  pub configured : Bool
  pub started : Bool
  pub connected : Bool
  pub ncmd_subscribed : Bool
  pub broker_uri : CString
  pub reconnect_count : ℕ

pub record SparkplugStatus : Type 0 where
  pub session_active : Bool
  pub birth_complete : Bool
  pub rebirth_pending : Bool
  pub disconnect_sim_enabled : Bool
  pub disconnect_sim_active : Bool
  pub primary_host_configured : Bool
  pub primary_host_online : Bool
  pub disconnect_sim_interval_ms : ℤ
  pub disconnect_sim_duration_ms : ℤ
  pub bdseq : ℕ
  pub seq : ℕ
  pub last_publish_ms : ℤ
  pub last_message : CString

-- `app_console_providers_t`.
pub record Providers : Type 0 where
  pub get_sensor_status : Option ℕ
  pub sensor_status_ctx : Option ℕ
  pub get_wifi_status : Option ℕ
  pub wifi_status_ctx : Option ℕ
  pub get_time_status : Option ℕ
  pub time_status_ctx : Option ℕ
  pub get_mqtt_status : Option ℕ
  pub mqtt_status_ctx : Option ℕ
  pub get_sparkplug_status : Option ℕ
  pub sparkplug_status_ctx : Option ℕ
  pub request_publish : Option ℕ
  pub publish_ctx : Option ℕ
  pub request_rebirth : Option ℕ
  pub rebirth_ctx : Option ℕ
  pub set_disconnect_sim_enabled : Option ℕ
  pub disconnect_sim_ctx : Option ℕ

pub record ConsoleState : Type 0 where
  pub repl : Option ℕ
  pub initialized : Bool
  pub started : Bool
  pub commands_registered : Bool
  pub providers : Providers
