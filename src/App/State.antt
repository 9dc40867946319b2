-- ===== src/App/State.antt =====
-- main/app_main.c: the application's static state.
use esp32_sparkplug.Prelude.{ℕ, ℤ, Bool}
use esp32_sparkplug.Sensor.{SensorReading}

-- `app_sensor_snapshot_t`.
pub record SensorSnapshot : Type 0 where
  pub valid : Bool
  pub reading : SensorReading
  pub sample_time_ms : ℤ

pub data LedMode : Type 0 where
  mode_off pulse slow_blink mode_on : LedMode

-- `s_sensor_snapshot` and the two flags of the status LED.
pub record AppState : Type 0 where
  pub snapshot : SensorSnapshot
  pub mqtt_connected : Bool
  pub waiting_for_primary_host : Bool

-- The local variables of `app_status_led_task`, between two rounds.
pub record LedState : Type 0 where
  pub mode : LedMode
  pub previous_mode : LedMode
  pub pulse_elapsed_ms : ℕ
