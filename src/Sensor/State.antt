-- ===== src/Sensor/State.antt =====
-- components/sensor_tmp36/sensor_tmp36.c: the sensor's state.
use esp32_sparkplug.Prelude.{ℕ, Bool, Option}
use esp32_sparkplug.Sensor.{SensorReading}

pub data CaliScheme : Type 0 where
  scheme_none curve_fitting line_fitting : CaliScheme

-- `sensor_tmp36_state_t`.
pub record SensorState : Type 0 where
  pub initialized : Bool
  pub has_last_reading : Bool
  pub adc_handle : Option ℕ
  pub cali_handle : Option ℕ
  pub cali_scheme : CaliScheme
  pub last_reading : SensorReading
