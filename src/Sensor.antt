-- ===== src/Sensor.antt =====
-- components/sensor_tmp36: the reading that the other components pass on. A `float` is its bit
-- pattern.
pub mod State
pub mod Tmp36
pub mod Average
pub mod Ownership
pub mod Lifetime
mod Examples
use esp32_sparkplug.Prelude.{ℕ, Bool, ℤ}

pub record SensorReading : Type 0 where
  pub valid : Bool
  pub sample_count : ℕ
  pub raw_average : ℤ
  pub calibrated_mv : ℤ
  pub temperature_c : ℕ
