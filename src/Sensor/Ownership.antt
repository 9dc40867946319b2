-- ===== src/Sensor/Ownership.antt =====
-- components/sensor_tmp36/sensor_tmp36.c: how `sensor_tmp36_deinit` ends.
use esp32_sparkplug.Prelude.{ℕ, ◌≡◌, ◌⊎◌, true, false, some, arith}
use esp32_sparkplug.Esp.{esp_ok, is_ok}
use esp32_sparkplug.Device.{DeviceCall}
use esp32_sparkplug.Sensor.Tmp36.{zero_sensor, delete_calibration, deinit}
use esp32_sparkplug.Board.{Devices, Board}

module _ (dev : Devices) where
  -- `sensor_tmp36_deinit` of an initialised sensor either comes back with ESP_OK and a state that is
  -- all zero, or hands on an error and leaves the state as it was. The second holds also where the
  -- calibration scheme is deleted and then the deletion of the unit fails: the sensor stays
  -- initialised, with the handle of the scheme that is no more.
  pub deinit_outcome :
      (b : Board)
      → b.sensor.initialized ≡ true
      → ((((deinit dev b).0 ≡ esp_ok) × ((deinit dev b).1.sensor ≡ zero_sensor))
          ⊎ ((is_ok (deinit dev b).0 ≡ false) × ((deinit dev b).1.sensor ≡ b.sensor)))
        × ((cali unit : ℕ)
            → b.sensor.cali_handle ≡ some cali
            → b.sensor.adc_handle ≡ some unit
            → is_ok (delete_calibration dev (some cali) b.sensor.cali_scheme b).0 ≡ true
            → is_ok (
                dev.result
                  (delete_calibration dev (some cali) b.sensor.cali_scheme b).1.node.trace
                  (DeviceCall.adc_del_unit unit))
              ≡ false
            → ((deinit dev b).1.sensor.initialized ≡ true)
              × ((deinit dev b).1.sensor.cali_handle ≡ some cali))
  unfolding deinit delete_calibration
  deinit_outcome b h = (grind arith, λ cali unit c u d f. grind arith)
