-- ===== src/Sensor/Examples.antt =====
-- The theorems about the sensor at concrete inputs.
use esp32_sparkplug.Prelude.{ℕ, ◌≡◌, refl, ◌⊎◌, pos, ◌≤ℤ◌, true, false, none, some, arith}
use esp32_sparkplug.Esp.{EspErr, esp_ok, esp_fail, is_ok, Pointer}
use esp32_sparkplug.Device.{DeviceCall}
use esp32_sparkplug.Sensor.{SensorReading}
use esp32_sparkplug.Sensor.State.{curve_fitting}
use esp32_sparkplug.Sensor.Tmp36.{
  zero_sensor, config, mv_to_celsius, delete_calibration, init, deinit, read, get_last_reading,
}
use esp32_sparkplug.Sensor.Average.{Samples, read-bounds}
use esp32_sparkplug.Sensor.Lifetime.{
  Owns, HoldsNothing, held_unit, held_scheme, refused_deletion, init_gives_back,
}
use esp32_sparkplug.Sensor.Ownership.{deinit_outcome}
use esp32_sparkplug.Testbed.Boards.{test_devices, test_board}
use esp32_sparkplug.Platform.{Trace}
use esp32_sparkplug.Board.{Devices, Board}

abbrev set_up : Board
set_up = record test_board {
  sensor = record zero_sensor {
    initialized = true;
    adc_handle = some 4;
    cali_handle = some 4;
    cali_scheme = curve_fitting;
  };
}

adc_read-Samples : Samples test_devices 740 760
adc_read-Samples = record {
  sample = λ t adc. 750;
  reads = λ t adc. refl;
  above = λ t adc. omega arith;
  below = λ t adc. omega arith;
}

read-bounds_example :
    ((reading : SensorReading)
      → (read test_devices Pointer.valid set_up).0.1 ≡ some reading
      → (pos 740 ≤ℤ reading.raw_average)
        × (reading.raw_average ≤ℤ pos 760)
        × (reading.valid ≡ true)
        × (reading.sample_count ≡ (config test_devices).multisample_count)
        × (reading.temperature_c ≡ mv_to_celsius test_devices.env.float reading.calibrated_mv)
        × ((get_last_reading test_devices Pointer.valid
              (read test_devices Pointer.valid set_up).1).0
            ≡ (esp_ok, some reading)))
    × ((read test_devices Pointer.valid set_up).0.1 ≡ none
        → (read test_devices Pointer.valid set_up).1.sensor ≡ set_up.sensor)
read-bounds_example = read-bounds test_devices 740 760 adc_read-Samples set_up

test_board-HoldsNothing : HoldsNothing test_devices test_board
test_board-HoldsNothing = record {
  unit = unfold held_unit in refl;
  scheme = unfold held_scheme in refl;
}

init_gives_back_example :
    ((init test_devices test_board).1.sensor.initialized ≡ true
      → Owns test_devices (init test_devices test_board).1
        × (is_ok (deinit test_devices (init test_devices test_board).1).0 ≡ true
            → HoldsNothing test_devices (deinit test_devices (init test_devices test_board).1).1))
    × ((init test_devices test_board).1.sensor.initialized ≡ false
        → ((init test_devices test_board).1.sensor ≡ test_board.sensor)
          × (held_scheme test_devices (init test_devices test_board).1.node.trace ≡ none)
          × ((held_unit test_devices (init test_devices test_board).1.node.trace ≡ none)
              ⊎ (refused_deletion test_devices (init test_devices test_board).1.node.trace ≡ true)))
init_gives_back_example = init_gives_back test_devices test_board refl test_board-HoldsNothing

-- A unit that cannot be deleted.
abbrev stubborn_result : Trace → DeviceCall → EspErr
stubborn_result t (DeviceCall.adc_del_unit adc) = esp_fail
stubborn_result t _ = esp_ok

abbrev stubborn : Devices
stubborn = record test_devices { result = stubborn_result }

deinit_outcome_example :
    ((((deinit stubborn set_up).0 ≡ esp_ok) × ((deinit stubborn set_up).1.sensor ≡ zero_sensor))
      ⊎ ((is_ok (deinit stubborn set_up).0 ≡ false)
          × ((deinit stubborn set_up).1.sensor ≡ set_up.sensor)))
    × ((cali unit : ℕ)
        → set_up.sensor.cali_handle ≡ some cali
        → set_up.sensor.adc_handle ≡ some unit
        → is_ok (delete_calibration stubborn (some cali) set_up.sensor.cali_scheme set_up).0 ≡ true
        → is_ok (
            stubborn.result
              (delete_calibration stubborn
                (some cali)
                set_up.sensor.cali_scheme
                set_up).1.node.trace
              (DeviceCall.adc_del_unit unit))
          ≡ false
        → ((deinit stubborn set_up).1.sensor.initialized ≡ true)
          × ((deinit stubborn set_up).1.sensor.cali_handle ≡ some cali))
deinit_outcome_example = deinit_outcome stubborn set_up refl
