-- ===== src/App/Sampling.antt =====
-- main/app_main.c: the sensor snapshot and the sensor task.
use esp32_sparkplug.Prelude.{ℤ, false, Option, none, some}
use esp32_sparkplug.Esp.{EspErr, Pointer}
use esp32_sparkplug.Device.{DeviceCall}
use esp32_sparkplug.TimeSync.{now_ms}
use esp32_sparkplug.Sensor.{SensorReading}
use esp32_sparkplug.Sensor.Tmp36.{zero_reading, read}
use esp32_sparkplug.Session.Api.{submit_temperature}
use esp32_sparkplug.App.State.{SensorSnapshot}
use esp32_sparkplug.App.Callback.{on_session}
use esp32_sparkplug.Board.{
  Devices, BoardAct, ◌>>=◌, ◌>>◌, pure, perform, modify_app, ignore, on_node,
}

-- What is stored of a reading, which may be NULL.
abbrev pub snapshot_of : Option SensorReading → ℤ → SensorSnapshot
snapshot_of none sample_time_ms = record {
  valid = false;
  reading = zero_reading;
  sample_time_ms = sample_time_ms;
}
snapshot_of (some reading) sample_time_ms = record {
  valid = reading.valid;
  reading = reading;
  sample_time_ms = sample_time_ms;
}

unfoldable pub store_sensor_snapshot : Option SensorReading → ℤ → BoardAct (Unit {0})
store_sensor_snapshot reading sample_time_ms =
    modify_app (λ s. record s { snapshot = snapshot_of reading sample_time_ms })

module _ (dev : Devices) where
  -- A reading that succeeded is stored and submitted with its time.
  abbrev pub pass_on : SensorReading → BoardAct (Unit {0})
  pass_on reading = do
    sample_time_ms ← on_node (now_ms dev.env)
    store_sensor_snapshot (some reading) sample_time_ms
    ignore (on_session (submit_temperature dev.env (some reading) sample_time_ms))

  abbrev pub pass_on_if_read : EspErr × Option SensorReading → BoardAct (Unit {0})
  pass_on_if_read (err, none) = pure tt
  pass_on_if_read (err, some reading) = pass_on reading

  -- One round of `app_sensor_task`.
  unfoldable pub sensor_round : BoardAct (Unit {0})
  unfolding store_sensor_snapshot
  sensor_round = do r ← read dev Pointer.valid; pass_on_if_read r; perform DeviceCall.delay_until
