-- ===== src/App/NodeStage.antt =====
-- main/app_main.c: the sensor, the session and the console in the start of the firmware.
use esp32_sparkplug.Prelude.{ℕ, zero, suc, ◌≡◌, ℤ, true, Option, none, some, is_some, ◌∷◌, arith}
use esp32_sparkplug.Esp.{EspErr, is_ok}
use esp32_sparkplug.TimeSync.{now_ms}
use esp32_sparkplug.Sensor.{SensorReading}
use esp32_sparkplug.Sensor.Tmp36
use esp32_sparkplug.Session.Api
use esp32_sparkplug.App.Callback.{status_update, on_session}
use esp32_sparkplug.Session.State.{Cmd, start, sensor_sample}
use esp32_sparkplug.Session.Events.{plain_cmd}
use esp32_sparkplug.Node.Topics.{TopicType}
use esp32_sparkplug.Platform.{Act, Machine, Call}
use esp32_sparkplug.Board.{Devices, Board, BoardAct, on_ok, log}
use esp32_sparkplug.Device.{DeviceCall}
use esp32_sparkplug.Esp.{Pointer}
use esp32_sparkplug.Prelude.{◌+ℤ◌}
use esp32_sparkplug.Device.{DeviceCall}
use esp32_sparkplug.Sensor.Tmp36.{
  raw_handle, sum_samples, read_average_raw, create_calibration, read,
}
use esp32_sparkplug.Session.Api.{
  finish_init, create_task, create_queue, queue_or_timeout, session_start, submit_temperature,
}
use esp32_sparkplug.Session.Client.{put_topic, prepare_topic, prepare_topics}
use esp32_sparkplug.Session.Status.{
  set_status_callback, queue_command, refresh_status, set_last_message,
}
use esp32_sparkplug.App.Main.{start_session, start_with, first_reading}
use esp32_sparkplug.App.Sampling.{snapshot_of, store_sensor_snapshot}
use esp32_sparkplug.App.Stages.{Ensures, on_ok-Ensures, Timed, Sensing, Connected}

module _ (dev : Devices) where
  -- The parts of the board that the sensor leaves alone.
  abbrev Beside : Board → Board → Type 0
  Beside b c = (c.config ≡ b.config) × (c.node.wifi ≡ b.node.wifi) × (c.time ≡ b.time)

  create_calibration-Beside : (b : Board) → Beside b (create_calibration dev b).1
  unfolding create_calibration
  create_calibration-Beside b = ground arith

  pub Tmp36_init-Sensing : Ensures Timed Sensing (Tmp36.init dev)
  unfolding Tmp36.init
  Tmp36_init-Sensing b p ok = grind (arith, create_calibration-Beside)

  sum_samples-Beside :
      (n : ℕ) (adc : Option ℕ) (s : ℤ) (b : Board)
      → Beside b (sum_samples dev n adc s b).1 × ((sum_samples dev n adc s b).1.sensor ≡ b.sensor)
  unfolding sum_samples
  sum_samples-Beside zero adc s b = ground arith
  sum_samples-Beside (suc n) adc s b =
      let rest =
        sum_samples-Beside n adc
          (s +ℤ dev.number b.node.trace (DeviceCall.adc_read (raw_handle adc)))
          (log (DeviceCall.adc_read (raw_handle adc)) b) in
      ground arith

  read_average_raw-Beside :
      (b : Board)
      → Beside b (read_average_raw dev b).1
        × ((read_average_raw dev b).1.sensor ≡ b.sensor)
        × (is_ok (read_average_raw dev b).0.0 ≡ is_some (read_average_raw dev b).0.1)
  unfolding read_average_raw
  read_average_raw-Beside b = grind (arith, sum_samples-Beside)

  -- A read that ends with ESP_OK has a reading.
  read-Sensing :
      (b : Board)
      → Sensing b
      → Sensing (read dev Pointer.valid b).1
        × (is_ok (read dev Pointer.valid b).0.0 ≡ is_some (read dev Pointer.valid b).0.1)
  unfolding read
  read-Sensing b p = let r = read_average_raw-Beside b in ground arith

  -- What the session's operations leave alone of its machine.
  abbrev Steady : Machine → Machine → Type 0
  Steady m n = (n.wifi ≡ m.wifi) × (n.session.initialized ≡ m.session.initialized)

  prepare_topic-Steady : (t : TopicType) (m : Machine) → Steady m (prepare_topic dev.env t m).1
  unfolding prepare_topic put_topic
  prepare_topic-Steady t m = ground arith

  prepare_topics-Steady : (m : Machine) → Steady m (prepare_topics dev.env m).1
  unfolding prepare_topics
  prepare_topics-Steady m = grind (arith, prepare_topic-Steady)

  queue_or_timeout-Steady : (cmd : Cmd) (m : Machine) → Steady m (queue_or_timeout dev.env cmd m).1
  unfolding queue_or_timeout queue_command
  queue_or_timeout-Steady cmd m = ground arith

  finish_init-Steady :
      (m : Machine)
      → ((finish_init dev.env m).1.wifi ≡ m.wifi)
        × ((finish_init dev.env m).1.session.initialized ≡ true)
  unfolding finish_init refresh_status set_last_message
  finish_init-Steady m = grind (arith, prepare_topics-Steady)

  create_task-Steady :
      (m : Machine)
      → is_ok (create_task dev.env m).0 ≡ true
      → ((create_task dev.env m).1.wifi ≡ m.wifi)
        × ((create_task dev.env m).1.session.initialized ≡ true)
  create_task-Steady m ok =
      let f = finish_init-Steady (record m { trace = Call.task_create ∷ m.trace }) in ground arith

  create_queue-Steady :
      (m : Machine)
      → is_ok (create_queue dev.env m).0 ≡ true
      → ((create_queue dev.env m).1.wifi ≡ m.wifi)
        × ((create_queue dev.env m).1.session.initialized ≡ true)
  create_queue-Steady m ok =
      let t = create_task-Steady (record m {
        session = record m.session { queue = dev.env.queue_create m.trace };
        trace = Call.queue_create ∷ m.trace;
      }) in
      ground arith

  Api_init-Steady :
      (m : Machine)
      → is_ok (Api.init dev.env m).0 ≡ true
      → ((Api.init dev.env m).1.wifi ≡ m.wifi) × ((Api.init dev.env m).1.session.initialized ≡ true)
  unfolding Api.init
  Api_init-Steady m ok = let q = create_queue-Steady m in ground arith

  Api_init-Connected : Ensures Sensing Connected (on_session (Api.init dev.env))
  unfolding on_session
  Api_init-Connected b p ok = let i = Api_init-Steady b.node ok in ground arith

  -- Calls of an initialised session.
  call-Connected :
      (act : Act EspErr)
      → ((m : Machine) → Steady m (act m).1)
      → Ensures Connected Connected (on_session act)
  unfolding on_session
  call-Connected act steady b p ok = let k = steady b.node in ground arith

  submit-Steady :
      (r : Option SensorReading) (time : ℤ) (m : Machine)
      → Steady m (submit_temperature dev.env r time m).1
  unfolding submit_temperature
  submit-Steady none time m = ground arith
  submit-Steady (some r) time m =
      let q =
        queue_or_timeout-Steady
          (record (plain_cmd sensor_sample) { reading = r; sample_time_ms = time }) m in
      ground arith

  set_status_callback-Steady :
      (f ctx : Option ℕ) (m : Machine) → Steady m (set_status_callback f ctx m).1
  unfolding set_status_callback
  set_status_callback-Steady f ctx m = ground arith

  session_start-Steady :
      (m : Machine) → m.session.initialized ≡ true → Steady m (session_start dev.env m).1
  unfolding session_start Api.init
  session_start-Steady m h = let q = queue_or_timeout-Steady (plain_cmd start) m in ground arith

  session_start-Connected : Ensures Connected Connected (on_session (session_start dev.env))
  unfolding on_session
  session_start-Connected b p ok = let k = session_start-Steady b.node p.1 in ground arith

  start_session-Connected :
      (reading : SensorReading) (time : ℤ)
      → Ensures Sensing Connected (start_session dev reading time)
  start_session-Connected reading time =
      on_ok-Ensures Sensing Connected Connected (on_session (Api.init dev.env)) watch
        Api_init-Connected
        (on_ok-Ensures Connected Connected Connected
          (on_session (set_status_callback (some status_update) none)) submit
          (call-Connected (set_status_callback (some status_update) none)
            (set_status_callback-Steady (some status_update) none))
          (on_ok-Ensures Connected Connected Connected
            (on_session (submit_temperature dev.env (some reading) time))
            (on_session (session_start dev.env))
            (call-Connected (submit_temperature dev.env (some reading) time)
              (submit-Steady (some reading) time))
            session_start-Connected))
    where
      submit : BoardAct EspErr
      submit =
          on_ok (on_session (submit_temperature dev.env (some reading) time))
            (on_session (session_start dev.env))

      watch : BoardAct EspErr
      watch = on_ok (on_session (set_status_callback (some status_update) none)) submit

  -- A reading that succeeded is stored and submitted.
  start_with-Connected :
      (r : EspErr × Option SensorReading)
      → is_ok (r.0) ≡ is_some (r.1)
      → Ensures Sensing Connected (start_with dev r)
  unfolding store_sensor_snapshot now_ms
  start_with-Connected (err, none) k b p ok = ground arith
  start_with-Connected (err, some reading) k b p ok =
      start_session-Connected reading time (stored b) p ok
    where
      time : ℤ
      time = (now_ms dev.env b.node).0

      stored : Board → Board
      stored c = record c {
        node = (now_ms dev.env c.node).1;
        app = record c.app { snapshot = snapshot_of (some reading) time };
      }

  pub first_reading-Connected : Ensures Sensing Connected (first_reading dev)
  first_reading-Connected b p ok =
      let r = read-Sensing b p in
      start_with-Connected (read dev Pointer.valid b).0 r.1 (read dev Pointer.valid b).1 r.0 ok
