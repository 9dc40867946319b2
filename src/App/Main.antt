-- ===== src/App/Main.antt =====
-- main/app_main.c: the start of the firmware. A code that is not ESP_OK is one that ESP_ERROR_CHECK
-- aborts with, or `abort`.
use esp32_sparkplug.Prelude.{ℕ, ◌^◌, ◌-◌, ℤ, pos, Option, none, some, if◌then◌else◌}
use esp32_sparkplug.Esp.{EspErr, esp_ok, esp_fail, is_ok, wants_erase, Pointer}
use esp32_sparkplug.Device.{DeviceCall}
use esp32_sparkplug.TimeSync.{now_ms}
use esp32_sparkplug.TimeSync.State.{TimeSyncConfig, default_valid_epoch_sec}
use esp32_sparkplug.TimeSync.Service
use esp32_sparkplug.TimeSync.Wait.{wait_ready}
use esp32_sparkplug.Config.NodeId
use esp32_sparkplug.Sensor.{SensorReading}
use esp32_sparkplug.Sensor.Tmp36
use esp32_sparkplug.Wifi.Manager
use esp32_sparkplug.Wifi.Manager.{wait_connected}
use esp32_sparkplug.Session.Api
use esp32_sparkplug.Session.Api.{session_start, submit_temperature}
use esp32_sparkplug.Session.Status.{set_status_callback}
use esp32_sparkplug.Console.Providers.{set_providers}
use esp32_sparkplug.Console.Repl
use esp32_sparkplug.App.Led.{initialize_status_led}
use esp32_sparkplug.App.Callback.{status_update, on_session}
use esp32_sparkplug.App.Sampling.{store_sensor_snapshot}
use esp32_sparkplug.App.Status.{provider_code, app_providers}
use esp32_sparkplug.Board.{Devices, BoardAct, ◌>>=◌, ◌>>◌, pure, on_node, on_ok, call, bit_of}

-- How `app_main` ends, or that it has not ended yet.
pub data Boot : Type 0 where
  started waiting : Boot
  aborted : EspErr → Boot

module _ (dev : Devices) where
  -- The second `nvs_flash_init`, behind the erasure that the first asked for.
  unfoldable pub initialize_nvs : BoardAct EspErr
  initialize_nvs = do
    err ← call dev DeviceCall.nvs_flash_init
    if wants_erase err
        then on_ok (call dev DeviceCall.nvs_flash_erase) (call dev DeviceCall.nvs_flash_init)
        else pure err

  unfoldable pub initialize_console : BoardAct EspErr
  initialize_console =
      on_ok (Repl.init dev (provider_code dev))
        (on_ok (set_providers (some app_providers)) (Repl.start dev (provider_code dev)))

  -- `xTaskCreate`, and the `abort` behind it.
  abbrev pub create_task : DeviceCall → BoardAct EspErr
  create_task c = do created ← bit_of dev c; pure (if created then esp_ok else esp_fail)

  abbrev pub time_config : TimeSyncConfig
  time_config = record {
    server_name = dev.env.config.time.sntp_server;
    minimum_valid_epoch_sec = pos default_valid_epoch_sec;
  }

  -- Up to `time_sync_start`.
  unfoldable pub bring_up_link : BoardAct EspErr
  bring_up_link = on_ok initialize_nvs (
      on_ok (NodeId.init dev) (
        on_ok (call dev DeviceCall.netif_init) (
          on_ok (call dev DeviceCall.event_loop_create) (
            on_ok (initialize_status_led dev) (
              on_ok (create_task DeviceCall.led_task_create) (
                on_ok (on_node (Manager.init dev.env)) (
                  on_ok (on_node (Manager.start dev.env)) (
                    on_ok (on_node (wait_connected dev.env (2 ^ 32 - 1)))
                      (Service.start dev (some time_config))))))))))

  -- The session from its initialisation to START.
  abbrev pub start_session : SensorReading → ℤ → BoardAct EspErr
  start_session reading sample_time_ms = on_ok (on_session (Api.init dev.env)) (
      on_ok (on_session (set_status_callback (some status_update) none)) (
        on_ok (on_session (submit_temperature dev.env (some reading) sample_time_ms))
          (on_session (session_start dev.env))))

  -- The initial reading, which is stored and submitted.
  abbrev pub start_with : EspErr × Option SensorReading → BoardAct EspErr
  start_with (err, none) = pure err
  start_with (err, some reading) = do
    sample_time_ms ← on_node (now_ms dev.env)
    store_sensor_snapshot (some reading) sample_time_ms
    start_session reading sample_time_ms

  abbrev pub first_reading : BoardAct EspErr
  first_reading = do r ← Tmp36.read dev Pointer.valid; start_with r

  -- From `sensor_tmp36_init` on.
  unfoldable pub bring_up_node : BoardAct EspErr
  unfolding store_sensor_snapshot
  bring_up_node =
      on_ok (Tmp36.init dev)
        (on_ok first_reading (on_ok initialize_console (create_task DeviceCall.sensor_task_create)))

  abbrev pub boot_of : EspErr → Boot
  boot_of err = if is_ok err then Boot.started else Boot.aborted err

  abbrev pub after_wait : Option EspErr → BoardAct Boot
  after_wait none = pure Boot.waiting
  after_wait (some err) =
      if is_ok err then (do last ← bring_up_node; pure (boot_of last)) else pure (Boot.aborted err)

  -- `app_main`, with a bound on the rounds of the wait for the time.
  unfoldable pub app_main : ℕ → BoardAct Boot
  app_main rounds = do
    err ← bring_up_link
    if is_ok err
        then (do
          ready ← wait_ready dev rounds dev.env.config.time.sync_wait_timeout_ms
          after_wait ready)
        else pure (Boot.aborted err)
