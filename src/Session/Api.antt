-- ===== src/Session/Api.antt =====
-- components/sparkplug_node/sparkplug_session.c: the functions that the rest of the firmware calls.
-- Each one queues a command for the session's task.
use esp32_sparkplug.Prelude.{
  ℤ, pos, Bool, true, false, Option, none, some, [], is_some, if◌then◌else◌,
}
use esp32_sparkplug.Esp.{
  EspErr, esp_ok, err_no_mem, err_invalid_arg, err_invalid_state, err_timeout,
}
use esp32_sparkplug.Sensor.{SensorReading}
use esp32_sparkplug.Session.State.{
  Cmd, SessionStatus, start, stop, sensor_sample, force_publish, force_rebirth, set_disconnect_sim,
}
use esp32_sparkplug.Session.Status.{queue_command, refresh_status, set_last_message}
use esp32_sparkplug.Session.Client.{prepare_topics}
use esp32_sparkplug.Session.Events.{plain_cmd}
use esp32_sparkplug.Platform.{
  Env, Act, Call, ◌>>=◌, ◌>>◌, pure, ask, perform, get_session, modify_session, on_ok,
}

-- `memset(&s_state.status_snapshot, 0, …)`.
abbrev pub zero_status : SessionStatus
zero_status = record {
  mqtt_configured = false;
  mqtt_started = false;
  mqtt_connected = false;
  ncmd_subscribed = false;
  session_active = false;
  birth_complete = false;
  rebirth_pending = false;
  has_temperature = false;
  disconnect_sim_enabled = false;
  disconnect_sim_active = false;
  primary_host_configured = false;
  primary_host_online = false;
  disconnect_sim_interval_ms = 0;
  disconnect_sim_duration_ms = 0;
  mqtt_reconnect_count = 0;
  bdseq = 0;
  seq = 0;
  last_temperature_c = 0;
  last_sample_ms = pos 0;
  last_publish_ms = pos 0;
  last_message = [];
}

module _ (env : Env) where
  -- The end of `sparkplug_session_init`, once the queue and the task are there.
  unfoldable pub finish_init : Act EspErr
  finish_init = do
    modify_session (λ s. record s {
      initialized = true;
      disconnect_sim_enabled = true;
      status_snapshot = zero_status;
    })
    set_last_message []
    refresh_status
    prepare_topics env

  abbrev pub create_task : Act EspErr
  create_task = do
    created ← ask Call.task_create env.task_create
    if created then finish_init else (do
      perform Call.queue_delete
      modify_session (λ s. record s { queue = none })
      pure err_no_mem)

  abbrev pub create_queue : Act EspErr
  create_queue = do
    queue ← ask Call.queue_create env.queue_create
    modify_session (λ s. record s { queue = queue })
    if is_some queue then create_task else pure err_no_mem

  unfoldable pub init : Act EspErr
  init = do s ← get_session; if s.initialized then pure esp_ok else create_queue

  -- `… ? ESP_OK : ESP_ERR_TIMEOUT`, with a wait of 100 ms for room in the queue.
  unfoldable pub queue_or_timeout : Cmd → Act EspErr
  queue_or_timeout cmd = do
    sent ← queue_command env cmd (env.pd_ms_to_ticks 100)
    pure (if sent then esp_ok else err_timeout)

  -- The calls that want an initialised session.
  abbrev pub if_initialized : EspErr → Act EspErr → Act EspErr
  if_initialized refusal act = do s ← get_session; if s.initialized then act else pure refusal

  unfoldable pub session_start : Act EspErr
  session_start = on_ok init (queue_or_timeout (plain_cmd start))

  unfoldable pub session_stop : Act EspErr
  session_stop = if_initialized esp_ok (queue_or_timeout (plain_cmd stop))

  unfoldable pub submit_temperature : Option SensorReading → ℤ → Act EspErr
  submit_temperature none sample_time_ms = pure err_invalid_arg
  submit_temperature (some reading) sample_time_ms = if_initialized err_invalid_state (
      queue_or_timeout
        (record (plain_cmd sensor_sample) { reading = reading; sample_time_ms = sample_time_ms }))

  unfoldable pub request_publish : Act EspErr
  request_publish = if_initialized err_invalid_state (queue_or_timeout (plain_cmd force_publish))

  unfoldable pub request_rebirth : Act EspErr
  request_rebirth = if_initialized err_invalid_state (queue_or_timeout (plain_cmd force_rebirth))

  unfoldable pub set_disconnect_sim_enabled : Bool → Act EspErr
  set_disconnect_sim_enabled enabled =
      if_initialized err_invalid_state
        (queue_or_timeout (record (plain_cmd set_disconnect_sim) { enabled = enabled }))
