-- ===== src/Session/Handler.antt =====
-- components/sparkplug_node/sparkplug_session.c: what the session's task does with a command, and
-- one round of its loop.
use esp32_sparkplug.Prelude.{
  ◌+◌, ◌%◌, ◌^◌, pos, is_zero, Bool, true, false, not, ◌&&◌, Option, none, some, is_some,
  if◌then◌else◌,
}
use esp32_sparkplug.Session.State.{
  Session, Cmd, CmdType, start, stop, sensor_sample, force_publish, force_rebirth, mqtt_connected,
  mqtt_disconnected, mqtt_subscribed, mqtt_rebirth_request, set_disconnect_sim, primary_host_online,
  primary_host_offline, disconnect_sim_interval,
}
use esp32_sparkplug.Session.Status.{refresh_status}
use esp32_sparkplug.Session.Timers.{
  schedule_disconnect_sim, schedule_reconnect_attempt, set_disconnect_sim_enabled_internal,
  handle_disconnect_sim_transition, next_wait_ticks,
}
use esp32_sparkplug.Session.Publish.{
  store_sample, should_publish, publish_birth, publish_data, publish_death,
}
use esp32_sparkplug.Session.Client.{
  primary_host_ready, destroy_client, start_client, handle_reconnect_transition,
}
use esp32_sparkplug.Wifi.Manager.{resume_simulated_disconnect}
use esp32_sparkplug.Platform.{
  Env, Act, Call, ◌>>=◌, ◌>>◌, ask, get_session, modify_session, when, ignore,
}

-- The session may publish an NBIRTH.
abbrev pub can_birth : Session → Bool
can_birth s = s.mqtt_connected && s.ncmd_subscribed && s.has_temperature && primary_host_ready s

-- The fields that the end of a connection clears.
abbrev pub lose_connection : Session → Session
lose_connection s = record s {
  mqtt_connected = false;
  ncmd_subscribed = false;
  state_subscribed = false;
  primary_host_online = false;
  birth_complete = false;
  session_active = false;
  mqtt_reconnect_count = (s.mqtt_reconnect_count + 1) % 2 ^ 32;
}

module _ (env : Env) where
  abbrev pub publish_if_due : Bool → Act (Unit {0})
  publish_if_due force = do due ← should_publish env force; when due (ignore (publish_data env))

  unfoldable pub maybe_publish_after_sample : Bool → Act (Unit {0})
  maybe_publish_after_sample force = do
    s ← get_session
    if not s.birth_complete && can_birth s
        then ignore (publish_birth env)
        else if s.rebirth_pending && can_birth s
        then ignore (publish_birth env)
        else publish_if_due force

  unfoldable pub handle_start : Act (Unit {0})
  handle_start = do
    modify_session (λ s. record s { reconnect_enabled = true })
    s ← get_session
    when (s.disconnect_sim_enabled && is_zero s.disconnect_sim_next_transition_ms)
        (schedule_disconnect_sim env disconnect_sim_interval)
    s ← get_session
    when (not (is_some s.client)) (ignore (start_client env))

  unfoldable pub handle_stop : Act (Unit {0})
  handle_stop = do
    modify_session (λ s. record s {
      reconnect_enabled = false;
      reconnect_attempt_due_ms = pos 0;
      disconnect_sim_next_transition_ms = pos 0;
    })
    s ← get_session
    when s.disconnect_sim_active (
        ignore (resume_simulated_disconnect env)
        >> modify_session (λ s. record s { disconnect_sim_active = false }))
    s ← get_session
    when s.mqtt_connected (ignore (publish_death env))
    destroy_client env

  unfoldable pub handle_rebirth : Act (Unit {0})
  handle_rebirth = do
    modify_session (λ s. record s { rebirth_pending = true })
    refresh_status
    maybe_publish_after_sample false

  unfoldable pub handle_connected : Act (Unit {0})
  handle_connected = do
    modify_session (λ s. record s { mqtt_connected = true; session_active = true })
    s ← get_session
    ncmd_id ←
        ask (Call.mqtt_client_subscribe s.client s.topic_ncmd)
          (λ t. env.mqtt_client_subscribe t s.client s.topic_ncmd)
    modify_session (λ s. record s { ncmd_subscribe_msg_id = ncmd_id })
    refresh_status
    s ← get_session
    when s.primary_host_configured (do
      state_id ←
          ask (Call.mqtt_client_subscribe s.client s.topic_state)
            (λ t. env.mqtt_client_subscribe t s.client s.topic_state)
      modify_session (λ s. record s { state_subscribe_msg_id = state_id }))

  unfoldable pub handle_subscribed : Act (Unit {0})
  handle_subscribed = do
    modify_session (λ s. record s {
      ncmd_subscribed = true;
      state_subscribed = if s.primary_host_configured then true else s.state_subscribed;
    })
    refresh_status
    maybe_publish_after_sample false

  abbrev pub retry_later : Act (Unit {0})
  retry_later = do s ← get_session; when s.reconnect_enabled (schedule_reconnect_attempt env 1000)

  unfoldable pub handle_disconnected : Act (Unit {0})
  handle_disconnected = do modify_session lose_connection; destroy_client env; retry_later

  unfoldable pub handle_host_online : Act (Unit {0})
  handle_host_online = do
    modify_session (λ s. record s { primary_host_online = true })
    refresh_status
    maybe_publish_after_sample false

  unfoldable pub host_gone : Act (Unit {0})
  host_gone = do
    modify_session (λ s. record s { primary_host_online = false })
    s ← get_session
    when s.mqtt_connected (ignore (publish_death env))
    destroy_client env
    retry_later

  unfoldable pub handle_host_offline : Act (Unit {0})
  handle_host_offline = do s ← get_session; when s.primary_host_online host_gone

  -- The `switch` of `handle_command`.
  unfoldable pub dispatch : CmdType → Cmd → Act (Unit {0})
  dispatch start cmd = handle_start
  dispatch stop cmd = handle_stop
  dispatch sensor_sample cmd = do
    store_sample env cmd.reading cmd.sample_time_ms
    maybe_publish_after_sample false
  dispatch force_publish cmd = maybe_publish_after_sample true
  dispatch force_rebirth cmd = handle_rebirth
  dispatch mqtt_rebirth_request cmd = handle_rebirth
  dispatch set_disconnect_sim cmd = set_disconnect_sim_enabled_internal env cmd.enabled
  dispatch mqtt_connected cmd = handle_connected
  dispatch mqtt_subscribed cmd = handle_subscribed
  dispatch mqtt_disconnected cmd = handle_disconnected
  dispatch primary_host_online cmd = handle_host_online
  dispatch primary_host_offline cmd = handle_host_offline

  unfoldable pub handle_command : Cmd → Act (Unit {0})
  handle_command cmd = do dispatch cmd.type cmd; refresh_status

  unfoldable pub handle_timeout : Act (Unit {0})
  handle_timeout = do handle_reconnect_transition env; handle_disconnect_sim_transition env

  abbrev pub handle_received : Option Cmd → Act (Unit {0})
  handle_received none = handle_timeout
  handle_received (some cmd) = handle_command cmd

  -- One round of the loop in `sparkplug_session_task`.
  unfoldable pub task_round : Act (Unit {0})
  task_round = do
    ticks ← next_wait_ticks env
    received ← ask (Call.queue_receive ticks) (λ t. env.queue_receive t ticks)
    handle_received received
