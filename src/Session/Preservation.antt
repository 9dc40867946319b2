-- ===== src/Session/Preservation.antt =====
-- components/sparkplug_node/sparkplug_session.c: every command, timeout and round of the session's
-- task keeps the invariant.
use esp32_sparkplug.Prelude.{
  Bool, true, false, Option, none, some, arith, ◌&&◌, not, is_some, is_zero,
}
use esp32_sparkplug.Session.State.{
  Session, Cmd, CmdType, start, stop, sensor_sample, force_publish, force_rebirth, mqtt_connected,
  mqtt_disconnected, mqtt_subscribed, mqtt_rebirth_request, set_disconnect_sim, primary_host_online,
  primary_host_offline, disconnect_sim_interval,
}
use esp32_sparkplug.Session.Status.{refresh_status}
use esp32_sparkplug.Session.Timers.{monotonic_ms, next_wait_ticks, schedule_disconnect_sim}
use esp32_sparkplug.Session.Client.{start_client, handle_reconnect_transition}
use esp32_sparkplug.Session.Handler.{
  handle_start, handle_stop, handle_rebirth, handle_connected, handle_subscribed,
  handle_disconnected, handle_host_online, handle_host_offline, dispatch, handle_command,
  handle_timeout, handle_received, task_round, host_gone, retry_later, lose_connection,
}
use esp32_sparkplug.Session.Frames.{resume_simulated_disconnect-session}
use esp32_sparkplug.Session.Invariant.{
  IsUp, Inv, refresh_status-Inv, schedule_reconnect_attempt-Inv,
  set_disconnect_sim_enabled_internal-Inv, handle_disconnect_sim_transition-Inv, store_sample-Inv,
  publish_death-Inv, destroy_client-Inv, SameLink, publish_death-SameLink,
  destroy_client-Inv_orphan, maybe_publish_after_sample-Inv,
}
use esp32_sparkplug.Session.Opening.{
  IsRunning, branch_rule, start_client-IsRunning, handle_reconnect_transition-Inv,
}
use esp32_sparkplug.Platform.{Env, Machine, Act, when, ignore, pure}
use esp32_sparkplug.Session.Publish.{publish_death}

module _ (env : Env) where
  schedule_disconnect_sim-IsRunning :
      (m : Machine)
      → IsRunning m
      → IsRunning (schedule_disconnect_sim env disconnect_sim_interval m).1
  unfolding schedule_disconnect_sim monotonic_ms
  schedule_disconnect_sim-IsRunning m v = ground arith

  handle_start-Inv : (m : Machine) → IsUp m → IsUp (handle_start env m).1
  unfolding handle_start
  handle_start-Inv m v =
      branch_rule IsUp (not (is_some (plan enabled).1.session.client)) (ignore (start_client env))
        (pure tt) (plan enabled).1
        (λ absent. (start_client-IsRunning env (plan enabled).1 planned (ground arith)).up)
        (λ _. planned.up)
    where
      enabled : Machine
      enabled = record m { session = record m.session { reconnect_enabled = true } }

      wanted : Bool
      wanted =
          m.session.disconnect_sim_enabled && is_zero m.session.disconnect_sim_next_transition_ms

      schedule : Act (Unit {0})
      schedule = schedule_disconnect_sim env disconnect_sim_interval

      plan : Act (Unit {0})
      plan = when wanted schedule

      ready : IsRunning enabled
      ready = ground arith

      planned : IsRunning (plan enabled).1
      planned =
          branch_rule IsRunning wanted schedule (pure tt) enabled
            (λ _. schedule_disconnect_sim-IsRunning enabled ready) (λ _. ready)

  handle_stop-Inv : (m : Machine) → IsUp m → IsUp (handle_stop env m).1
  unfolding handle_stop
  handle_stop-Inv m v =
      grind (arith, publish_death-Inv, destroy_client-Inv, resume_simulated_disconnect-session)

  handle_rebirth-Inv : (m : Machine) → IsUp m → IsUp (handle_rebirth env m).1
  unfolding handle_rebirth refresh_status
  handle_rebirth-Inv m v = grind (arith, maybe_publish_after_sample-Inv)

  handle_connected-Inv : (m : Machine) → IsUp m → IsUp (handle_connected env m).1
  unfolding handle_connected refresh_status
  handle_connected-Inv m v = ground arith

  handle_subscribed-Inv : (m : Machine) → IsUp m → IsUp (handle_subscribed env m).1
  unfolding handle_subscribed refresh_status
  handle_subscribed-Inv m v = grind (arith, maybe_publish_after_sample-Inv)

  retry_later-Inv : (m : Machine) → IsUp m → IsUp (retry_later env m).1
  retry_later-Inv m v = ground (arith, schedule_reconnect_attempt-Inv env m 1000 v)

  lose_connection-Inv : (s : Session) → Inv s → Inv (lose_connection s)
  lose_connection-Inv s v = ground arith

  handle_disconnected-Inv : (m : Machine) → IsUp m → IsUp (handle_disconnected env m).1
  unfolding handle_disconnected
  handle_disconnected-Inv m v =
      retry_later-Inv _ (destroy_client-Inv env _ (lose_connection-Inv m.session v))

  handle_host_online-Inv : (m : Machine) → IsUp m → IsUp (handle_host_online env m).1
  unfolding handle_host_online refresh_status
  handle_host_online-Inv m v = grind (arith, maybe_publish_after_sample-Inv)

  when_death-SameLink :
      (m : Machine) (b : Bool)
      → SameLink m.session (when b (ignore (publish_death env)) m).1.session
  when_death-SameLink m true = publish_death-SameLink env m
  when_death-SameLink m false = ground arith

  host_gone-Inv : (m : Machine) → IsUp m → IsUp (host_gone env m).1
  unfolding host_gone
  host_gone-Inv m v =
      retry_later-Inv _
        (destroy_client-Inv_orphan env m _ v (when_death-SameLink _ m.session.mqtt_connected))

  handle_host_offline-Inv : (m : Machine) → IsUp m → IsUp (handle_host_offline env m).1
  unfolding handle_host_offline
  handle_host_offline-Inv m v = ground (arith, host_gone-Inv m v)

  dispatch-Inv : (t : CmdType) (cmd : Cmd) (m : Machine) → IsUp m → IsUp (dispatch env t cmd m).1
  unfolding dispatch
  dispatch-Inv start cmd m v = handle_start-Inv m v
  dispatch-Inv stop cmd m v = handle_stop-Inv m v
  dispatch-Inv sensor_sample cmd m v =
      maybe_publish_after_sample-Inv env _ false
        (store_sample-Inv env m cmd.reading cmd.sample_time_ms v)
  dispatch-Inv force_publish cmd m v = maybe_publish_after_sample-Inv env m true v
  dispatch-Inv force_rebirth cmd m v = handle_rebirth-Inv m v
  dispatch-Inv mqtt_rebirth_request cmd m v = handle_rebirth-Inv m v
  dispatch-Inv set_disconnect_sim cmd m v =
      set_disconnect_sim_enabled_internal-Inv env m cmd.enabled v
  dispatch-Inv mqtt_connected cmd m v = handle_connected-Inv m v
  dispatch-Inv mqtt_subscribed cmd m v = handle_subscribed-Inv m v
  dispatch-Inv mqtt_disconnected cmd m v = handle_disconnected-Inv m v
  dispatch-Inv primary_host_online cmd m v = handle_host_online-Inv m v
  dispatch-Inv primary_host_offline cmd m v = handle_host_offline-Inv m v

  pub handle_command-Inv : (cmd : Cmd) (m : Machine) → IsUp m → IsUp (handle_command env cmd m).1
  unfolding handle_command
  handle_command-Inv cmd m v =
      refresh_status-Inv (dispatch env cmd.type cmd m).1 (dispatch-Inv cmd.type cmd m v)

  pub handle_timeout-Inv : (m : Machine) → IsUp m → IsUp (handle_timeout env m).1
  unfolding handle_timeout
  handle_timeout-Inv m v =
      handle_disconnect_sim_transition-Inv env (handle_reconnect_transition env m).1
        (handle_reconnect_transition-Inv env m v)

  next_wait_ticks-Inv : (m : Machine) → IsUp m → IsUp (next_wait_ticks env m).1
  unfolding next_wait_ticks monotonic_ms
  next_wait_ticks-Inv m v = ground arith

  handle_received-Inv : (r : Option Cmd) (m : Machine) → IsUp m → IsUp (handle_received env r m).1
  handle_received-Inv none m v = handle_timeout-Inv m v
  handle_received-Inv (some cmd) m v = handle_command-Inv cmd m v

  -- One round of the task keeps the invariant, whatever the queue hands over.
  pub task_round-Inv : (m : Machine) → IsUp m → IsUp (task_round env m).1
  unfolding task_round
  task_round-Inv m v = handle_received-Inv _ _ (next_wait_ticks-Inv m v)
