-- ===== src/Session/Turns.antt =====
-- components/sparkplug_node/sparkplug_session.c: every turn of the session is a sequence of the
-- protocol's moves.
use esp32_sparkplug.Prelude.{
  ◌≡◌, refl, ap, Bool, true, false, not, ◌&&◌, Option, none, some, arith, is_some, is_zero, pos,
}
use esp32_sparkplug.Esp.{is_ok}
use esp32_sparkplug.Wifi.Manager.{has_ip, resume_simulated_disconnect}
use esp32_sparkplug.Session.State.{
  Cmd, CmdType, start, stop, sensor_sample, force_publish, force_rebirth, mqtt_connected,
  mqtt_disconnected, mqtt_subscribed, mqtt_rebirth_request, set_disconnect_sim, primary_host_online,
  primary_host_offline, disconnect_sim_interval,
}
use esp32_sparkplug.Session.Status.{refresh_status}
use esp32_sparkplug.Session.Timers.{
  monotonic_ms, schedule_disconnect_sim, schedule_reconnect_attempt, next_wait_ticks,
}
use esp32_sparkplug.Session.Publish.{publish_death}
use esp32_sparkplug.Session.Client.{
  start_client, retry_soon, reconnected, reconnect, retry_client, retry_if_due, wants_reconnect,
  handle_reconnect_transition,
}
use esp32_sparkplug.Session.Frames.{resume_simulated_disconnect-session}
use esp32_sparkplug.Session.Publications.{wire}
use esp32_sparkplug.Session.Heard.{heard-notify}
use esp32_sparkplug.Session.Protocol.{Move, Moves, Silent, publish_death-Move}
use esp32_sparkplug.Session.Opening.{branch_rule}
use esp32_sparkplug.Session.Handler.{
  handle_start, handle_stop, handle_rebirth, handle_connected, handle_subscribed,
  handle_disconnected, handle_host_online, handle_host_offline, host_gone, retry_later, dispatch,
  handle_command, handle_timeout, handle_received, task_round,
}
use esp32_sparkplug.Session.Quiet.{
  IsQuiet, quietly, refresh_status-IsQuiet, resume-heard, schedule_disconnect_sim-IsQuiet,
  schedule_reconnect_attempt-IsQuiet, set_disconnect_sim-IsQuiet, disconnect_sim_transition-IsQuiet,
  store_sample-IsQuiet,
}
use esp32_sparkplug.Session.Refinement.{stay, destroy_client-Moves, maybe_publish-Moves}
use esp32_sparkplug.Session.Connection.{start_client-Moves}
use esp32_sparkplug.Platform.{Env, Machine, Act, when, ignore, pure}

module _ (env : Env) where
  quiet : {m n : Machine} → wire n.session ≡ wire m.session → Silent env m n → Moves env m n
  quiet e f = quietly env (record { same_wire = e; silent = f })

  retry_soon-Moves : (m : Machine) → Moves env m (retry_soon env m).1
  unfolding retry_soon
  retry_soon-Moves m = quiet refl refl

  reconnect-Moves : (m : Machine) → Moves env m (reconnect env m).1
  reconnect-Moves m =
      branch_rule (Moves env m) (is_ok (start_client env m).0) (reconnected env) (retry_soon env)
        (start_client env m).1 (λ _. Moves.then (start_client-Moves env m) (quiet refl refl))
        (λ _. Moves.then (start_client-Moves env m) (retry_soon-Moves (start_client env m).1))

  retry_if_due-Moves : (m : Machine) → Moves env m (retry_if_due env m).1
  unfolding monotonic_ms has_ip
  retry_if_due-Moves m =
      branch_rule (Moves env m) _ (pure tt) (retry_client env) asked (λ _. quiet refl refl)
        λ _.
          branch_rule (Moves env m) m.wifi.has_ip (reconnect env) (retry_soon env) asked
            (λ _. Moves.then (quiet refl refl) (reconnect-Moves asked))
            (λ _. Moves.then (quiet refl refl) (retry_soon-Moves asked))
    where
      asked : Machine
      asked = (monotonic_ms env m).1

  reconnect_transition-Moves : (m : Machine) → Moves env m (handle_reconnect_transition env m).1
  unfolding handle_reconnect_transition
  reconnect_transition-Moves m =
      branch_rule (Moves env m) (wants_reconnect env m.session) (retry_if_due env) (pure tt) m
        (λ _. retry_if_due-Moves m) (λ _. stay env m)

  handle_start-Moves : (m : Machine) → Moves env m (handle_start env m).1
  unfolding handle_start
  handle_start-Moves m =
      branch_rule (Moves env m) (not (is_some (when wanted schedule enabled).1.session.client))
        (ignore (start_client env)) (pure tt) (when wanted schedule enabled).1
        (λ _. Moves.then scheduled (start_client-Moves env (when wanted schedule enabled).1))
        (λ _. scheduled)
    where
      enabled : Machine
      enabled = record m { session = record m.session { reconnect_enabled = true } }

      wanted : Bool
      wanted =
          m.session.disconnect_sim_enabled && is_zero m.session.disconnect_sim_next_transition_ms

      schedule : Act (Unit {0})
      schedule = schedule_disconnect_sim env disconnect_sim_interval

      scheduled : Moves env m (when wanted schedule enabled).1
      scheduled =
          branch_rule (Moves env m) wanted schedule (pure tt) enabled
            (λ _.
              Moves.then (quiet refl refl)
                (quietly env (schedule_disconnect_sim-IsQuiet env disconnect_sim_interval enabled)))
            (λ _. quiet refl refl)

  -- An NDEATH if there is a connection.
  when_death-Moves :
      (b : Bool) (m : Machine) → Moves env m (when b (ignore (publish_death env)) m).1
  when_death-Moves true m = Moves.one (publish_death-Move env m)
  when_death-Moves false m = stay env m

  resumed-IsQuiet : (m : Machine) → IsQuiet env m (resume_simulated_disconnect env m).1
  resumed-IsQuiet m = record {
    same_wire = ap wire (resume_simulated_disconnect-session env m);
    silent = resume-heard env m;
  }

  abbrev stop_sim : Act (Unit {0})
  stop_sim m = (
    tt,
    record (resume_simulated_disconnect env m).1 {
      session = record (resume_simulated_disconnect env m).1.session {
        disconnect_sim_active = false;
      };
    },
  )

  handle_stop-Moves : (m : Machine) → Moves env m (handle_stop env m).1
  unfolding handle_stop
  handle_stop-Moves m =
      Moves.then (Moves.then resumed (when_death-Moves _ _)) (destroy_client-Moves env _)
    where
      disabled : Machine
      disabled = record m {
        session = record m.session {
          reconnect_enabled = false;
          reconnect_attempt_due_ms = pos 0;
          disconnect_sim_next_transition_ms = pos 0;
        };
      }

      resumed : Moves env m (when m.session.disconnect_sim_active stop_sim disabled).1
      resumed =
          branch_rule (Moves env m) m.session.disconnect_sim_active stop_sim (pure tt) disabled
            (λ _.
              Moves.then (quiet refl refl)
                (Moves.then (quietly env (resumed-IsQuiet disabled)) (quiet refl refl)))
            (λ _. quiet refl refl)

  refreshed : (m : Machine) → Moves env m (refresh_status m).1
  refreshed m = quietly env (refresh_status-IsQuiet env m)

  handle_rebirth-Moves : (m : Machine) → Moves env m (handle_rebirth env m).1
  unfolding handle_rebirth
  handle_rebirth-Moves m =
      Moves.then (Moves.then (quiet refl refl) (refreshed _)) (maybe_publish-Moves env false _)

  handle_connected-Moves : (m : Machine) → Moves env m (handle_connected env m).1
  unfolding handle_connected refresh_status
  handle_connected-Moves m = quiet (ground arith) (grind (arith, heard-notify))

  handle_subscribed-Moves : (m : Machine) → Moves env m (handle_subscribed env m).1
  unfolding handle_subscribed
  handle_subscribed-Moves m =
      Moves.then (Moves.then (quiet refl refl) (refreshed _)) (maybe_publish-Moves env false _)

  handle_host_online-Moves : (m : Machine) → Moves env m (handle_host_online env m).1
  unfolding handle_host_online
  handle_host_online-Moves m =
      Moves.then (Moves.then (quiet refl refl) (refreshed _)) (maybe_publish-Moves env false _)

  retry_later-Moves : (m : Machine) → Moves env m (retry_later env m).1
  retry_later-Moves m =
      branch_rule (Moves env m) m.session.reconnect_enabled (schedule_reconnect_attempt env 1000)
        (pure tt) m (λ _. quietly env (schedule_reconnect_attempt-IsQuiet env 1000 m))
        (λ _. stay env m)

  handle_disconnected-Moves : (m : Machine) → Moves env m (handle_disconnected env m).1
  unfolding handle_disconnected
  handle_disconnected-Moves m =
      Moves.then (Moves.then (Moves.one (Move.drops refl refl)) (destroy_client-Moves env _))
        (retry_later-Moves _)

  host_gone-Moves : (m : Machine) → Moves env m (host_gone env m).1
  unfolding host_gone
  host_gone-Moves m =
      Moves.then
        (Moves.then
          (Moves.then (quiet {n = offline} refl refl)
            (when_death-Moves m.session.mqtt_connected offline))
          (destroy_client-Moves env _))
        (retry_later-Moves _)
    where
      offline : Machine
      offline = record m { session = record m.session { primary_host_online = false } }

  handle_host_offline-Moves : (m : Machine) → Moves env m (handle_host_offline env m).1
  unfolding handle_host_offline
  handle_host_offline-Moves m =
      branch_rule (Moves env m) m.session.primary_host_online (host_gone env) (pure tt) m
        (λ _. host_gone-Moves m) (λ _. stay env m)

  dispatch-Moves : (t : CmdType) (cmd : Cmd) (m : Machine) → Moves env m (dispatch env t cmd m).1
  unfolding dispatch
  dispatch-Moves start cmd m = handle_start-Moves m
  dispatch-Moves stop cmd m = handle_stop-Moves m
  dispatch-Moves sensor_sample cmd m =
      Moves.then (quietly env (store_sample-IsQuiet env cmd.reading cmd.sample_time_ms m))
        (maybe_publish-Moves env false _)
  dispatch-Moves force_publish cmd m = maybe_publish-Moves env true m
  dispatch-Moves force_rebirth cmd m = handle_rebirth-Moves m
  dispatch-Moves mqtt_rebirth_request cmd m = handle_rebirth-Moves m
  dispatch-Moves set_disconnect_sim cmd m =
      quietly env (set_disconnect_sim-IsQuiet env cmd.enabled m)
  dispatch-Moves mqtt_connected cmd m = handle_connected-Moves m
  dispatch-Moves mqtt_subscribed cmd m = handle_subscribed-Moves m
  dispatch-Moves mqtt_disconnected cmd m = handle_disconnected-Moves m
  dispatch-Moves primary_host_online cmd m = handle_host_online-Moves m
  dispatch-Moves primary_host_offline cmd m = handle_host_offline-Moves m

  handle_received-Moves : (r : Option Cmd) (m : Machine) → Moves env m (handle_received env r m).1
  unfolding handle_command handle_timeout
  handle_received-Moves none m =
      Moves.then (reconnect_transition-Moves m)
        (quietly env (disconnect_sim_transition-IsQuiet env (handle_reconnect_transition env m).1))
  handle_received-Moves (some cmd) m =
      Moves.then (dispatch-Moves cmd.type cmd m) (refreshed (dispatch env cmd.type cmd m).1)

  -- One round of the task follows the protocol, whatever the queue hands over.
  pub task_round-Moves : (m : Machine) → Moves env m (task_round env m).1
  unfolding task_round next_wait_ticks monotonic_ms
  task_round-Moves m = Moves.then (quiet refl refl) (handle_received-Moves _ _)
