-- ===== src/Session/Quiet.antt =====
-- components/sparkplug_node/sparkplug_session.c: the calls in which the host sees no difference.
use esp32_sparkplug.Prelude.{ℕ, ℤ, ◌≡◌, Bool, true, arith}
use esp32_sparkplug.Sensor.{SensorReading}
use esp32_sparkplug.TimeSync.{now_ms}
use esp32_sparkplug.Wifi.Manager.{simulate_disconnect, resume_simulated_disconnect}
use esp32_sparkplug.Session.Status.{refresh_status}
use esp32_sparkplug.Session.Timers.{
  monotonic_ms, schedule_disconnect_sim, schedule_reconnect_attempt,
  set_disconnect_sim_enabled_internal, handle_disconnect_sim_transition,
}
use esp32_sparkplug.Session.Publish.{store_sample, should_publish, should_publish_at}
use esp32_sparkplug.Session.Frames.{
  resume_simulated_disconnect-session, simulate_disconnect-session,
}
use esp32_sparkplug.Session.Publications.{wire}
use esp32_sparkplug.Session.Heard.{heard, heard-notify}
use esp32_sparkplug.Session.Protocol.{Move, Moves}
use esp32_sparkplug.Platform.{Env, Machine}

-- The host sees no difference.
pub record IsQuiet (env : Env) (m n : Machine) : Type 0 where
  pub same_wire : wire n.session ≡ wire m.session
  pub silent : heard env n.trace ≡ heard env m.trace

module _ (env : Env) where
  pub quietly : {m n : Machine} → IsQuiet env m n → Moves env m n
  quietly q = Moves.one (Move.quiet q.same_wire q.silent)

  pub refresh_status-IsQuiet : (m : Machine) → IsQuiet env m (refresh_status m).1
  unfolding refresh_status
  refresh_status-IsQuiet m = grind (arith, heard-notify)

  pub monotonic_ms-IsQuiet : (m : Machine) → IsQuiet env m (monotonic_ms env m).1
  unfolding monotonic_ms
  monotonic_ms-IsQuiet m = ground arith

  pub resume-heard :
      (m : Machine) → heard env (resume_simulated_disconnect env m).1.trace ≡ heard env m.trace
  unfolding resume_simulated_disconnect
  resume-heard m = ground arith

  pub simulate-heard :
      (d : ℕ) (m : Machine) → heard env (simulate_disconnect env d m).1.trace ≡ heard env m.trace
  unfolding simulate_disconnect
  simulate-heard d m = ground arith

  pub schedule_disconnect_sim-IsQuiet :
      (d : ℕ) (m : Machine) → IsQuiet env m (schedule_disconnect_sim env d m).1
  unfolding schedule_disconnect_sim monotonic_ms
  schedule_disconnect_sim-IsQuiet d m = ground arith

  pub schedule_reconnect_attempt-IsQuiet :
      (d : ℕ) (m : Machine) → IsQuiet env m (schedule_reconnect_attempt env d m).1
  unfolding schedule_reconnect_attempt monotonic_ms
  schedule_reconnect_attempt-IsQuiet d m = ground arith

  pub set_disconnect_sim-IsQuiet :
      (b : Bool) (m : Machine) → IsQuiet env m (set_disconnect_sim_enabled_internal env b m).1
  unfolding set_disconnect_sim_enabled_internal refresh_status schedule_disconnect_sim monotonic_ms
  set_disconnect_sim-IsQuiet b m =
      grind (arith, resume_simulated_disconnect-session, resume-heard, heard-notify)

  pub disconnect_sim_transition-IsQuiet :
      (m : Machine) → IsQuiet env m (handle_disconnect_sim_transition env m).1
  unfolding handle_disconnect_sim_transition refresh_status schedule_disconnect_sim monotonic_ms
  disconnect_sim_transition-IsQuiet m =
      grind (arith, simulate_disconnect-session, simulate-heard, heard-notify)

  pub store_sample-IsQuiet :
      (r : SensorReading) (t : ℤ) (m : Machine) → IsQuiet env m (store_sample env r t m).1
  unfolding store_sample refresh_status
  store_sample-IsQuiet r t m = grind (arith, heard-notify)

  pub should_publish-IsQuiet :
      (force : Bool) (m : Machine) → IsQuiet env m (should_publish env force m).1
  unfolding should_publish now_ms
  should_publish-IsQuiet force m = ground arith

  -- NDATA is due only for a born node.
  pub should_publish-born :
      (force : Bool) (m : Machine)
      → (should_publish env force m).0 ≡ true
      → m.session.birth_complete ≡ true
  unfolding should_publish should_publish_at now_ms
  should_publish-born force m h = ground arith
