-- ===== src/Session/Invariant.antt =====
-- components/sparkplug_node/sparkplug_session.c: what holds of the session's state between two
-- steps of its task.
use esp32_sparkplug.Prelude.{ℕ, ◌<◌, ◌≡◌, ◌≢◌, pos, Bool, true, false, none, arith}
use esp32_sparkplug.Sensor.{SensorReading}
use esp32_sparkplug.TimeSync.{now_ms}
use esp32_sparkplug.Session.State.{Session}
use esp32_sparkplug.Session.Status.{refresh_status, set_last_message}
use esp32_sparkplug.Session.Timers.{
  monotonic_ms, schedule_disconnect_sim, schedule_reconnect_attempt,
  set_disconnect_sim_enabled_internal, handle_disconnect_sim_transition,
}
use esp32_sparkplug.Session.Publish.{
  store_sample, should_publish, publish_birth, publish_data, publish_death,
}
use esp32_sparkplug.Session.Client.{primary_host_ready, destroy_client}
use esp32_sparkplug.Session.Handler.{can_birth, maybe_publish_after_sample}
use esp32_sparkplug.Session.Frames.{
  publish_encoded-session, publish_encoded-client, simulate_disconnect-session,
  resume_simulated_disconnect-session,
}
use esp32_sparkplug.Platform.{Env, Machine}

pub record Inv (s : Session) : Type 0 where
  -- A birth was sent over a connection that is still there, subscribed and backed by a sample.
  pub born_client : s.birth_complete ≡ true → s.client ≢ none
  pub born_connected : s.birth_complete ≡ true → s.mqtt_connected ≡ true
  pub born_subscribed : s.birth_complete ≡ true → s.ncmd_subscribed ≡ true
  pub born_sampled : s.birth_complete ≡ true → s.has_temperature ≡ true
  pub born_published : s.birth_complete ≡ true → s.has_last_published_temperature ≡ true
  pub born_active : s.birth_complete ≡ true → s.session_active ≡ true
  -- A configured primary host is online while the node is born.
  pub born_hosted :
      s.birth_complete ≡ true → s.primary_host_configured ≡ true → s.primary_host_online ≡ true
  pub started_client : s.mqtt_started ≡ true → s.client ≢ none
  pub seq_byte : s.seq < 256
  pub bdseq_byte : s.bdseq < 256
  -- The simulator acts only while it is on, and no deadline is set in a stopped session.
  pub sim_active_enabled : s.disconnect_sim_active ≡ true → s.disconnect_sim_enabled ≡ true
  pub sim_active_running : s.disconnect_sim_active ≡ true → s.reconnect_enabled ≡ true
  pub stopped_no_reconnect : s.reconnect_enabled ≡ false → s.reconnect_attempt_due_ms ≡ pos 0
  pub stopped_no_sim : s.reconnect_enabled ≡ false → s.disconnect_sim_next_transition_ms ≡ pos 0

abbrev pub IsUp : Machine → Type 0
IsUp m = Inv m.session

pub refresh_status-Inv : (m : Machine) → IsUp m → IsUp (refresh_status m).1
unfolding refresh_status
refresh_status-Inv m v = ground arith

module _ (env : Env) where
  pub monotonic_ms-session : (m : Machine) → (monotonic_ms env m).1.session ≡ m.session
  unfolding monotonic_ms
  monotonic_ms-session m = ground arith

  pub schedule_disconnect_sim-Inv :
      (m : Machine) (d : ℕ) → IsUp m → IsUp (schedule_disconnect_sim env d m).1
  unfolding schedule_disconnect_sim monotonic_ms
  schedule_disconnect_sim-Inv m d v = ground arith

  pub schedule_reconnect_attempt-Inv :
      (m : Machine) (d : ℕ) → IsUp m → IsUp (schedule_reconnect_attempt env d m).1
  unfolding schedule_reconnect_attempt monotonic_ms
  schedule_reconnect_attempt-Inv m d v = ground arith

  pub set_disconnect_sim_enabled_internal-Inv :
      (m : Machine) (enabled : Bool)
      → IsUp m
      → IsUp (set_disconnect_sim_enabled_internal env enabled m).1
  unfolding set_disconnect_sim_enabled_internal refresh_status schedule_disconnect_sim monotonic_ms
  set_disconnect_sim_enabled_internal-Inv m enabled v =
      grind (arith, resume_simulated_disconnect-session)

  pub handle_disconnect_sim_transition-Inv :
      (m : Machine) → IsUp m → IsUp (handle_disconnect_sim_transition env m).1
  unfolding handle_disconnect_sim_transition refresh_status schedule_disconnect_sim monotonic_ms
  handle_disconnect_sim_transition-Inv m v = grind (arith, simulate_disconnect-session)

  pub store_sample-Inv :
      (m : Machine) (r : SensorReading) (t : _) → IsUp m → IsUp (store_sample env r t m).1
  unfolding store_sample refresh_status
  store_sample-Inv m r t v = ground arith

  pub publish_birth-Inv :
      (m : Machine) → can_birth m.session ≡ true → IsUp m → IsUp (publish_birth env m).1
  unfolding publish_birth now_ms refresh_status set_last_message primary_host_ready
  publish_birth-Inv m h v = grind (arith, publish_encoded-session, publish_encoded-client)

  pub publish_data-Inv : (m : Machine) → IsUp m → IsUp (publish_data env m).1
  unfolding publish_data now_ms refresh_status set_last_message
  publish_data-Inv m v = grind (arith, publish_encoded-session)

  pub publish_death-Inv : (m : Machine) → IsUp m → IsUp (publish_death env m).1
  unfolding publish_death now_ms refresh_status set_last_message
  publish_death-Inv m v = grind (arith, publish_encoded-session)

  pub destroy_client-Inv : (m : Machine) → IsUp m → IsUp (destroy_client env m).1
  unfolding destroy_client refresh_status
  destroy_client-Inv m v = ground arith

  pub maybe_publish_after_sample-Inv :
      (m : Machine) (force : Bool) → IsUp m → IsUp (maybe_publish_after_sample env force m).1
  unfolding maybe_publish_after_sample should_publish now_ms
  maybe_publish_after_sample-Inv m force v = grind (arith, publish_birth-Inv, publish_data-Inv)

-- What an explicit NDEATH leaves alone.
pub record SameLink (s t : Session) : Type 0 where
  pub client : t.client ≡ s.client
  pub reconnect_enabled : t.reconnect_enabled ≡ s.reconnect_enabled
  pub mqtt_started : t.mqtt_started ≡ s.mqtt_started
  pub mqtt_connected : t.mqtt_connected ≡ s.mqtt_connected
  pub birth_complete : t.birth_complete ≡ s.birth_complete
  pub primary_host_online : t.primary_host_online ≡ s.primary_host_online
  pub disconnect_sim_enabled : t.disconnect_sim_enabled ≡ s.disconnect_sim_enabled
  pub disconnect_sim_active : t.disconnect_sim_active ≡ s.disconnect_sim_active
  pub seq : t.seq ≡ s.seq
  pub bdseq : t.bdseq ≡ s.bdseq
  pub due : t.reconnect_attempt_due_ms ≡ s.reconnect_attempt_due_ms
  pub sim_due : t.disconnect_sim_next_transition_ms ≡ s.disconnect_sim_next_transition_ms

pub publish_death-SameLink :
    (env : Env) (m : Machine) → SameLink m.session (publish_death env m).1.session
unfolding publish_death now_ms refresh_status set_last_message
publish_death-SameLink env m = grind (arith, publish_encoded-session)

-- A session whose host has gone, once its client is destroyed.
pub destroy_client-Inv_orphan :
    (env : Env) (m n : Machine)
    → IsUp m
    → SameLink (record m.session { primary_host_online = false }) n.session
    → IsUp (destroy_client env n).1
unfolding destroy_client refresh_status
destroy_client-Inv_orphan env m n v same = ground arith
