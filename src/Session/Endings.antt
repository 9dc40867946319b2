-- ===== src/Session/Endings.antt =====
-- components/sparkplug_node/sparkplug_session.c: how a connection ends, and what is left of it.
use esp32_sparkplug.Prelude.{◌+◌, ◌%◌, ◌^◌, ◌≡◌, pos, ◌+ℤ◌, div_ℤ, true, false, none, arith}
use esp32_sparkplug.Session.State.{Session}
use esp32_sparkplug.TimeSync.{now_ms}
use esp32_sparkplug.Wifi.Manager.{resume_simulated_disconnect}
use esp32_sparkplug.Session.Publish.{publish_death, publish_bytes}
use esp32_sparkplug.Session.Status.{refresh_status, set_last_message}
use esp32_sparkplug.Session.Timers.{schedule_reconnect_attempt, monotonic_ms}
use esp32_sparkplug.Session.Client.{destroy_client}
use esp32_sparkplug.Session.Handler.{
  handle_stop, handle_disconnected, handle_host_offline, host_gone, lose_connection,
}
use esp32_sparkplug.Session.Invariant.{IsUp, publish_death-SameLink}
use esp32_sparkplug.Session.Frames.{resume_simulated_disconnect-session}
use esp32_sparkplug.Platform.{Env, Machine}

-- No client is left, and no birth stands.
pub record IsDown (s : Session) : Type 0 where
  pub no_client : s.client ≡ none
  pub unborn : s.birth_complete ≡ false

module _ (env : Env) (m : Machine) where
  destroy_client-IsDown :
      (n : Machine)
      → IsUp m
      → n.session.client ≡ m.session.client
      → n.session.birth_complete ≡ m.session.birth_complete
      → IsDown (destroy_client env n).1.session
  unfolding destroy_client refresh_status
  destroy_client-IsDown n v c b = ground arith

  -- Ending a simulated disconnect does the same whatever the session holds.
  resume_wifi :
      (s : Session)
      → (resume_simulated_disconnect env (record m { session = s })).1.wifi
        ≡ (resume_simulated_disconnect env m).1.wifi
  unfolding resume_simulated_disconnect
  resume_wifi s = ground arith

  publish_death-wifi : (n : Machine) → (publish_death env n).1.wifi ≡ n.wifi
  unfolding publish_death refresh_status set_last_message now_ms publish_bytes
  publish_death-wifi n = ground arith

  -- Where the invariant holds, STOP leaves no client, no birth and no deadline, reconnecting is off,
  -- and the session counts no simulated disconnect. If it counted one before, the Wi-Fi manager has
  -- been asked to end it, with what that does to its state; if not, the manager is as it was.
  pub handle_stop_ends :
      IsUp m
      → IsDown (handle_stop env m).1.session
        × ((handle_stop env m).1.session.reconnect_enabled ≡ false)
        × ((handle_stop env m).1.session.reconnect_attempt_due_ms ≡ pos 0)
        × ((handle_stop env m).1.session.disconnect_sim_next_transition_ms ≡ pos 0)
        × ((handle_stop env m).1.session.disconnect_sim_active ≡ false)
        × (m.session.disconnect_sim_active ≡ true
            → (handle_stop env m).1.wifi ≡ (resume_simulated_disconnect env m).1.wifi)
        × (m.session.disconnect_sim_active ≡ false → (handle_stop env m).1.wifi ≡ m.wifi)
  unfolding handle_stop destroy_client refresh_status
  handle_stop_ends v = grind (
    arith, publish_death-SameLink, publish_death-wifi, resume_simulated_disconnect-session,
    resume_wifi,
  )

  -- The session as the client is destroyed.
  abbrev pub lost : Machine
  lost = record m { session = lose_connection m.session }

  handle_disconnected-IsDown : IsUp m → IsDown (handle_disconnected env m).1.session
  unfolding handle_disconnected destroy_client refresh_status schedule_reconnect_attempt
      monotonic_ms
  handle_disconnected-IsDown v = ground arith

  -- Where the invariant holds, the end of a connection leaves no client and no birth, the
  -- reconnect counter is one higher modulo 2^32, and a reconnect is set for a second after the
  -- clock's answer behind `destroy_client` if the session runs.
  pub handle_disconnected_ends :
      IsUp m
      → IsDown (handle_disconnected env m).1.session
        × ((handle_disconnected env m).1.session.mqtt_reconnect_count
            ≡ (m.session.mqtt_reconnect_count + 1) % 2 ^ 32)
        × ((handle_disconnected env m).1.session.reconnect_enabled ≡ m.session.reconnect_enabled)
        × (m.session.reconnect_enabled ≡ true
            → (handle_disconnected env m).1.session.reconnect_attempt_due_ms
              ≡ div_ℤ (env.esp_timer_get_time (destroy_client env lost).1.trace) 1000 +ℤ pos 1000)
  unfolding handle_disconnected destroy_client refresh_status schedule_reconnect_attempt
      monotonic_ms
  handle_disconnected_ends v =
      (handle_disconnected-IsDown v, ground arith, ground arith, λ on. ground arith)

  -- Where the invariant holds, a primary host that goes offline leaves no client and no birth; one
  -- that was not online before changes nothing.
  pub handle_host_offline_ends :
      IsUp m
      → (m.session.primary_host_online ≡ true → IsDown (handle_host_offline env m).1.session)
        × (m.session.primary_host_online ≡ false → (handle_host_offline env m).1 ≡ m)
  unfolding handle_host_offline host_gone destroy_client refresh_status schedule_reconnect_attempt
      monotonic_ms
  handle_host_offline_ends v = grind (arith, publish_death-SameLink)
