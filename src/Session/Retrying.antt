-- ===== src/Session/Retrying.antt =====
-- components/sparkplug_node/sparkplug_session.c: where reconnecting comes to a halt.
use esp32_sparkplug.Prelude.{ℕ, ◌≡◌, ◌≢◌, none, ℤ, ◌-ℤ◌, ◌≤ℤ◌, is_zero, true, false, some, arith}
use esp32_sparkplug.Esp.{is_ok}
use esp32_sparkplug.Session.Status.{refresh_status}
use esp32_sparkplug.Session.Timers.{next_wait, sim_pending, wait_ticks}
use esp32_sparkplug.Session.Client.{mqtt_config, open_client, handle_reconnect_transition}
use esp32_sparkplug.Platform.{Env, Machine}

module _ (env : Env) (m : Machine) where
  -- A client that was made and then could not be opened stays, and nothing else changes.
  failed_open-session :
      (b c : ℕ)
      → env.mqtt_client_init m.trace (mqtt_config env m.session) ≡ some c
      → is_ok (open_client env b m).0 ≡ false
      → (open_client env b m).1.session ≡ record m.session { client = some c }
  unfolding open_client refresh_status
  failed_open-session b c made failed = ground arith

module _ (env : Env) (m : Machine) where
  -- With a client there the retry does nothing, and a deadline that has passed keeps the task awake.
  client-blocks :
      (now : ℤ)
      → m.session.client ≢ none
      → m.session.reconnect_enabled ≡ true
      → is_zero m.session.reconnect_attempt_due_ms ≡ false
      → m.session.reconnect_attempt_due_ms ≤ℤ now
      → sim_pending env m.session ≡ false
      → ((handle_reconnect_transition env m).1 ≡ m) × (next_wait env m.session now ≡ 0)
  unfolding handle_reconnect_transition next_wait wait_ticks ◌-ℤ◌
  client-blocks now c on due past sim = ground arith

module _ (env : Env) (m : Machine) where
  -- Where `esp_mqtt_client_init` gives a client and opening it fails after that, the client stays.
  -- The retry then does nothing, and the task does not sleep once a deadline for a reconnect has
  -- passed, if the session is on and no simulated transition is pending.
  pub failed_start_blocks :
      (b c : ℕ) (now : ℤ)
      → env.mqtt_client_init m.trace (mqtt_config env m.session) ≡ some c
      → is_ok (open_client env b m).0 ≡ false
      → m.session.reconnect_enabled ≡ true
      → is_zero m.session.reconnect_attempt_due_ms ≡ false
      → m.session.reconnect_attempt_due_ms ≤ℤ now
      → sim_pending env m.session ≡ false
      → ((open_client env b m).1.session.client ≡ some c)
        × ((handle_reconnect_transition env (open_client env b m).1).1 ≡ (open_client env b m).1)
        × (next_wait env (open_client env b m).1.session now ≡ 0)
  failed_start_blocks b c now made failed on due past sim =
      let left = failed_open-session env m b c made failed in
      let blocked = client-blocks env (open_client env b m).1 now in grind arith
