-- ===== src/Session/Scenarios.antt =====
-- The theorems about commands, timers and STATE messages at concrete inputs.
use esp32_sparkplug.Prelude.{
  none, ◌+◌, ◌%◌, ◌^◌, ◌≡◌, refl, pos, ◌+ℤ◌, ◌-ℤ◌, ◌≤ℤ◌, ◌<ℤ◌, ◌⊎◌, if◌then◌else◌, div_ℤ, true,
  false, some, [], codes, arith,
}
use esp32_sparkplug.Esp.{esp_fail, is_ok}
use esp32_sparkplug.Wifi.Manager.{resume_simulated_disconnect}
use esp32_sparkplug.Session.State.{primary_host_online, primary_host_offline}
use esp32_sparkplug.Session.Timers.{next_wait, sim_pending, reconnect_pending}
use esp32_sparkplug.Session.Client.{
  destroy_client, open_client, start_client, handle_reconnect_transition,
}
use esp32_sparkplug.Session.Stale.{stale_connected}
use esp32_sparkplug.Session.Handler.{
  handle_connected, handle_stop, handle_disconnected, handle_host_offline,
}
use esp32_sparkplug.Session.Events.{state_fields, parse_state_message}
use esp32_sparkplug.Session.Endings.{
  IsDown, lost, handle_stop_ends, handle_disconnected_ends, handle_host_offline_ends,
}
use esp32_sparkplug.Session.HostState.{
  state_payload, state_fields-state_payload, parse_state_message_written,
}
use esp32_sparkplug.Session.Retrying.{failed_start_blocks}
use esp32_sparkplug.Session.Waiting.{Monotone, IsWithin, next_wait_bound}
use esp32_sparkplug.Session.System.{zero_machine}
use esp32_sparkplug.Session.Examples.{live, live-IsUp}
use esp32_sparkplug.Platform.{Env, Machine}
use esp32_sparkplug.Testbed.{test_env}

handle_stop_ends_example :
    IsDown (handle_stop test_env live).1.session
    × ((handle_stop test_env live).1.session.reconnect_enabled ≡ false)
    × ((handle_stop test_env live).1.session.reconnect_attempt_due_ms ≡ pos 0)
    × ((handle_stop test_env live).1.session.disconnect_sim_next_transition_ms ≡ pos 0)
    × ((handle_stop test_env live).1.session.disconnect_sim_active ≡ false)
    × (live.session.disconnect_sim_active ≡ true
        → (handle_stop test_env live).1.wifi ≡ (resume_simulated_disconnect test_env live).1.wifi)
    × (live.session.disconnect_sim_active ≡ false → (handle_stop test_env live).1.wifi ≡ live.wifi)
handle_stop_ends_example = handle_stop_ends test_env live live-IsUp

handle_disconnected_ends_example :
    IsDown (handle_disconnected test_env live).1.session
    × ((handle_disconnected test_env live).1.session.mqtt_reconnect_count
        ≡ (live.session.mqtt_reconnect_count + 1) % 2 ^ 32)
    × ((handle_disconnected test_env live).1.session.reconnect_enabled
        ≡ live.session.reconnect_enabled)
    × (live.session.reconnect_enabled ≡ true
        → (handle_disconnected test_env live).1.session.reconnect_attempt_due_ms
          ≡ div_ℤ
              (test_env.esp_timer_get_time (destroy_client test_env (lost test_env live)).1.trace)
              1000
            +ℤ pos 1000)
handle_disconnected_ends_example = handle_disconnected_ends test_env live live-IsUp

handle_host_offline_ends_example :
    (live.session.primary_host_online ≡ true → IsDown (handle_host_offline test_env live).1.session)
    × (live.session.primary_host_online ≡ false → (handle_host_offline test_env live).1 ≡ live)
handle_host_offline_ends_example = handle_host_offline_ends test_env live live-IsUp

state_fields-state_payload_example :
    state_fields (state_payload true 1668114759262) (codes "99") ≡ some (true, pos 1668114759262)
state_fields-state_payload_example =
    state_fields-state_payload true 1668114759262 (codes "99") (omega arith)

parse_state_message_written_example :
    (pos 0 ≤ℤ live.session.primary_host_last_timestamp
      → pos 41 <ℤ live.session.primary_host_last_timestamp
      → parse_state_message (some (state_payload false 41)) [] live ≡ (none, live))
    × ((live.session.primary_host_last_timestamp <ℤ pos 0)
          ⊎ (live.session.primary_host_last_timestamp ≤ℤ pos 41)
        → parse_state_message (some (state_payload false 41)) [] live ≡ (
          some (if false then primary_host_online else primary_host_offline),
          record live { session = record live.session { primary_host_last_timestamp = pos 41 } },
        ))
parse_state_message_written_example = parse_state_message_written false 41 [] live (omega arith)

-- A session that waits for its next attempt, with an address.
abbrev waiting : Machine
waiting = record zero_machine {
  session = record zero_machine.session {
    reconnect_enabled = true;
    reconnect_attempt_due_ms = pos 4000;
  };
  wifi = record zero_machine.wifi { has_ip = true; connected = true };
}

-- An MQTT client that is made, but does not start.
abbrev refusing : Env
refusing = record test_env {
  mqtt_client_init = λ t config. some 9;
  mqtt_client_start = λ t client. esp_fail;
}

refusing_fails : is_ok (open_client refusing 4 waiting).0 ≡ false
unfolding open_client
refusing_fails = refl

failed_start_blocks_example :
    ((open_client refusing 4 waiting).1.session.client ≡ some 9)
    × ((handle_reconnect_transition refusing (open_client refusing 4 waiting).1).1
        ≡ (open_client refusing 4 waiting).1)
    × (next_wait refusing (open_client refusing 4 waiting).1.session (pos 5000) ≡ 0)
failed_start_blocks_example =
    failed_start_blocks refusing waiting 4 9 (pos 5000) refl refusing_fails refl refl (omega arith)
      refl

pd_ms_to_ticks-Monotone : Monotone test_env
pd_ms_to_ticks-Monotone a b h = h

next_wait_bound_example :
    (sim_pending test_env waiting.session ≡ true
      → IsWithin test_env
          (next_wait test_env waiting.session (pos 3000))
          (waiting.session.disconnect_sim_next_transition_ms -ℤ pos 3000))
    × (reconnect_pending test_env waiting.session ≡ true
        → IsWithin test_env
            (next_wait test_env waiting.session (pos 3000))
            (waiting.session.reconnect_attempt_due_ms -ℤ pos 3000))
next_wait_bound_example =
    next_wait_bound test_env pd_ms_to_ticks-Monotone waiting.session (pos 3000)

stale_connected_example :
    ((handle_connected test_env waiting).1.session.client ≡ none)
    × ((handle_connected test_env waiting).1.session.mqtt_connected ≡ true)
    × ((start_client test_env (handle_connected test_env waiting).1).1.session.mqtt_connected
        ≡ true)
stale_connected_example = stale_connected test_env waiting refl
