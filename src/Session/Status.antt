-- ===== src/Session/Status.antt =====
-- components/sparkplug_node/sparkplug_session.c: the status snapshot, its callback, the last
-- message and the command queue.
use esp32_sparkplug.Prelude.{ℕ, Bool, false, Option, none, some, CString, ◌+◌, snprintf_text, ◌∷◌}
use esp32_sparkplug.Esp.{EspErr, esp_ok, err_invalid_arg, Pointer}
use esp32_sparkplug.Session.State.{
  Session, SessionStatus, Cmd, disconnect_sim_interval, disconnect_sim_duration,
  last_message_max_len,
}
use esp32_sparkplug.Platform.{Env, Act, Trace, Call, ◌>>=◌, pure, ask, get_session, modify_session}

-- What `refresh_status` copies into the snapshot.
unfoldable pub status_of : Session → SessionStatus
status_of s = record {
  mqtt_configured = s.mqtt_configured;
  mqtt_started = s.mqtt_started;
  mqtt_connected = s.mqtt_connected;
  ncmd_subscribed = s.ncmd_subscribed;
  session_active = s.session_active;
  birth_complete = s.birth_complete;
  rebirth_pending = s.rebirth_pending;
  has_temperature = s.has_temperature;
  disconnect_sim_enabled = s.disconnect_sim_enabled;
  disconnect_sim_active = s.disconnect_sim_active;
  primary_host_configured = s.primary_host_configured;
  primary_host_online = s.primary_host_online;
  disconnect_sim_interval_ms = disconnect_sim_interval;
  disconnect_sim_duration_ms = disconnect_sim_duration;
  mqtt_reconnect_count = s.mqtt_reconnect_count;
  bdseq = s.bdseq;
  seq = s.seq;
  last_temperature_c = s.last_temperature_c;
  last_sample_ms = s.last_sample_ms;
  last_publish_ms = s.last_publish_ms;
  last_message = s.last_message;
}

-- The callback, if there is one, is called with the snapshot.
abbrev pub notify : Option ℕ → Option ℕ → SessionStatus → Trace → Trace
notify none ctx status trace = trace
notify (some callback) ctx status trace = Call.status_callback callback ctx status ∷ trace

unfoldable pub refresh_status : Act (Unit {0})
refresh_status m = (
  tt,
  record m {
    session = record m.session { status_snapshot = status_of m.session };
    trace =
        notify m.session.status_callback m.session.status_callback_ctx (status_of m.session)
          m.trace;
  },
)

unfoldable pub set_last_message : CString → Act (Unit {0})
set_last_message message =
    modify_session
      (λ s. record s { last_message = snprintf_text (last_message_max_len + 1) message })

-- `sparkplug_session_set_status_callback`.
unfoldable pub set_status_callback : Option ℕ → Option ℕ → Act EspErr
set_status_callback callback ctx m = (
  esp_ok,
  record m {
    session = record m.session { status_callback = callback; status_callback_ctx = ctx };
    trace = notify callback ctx m.session.status_snapshot m.trace;
  },
)

-- `sparkplug_session_get_status`.
unfoldable pub get_status : Pointer → Act (EspErr × Option SessionStatus)
get_status Pointer.null = pure (err_invalid_arg, none)
get_status Pointer.valid = do s ← get_session; pure (esp_ok, some s.status_snapshot)

module _ (env : Env) where
  abbrev pub send : Option ℕ → Cmd → ℕ → Act Bool
  send none cmd timeout_ticks = pure false
  send (some queue) cmd timeout_ticks =
      ask (Call.queue_send cmd) (λ t. env.queue_send t cmd timeout_ticks)

  -- `sparkplug_session_queue_command`.
  unfoldable pub queue_command : Cmd → ℕ → Act Bool
  queue_command cmd timeout_ticks = do s ← get_session; send s.queue cmd timeout_ticks
