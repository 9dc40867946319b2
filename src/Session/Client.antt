-- ===== src/Session/Client.antt =====
-- components/sparkplug_node/sparkplug_session.c: topics, the will, and the life of the MQTT client.
use esp32_sparkplug.Prelude.{
  ℕ, ◌+◌, ◌%◌, ◌++◌, pos, negsuc, ◌+ℤ◌, ltb_ℤ, is_zero, Bool, true, false, not, ◌||◌, Option, none,
  some, [], CString, codes, starts_with, is_some, if◌then◌else◌,
}
use esp32_sparkplug.Esp.{EspErr, esp_ok, esp_fail, is_ok, Pointer}
use esp32_sparkplug.TimeSync.{now_ms}
use esp32_sparkplug.Node.Topics.{
  TopicType, topic_nbirth, topic_ndata, topic_ndeath, topic_ncmd, TopicConfig, build_topic,
  build_state_topic,
}
use esp32_sparkplug.Node.Payloads.{encode_ndeath}
use esp32_sparkplug.Wifi.Manager.{has_ip}
use esp32_sparkplug.Session.State.{Session, topic_max_len, payload_max_len}
use esp32_sparkplug.Session.Status.{refresh_status, set_last_message}
use esp32_sparkplug.Session.Timers.{monotonic_ms}
use esp32_sparkplug.Session.Publish.{death_payload}
use esp32_sparkplug.Platform.{
  Env, MqttConfig, Act, Call, ◌>>=◌, ◌>>◌, pure, ask, perform, get_session, modify_session, on_ok,
  when,
}

-- A topic buffer after a call that may have written it.
abbrev pub written_or : Option CString → CString → CString
written_or none old = old
written_or (some text) old = text

-- The buffer of the state that a kind of topic is built into.
unfoldable pub put_topic : TopicType → Option CString → Session → Session
put_topic topic_nbirth text s = record s { topic_nbirth = written_or text s.topic_nbirth }
put_topic topic_ndata text s = record s { topic_ndata = written_or text s.topic_ndata }
put_topic topic_ndeath text s = record s { topic_ndeath = written_or text s.topic_ndeath }
put_topic topic_ncmd text s = record s { topic_ncmd = written_or text s.topic_ncmd }
put_topic (TopicType.topic_other n) text s = s

-- `primary_host_ready`.
unfoldable pub primary_host_ready : Session → Bool
primary_host_ready s = not s.primary_host_configured || s.primary_host_online

-- `next_bdseq`: 0 for the first session, then one more modulo 256.
unfoldable pub next_bdseq : Session → ℕ
next_bdseq s = if s.bdseq_initialized then (s.bdseq + 1) % 256 else 0

module _ (env : Env) where
  abbrev pub topic_config : TopicConfig
  topic_config = record {
    group_id = env.config.sparkplug.group_id;
    node_id = env.config.sparkplug.node_id;
  }

  -- One `build_topic` into its field of the state.
  unfoldable pub prepare_topic : TopicType → Act EspErr
  unfolding put_topic
  prepare_topic topic_type = do
    modify_session (
        put_topic topic_type
          (build_topic (some topic_config) topic_type Pointer.valid topic_max_len).1)
    pure (build_topic (some topic_config) topic_type Pointer.valid topic_max_len).0

  -- The last step of `prepare_topics`: the primary host's STATE topic.
  abbrev pub prepare_state_topic : Option CString → Act EspErr
  prepare_state_topic none = do
    modify_session (λ s. record s { primary_host_configured = false; topic_state = [] })
    pure esp_ok
  prepare_state_topic (some host_id) = do
    modify_session (λ s. record s {
      primary_host_configured = true;
      topic_state =
          written_or (build_state_topic (some host_id) Pointer.valid topic_max_len).1 s.topic_state;
    })
    pure (build_state_topic (some host_id) Pointer.valid topic_max_len).0

  unfoldable pub prepare_topics : Act EspErr
  prepare_topics = on_ok (prepare_topic topic_nbirth) (
      on_ok (prepare_topic topic_ndata) (
        on_ok (prepare_topic topic_ndeath) (
          on_ok (prepare_topic topic_ncmd)
            (prepare_state_topic env.config.sparkplug.primary_host_id))))

  -- The will's bytes are kept as they were where the encoder does not set their length.
  unfoldable pub prepare_will_payload : ℕ → Act EspErr
  prepare_will_payload bdseq = do
    now ← now_ms env
    let result =
        encode_ndeath env.nanopb (some (death_payload env bdseq now)) Pointer.valid payload_max_len
          Pointer.valid
    modify_session (λ s. record s { will_payload = written_or (result.1) s.will_payload })
    pure (result.0)

  abbrev pub destroy_handle : Option ℕ → Act (Unit {0})
  destroy_handle none = pure tt
  destroy_handle (some client) = do
    perform (Call.mqtt_client_stop client)
    perform (Call.mqtt_client_destroy client)
    modify_session (λ s. record s {
      client = none;
      mqtt_configured = false;
      mqtt_started = false;
      mqtt_connected = false;
      ncmd_subscribed = false;
      state_subscribed = false;
      birth_complete = false;
      session_active = false;
    })
    refresh_status

  unfoldable pub destroy_client : Act (Unit {0})
  destroy_client = do s ← get_session; destroy_handle s.client

  abbrev pub uses_tls : Option CString → Bool
  uses_tls none = false
  uses_tls (some uri) =
      starts_with (env.mqtt_over_ssl_scheme ++ codes "://") uri
      || starts_with (env.mqtt_over_wss_scheme ++ codes "://") uri

  abbrev pub mqtt_config : Session → MqttConfig
  mqtt_config s = record {
    uri = env.config.sparkplug.broker_uri;
    broker_certificate = uses_tls env.config.sparkplug.broker_uri;
    username = env.config.sparkplug.username;
    password = env.config.sparkplug.password;
    will_topic = s.topic_ndeath;
    will_payload = s.will_payload;
  }

  -- The fields that a new session resets.
  unfoldable pub reset_session : Act (Unit {0})
  unfolding set_last_message
  reset_session = do
    modify_session (λ s. record s {
      seq = 0;
      birth_complete = false;
      ncmd_subscribed = false;
      state_subscribed = false;
      session_active = false;
      primary_host_online = false;
      primary_host_last_timestamp = negsuc 0;
      ncmd_subscribe_msg_id = negsuc 0;
      state_subscribe_msg_id = negsuc 0;
    })
    set_last_message []

  -- The end of `start_client`, once the client runs.
  abbrev pub client_started : ℕ → Act EspErr
  client_started bdseq = do
    modify_session (λ s. record s {
      bdseq_initialized = true;
      bdseq = bdseq;
      mqtt_configured = true;
      mqtt_started = true;
    })
    refresh_status
    pure esp_ok

  abbrev pub register_events : ℕ → Act EspErr
  register_events client =
      ask (Call.mqtt_client_register_event client) (λ t. env.mqtt_client_register_event t client)

  abbrev pub start_mqtt : ℕ → Act EspErr
  start_mqtt client = ask (Call.mqtt_client_start client) (λ t. env.mqtt_client_start t client)

  -- What follows `esp_mqtt_client_init`. The client is kept when a later call fails.
  abbrev pub run_client : ℕ → Option ℕ → Act EspErr
  run_client bdseq none = pure esp_fail
  run_client bdseq (some client) =
      on_ok (register_events client) (on_ok (start_mqtt client) (client_started bdseq))

  -- `esp_mqtt_client_init` and what follows.
  unfoldable pub open_client : ℕ → Act EspErr
  open_client bdseq = do
    s ← get_session
    client ←
        ask (Call.mqtt_client_init (mqtt_config s)) (λ t. env.mqtt_client_init t (mqtt_config s))
    modify_session (λ s. record s { client = client })
    run_client bdseq client

  unfoldable pub start_client : Act EspErr
  start_client = do
    s ← get_session
    let bdseq = next_bdseq s
    reset_session
    on_ok prepare_topics (on_ok (prepare_will_payload bdseq) (open_client bdseq))

  -- Try again a second from now.
  unfoldable pub retry_soon : Act (Unit {0})
  unfolding monotonic_ms
  retry_soon = do
    now ← monotonic_ms env
    modify_session (λ s. record s { reconnect_attempt_due_ms = now +ℤ pos 1000 })

  abbrev pub reconnected : Act (Unit {0})
  reconnected = modify_session (λ s. record s { reconnect_attempt_due_ms = pos 0 })

  abbrev pub reconnect : Act (Unit {0})
  reconnect = do err ← start_client; if is_ok err then reconnected else retry_soon

  -- The retry of `handle_reconnect_transition` once its time has come.
  abbrev pub retry_client : Act (Unit {0})
  retry_client = do up ← has_ip env; if up then reconnect else retry_soon

  abbrev pub retry_if_due : Act (Unit {0})
  retry_if_due = do
    now ← monotonic_ms env
    s ← get_session
    if ltb_ℤ now s.reconnect_attempt_due_ms then pure tt else retry_client

  -- A reconnect is wanted: the session runs, has no client, and a deadline is set.
  abbrev pub wants_reconnect : Session → Bool
  wants_reconnect s =
      not (not s.reconnect_enabled || is_some s.client || is_zero s.reconnect_attempt_due_ms)

  unfoldable pub handle_reconnect_transition : Act (Unit {0})
  handle_reconnect_transition = do s ← get_session; when (wants_reconnect s) retry_if_due
