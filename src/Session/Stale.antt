-- ===== src/Session/Stale.antt =====
-- components/sparkplug_node/sparkplug_session.c: a connection that was reported before its client
-- was destroyed.
use esp32_sparkplug.Prelude.{ℕ, ◌≡◌, true, Option, none, CString, arith}
use esp32_sparkplug.Esp.{EspErr}
use esp32_sparkplug.TimeSync.{now_ms}
use esp32_sparkplug.Node.Topics.{TopicType}
use esp32_sparkplug.Session.Status.{refresh_status, set_last_message}
use esp32_sparkplug.Session.Client.{
  put_topic, prepare_topics, prepare_will_payload, next_bdseq, reset_session, open_client,
  start_client,
}
use esp32_sparkplug.Session.Handler.{handle_connected}
use esp32_sparkplug.Session.Opening.{on_ok_rule, prepare_topics_kept}
use esp32_sparkplug.Platform.{Env, Machine, Act, on_ok}

-- The session counts as connected.
abbrev IsConnected : Machine → Type 0
IsConnected m = m.session.mqtt_connected ≡ true

module _ (env : Env) where
  put_topic-IsConnected :
      (t : TopicType) (text : Option CString) (n : Machine)
      → IsConnected n
      → IsConnected (record n { session = put_topic t text n.session })
  unfolding put_topic
  put_topic-IsConnected t text n h = ground arith

  prepare_will_payload-IsConnected :
      (b : ℕ) (m : Machine) → IsConnected m → IsConnected (prepare_will_payload env b m).1
  unfolding prepare_will_payload now_ms
  prepare_will_payload-IsConnected b m h = ground arith

  open_client-IsConnected :
      (b : ℕ) (m : Machine) → IsConnected m → IsConnected (open_client env b m).1
  unfolding open_client refresh_status
  open_client-IsConnected b m h = ground arith

  start_client-IsConnected : (m : Machine) → IsConnected m → IsConnected (start_client env m).1
  unfolding start_client reset_session set_last_message
  start_client-IsConnected m h =
      on_ok_rule IsConnected IsConnected (prepare_topics env) (on_ok will opened) reset (λ n c. c)
        (prepare_topics_kept env IsConnected put_topic-IsConnected (λ configured text n c. c) reset
          h)
        (λ n c.
          on_ok_rule IsConnected IsConnected will opened n (λ k d. d)
            (prepare_will_payload-IsConnected b n c) (open_client-IsConnected b))
    where
      b : ℕ
      b = next_bdseq m.session

      reset : Machine
      reset = (reset_session env m).1

      will : Act EspErr
      will = prepare_will_payload env b

      opened : Act EspErr
      opened = open_client env b

  -- An MQTT_CONNECTED that is handled with no client marks the session as connected, and the client
  -- that is opened next, whether it comes up or not, leaves it marked before its own connection.
  pub stale_connected :
      (m : Machine)
      → m.session.client ≡ none
      → ((handle_connected env m).1.session.client ≡ none)
        × ((handle_connected env m).1.session.mqtt_connected ≡ true)
        × ((start_client env (handle_connected env m).1).1.session.mqtt_connected ≡ true)
  stale_connected m h =
      (client_kept, connected, start_client-IsConnected (handle_connected env m).1 connected)
    where
      client_kept : (handle_connected env m).1.session.client ≡ none
      client_kept = unfold handle_connected refresh_status in ground arith

      connected : (handle_connected env m).1.session.mqtt_connected ≡ true
      connected = unfold handle_connected refresh_status in ground arith
