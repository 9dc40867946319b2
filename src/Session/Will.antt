-- ===== src/Session/Will.antt =====
-- components/sparkplug_node/sparkplug_session.c: the will that a connection is opened with.
use esp32_sparkplug.Prelude.{ℕ, ◌≡◌, ◌≢◌, none, Option, [], ◌∷◌, ◌∙◌, refl, ℤ, true, some, arith}
use esp32_sparkplug.Esp.{EspErr, esp_ok, is_ok}
use esp32_sparkplug.TimeSync.{now_ms}
use esp32_sparkplug.Node.Payloads.{encode_ndeath}
use esp32_sparkplug.Session.State.{Session, SessionStatus}
use esp32_sparkplug.Session.Status.{refresh_status, notify}
use esp32_sparkplug.Session.Publish.{death_payload}
use esp32_sparkplug.Session.Client.{
  written_or, next_bdseq, prepare_topics, prepare_will_payload, reset_session, open_client,
  start_client,
}
use esp32_sparkplug.Session.Publications.{wire}
use esp32_sparkplug.Session.Protocol.{ndeath, IsNext}
use esp32_sparkplug.Session.Connection.{next_bdseq-IsNext}
use esp32_sparkplug.Platform.{Env, Machine, MqttConfig, Trace, Call, Act, on_ok}

-- The session's will is an encoded NDEATH with this `bdSeq`.
abbrev pub HasWill : Env → ℕ → Session → Type 0
HasWill env bdseq s =
    (time : ℤ) × (ndeath env (death_payload env bdseq time) ≡ (esp_ok, some s.will_payload))

-- The latest `esp_mqtt_client_init` and the calls before it.
abbrev pub latest_init : Trace → Option (MqttConfig × Trace)
latest_init [] = none
latest_init (Call.mqtt_client_init config ∷ t) = some (config, t)
latest_init (_ ∷ t) = latest_init t

latest_init-notify :
    (callback ctx : Option ℕ) (status : SessionStatus) (t : Trace)
    → latest_init (notify callback ctx status t) ≡ latest_init t
latest_init-notify none ctx status t = refl
latest_init-notify (some f) ctx status t = refl

-- The session's client was made by the latest `esp_mqtt_client_init`, with the session's will.
pub record WillGiven (env : Env) (m : Machine) : Type 0 where
  pub config : MqttConfig
  pub before : Trace
  pub asked : latest_init m.trace ≡ some (config, before)
  pub client : m.session.client ≡ env.mqtt_client_init before config
  pub client_there : m.session.client ≢ none
  pub will_topic : config.will_topic ≡ m.session.topic_ndeath
  pub will_payload : config.will_payload ≡ m.session.will_payload

module _ (env : Env) where
  prepare_will_payload-HasWill :
      (bdseq : ℕ) (m : Machine)
      → is_ok (prepare_will_payload env bdseq m).0 ≡ true
      → HasWill env bdseq (prepare_will_payload env bdseq m).1.session
  unfolding prepare_will_payload now_ms
  prepare_will_payload-HasWill bdseq m h = (_, encoded (death_payload env bdseq _) h)
    where
      encoded :
          (p : _)
          → is_ok (ndeath env p).0 ≡ true
          → ndeath env p ≡ (esp_ok, some (written_or ((ndeath env p).1) m.session.will_payload))
      encoded p h = unfold encode_ndeath in ground arith

  -- A chain that succeeds ran each of its calls, and each succeeded.
  on_ok_success :
      (first next : Act EspErr) (m : Machine)
      → is_ok (on_ok first next m).0 ≡ true
      → (is_ok (first m).0 ≡ true)
        × (is_ok (next (first m).1).0 ≡ true)
        × ((on_ok first next m).1 ≡ (next (first m).1).1)
  on_ok_success first next m h = ground arith

  -- What is left of a client that was opened: the session's client is the answer to the latest
  -- `esp_mqtt_client_init`, whose will is the session's.
  open_client-kept :
      (bdseq : ℕ) (m : Machine)
      → is_ok (open_client env bdseq m).0 ≡ true
      → ((open_client env bdseq m).1.session.will_payload ≡ m.session.will_payload)
        × ((open_client env bdseq m).1.session.bdseq ≡ bdseq)
        × WillGiven env (open_client env bdseq m).1
  unfolding open_client refresh_status
  open_client-kept bdseq m h = grind (arith, latest_init-notify)

  -- `start_client` that succeeds leaves a client, the one that the latest `esp_mqtt_client_init` gave,
  -- and that call was given a will: on the session's NDEATH topic, an encoded NDEATH with the `bdSeq`
  -- of the session that was opened. That `bdSeq` is 0 for the first session and one more modulo 256
  -- for each later one.
  pub start_client-HasWill :
      (m : Machine)
      → is_ok (start_client env m).0 ≡ true
      → HasWill env (start_client env m).1.session.bdseq (start_client env m).1.session
        × WillGiven env (start_client env m).1
        × IsNext (wire m.session) (start_client env m).1.session.bdseq
  unfolding start_client
  start_client-HasWill m h =
      let topics = on_ok_success (prepare_topics env) rest reset h in
      let will =
        on_ok_success (prepare_will_payload env bdseq) (open_client env bdseq) prepared
          (topics.1) in
      let same = topics.2 ∙ will.2 in
      let kept = open_client-kept bdseq (prepare_will_payload env bdseq prepared).1 (will.1) in
      rw (same, kept.0, kept.1)
        (prepare_will_payload-HasWill bdseq prepared (will.0), kept.2, next_bdseq-IsNext m.session)
    where
      bdseq : ℕ
      bdseq = next_bdseq m.session

      rest : Act EspErr
      rest = on_ok (prepare_will_payload env bdseq) (open_client env bdseq)

      reset : Machine
      reset = (reset_session env m).1

      prepared : Machine
      prepared = (prepare_topics env reset).1
