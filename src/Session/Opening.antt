-- ===== src/Session/Opening.antt =====
-- components/sparkplug_node/sparkplug_session.c: opening a client, and the rules for early returns
-- and branches, keep the invariant.
use esp32_sparkplug.Prelude.{
  ℕ, ◌≡◌, refl, Bool, true, false, Option, none, some, [], CString, ◌<◌, arith, Bool-cases, inl,
  inr, if◌then◌else◌,
}
use esp32_sparkplug.TimeSync.{now_ms}
use esp32_sparkplug.Wifi.Manager.{has_ip}
use esp32_sparkplug.Session.State.{Session, topic_max_len}
use esp32_sparkplug.Session.Status.{refresh_status}
use esp32_sparkplug.Session.Timers.{monotonic_ms}
use esp32_sparkplug.Session.Client.{
  next_bdseq, put_topic, topic_config, prepare_topic, prepare_state_topic, prepare_topics,
  prepare_will_payload, reset_session, open_client, start_client, retry_soon, reconnected,
  reconnect, retry_client, retry_if_due, wants_reconnect, handle_reconnect_transition,
}
use esp32_sparkplug.Session.Invariant.{IsUp}
use esp32_sparkplug.Node.Topics.{
  build_topic, TopicType, topic_nbirth, topic_ndata, topic_ndeath, topic_ncmd,
}
use esp32_sparkplug.Platform.{Env, Machine, Act, on_ok, pure}
use esp32_sparkplug.Esp.{EspErr, is_ok, Pointer}

-- A session that is to be kept connected.
pub record IsRunning (m : Machine) : Type 0 where
  pub up : IsUp m
  pub running : m.session.reconnect_enabled ≡ true

-- A session that is being opened: not born, and with no client.
record IsFresh (m : Machine) : Type 0 where
  base : IsRunning m
  unborn : m.session.birth_complete ≡ false
  no_client : m.session.client ≡ none

-- `ESP_RETURN_ON_ERROR`: `P` holds behind the first call, and the rest of the code makes it `Q`.
pub on_ok_rule :
    (P Q : Machine → Type 0) (first next : Act EspErr) (m : Machine)
    → ((n : Machine) → P n → Q n)
    → P (first m).1
    → ((n : Machine) → P n → Q (next n).1)
    → Q (on_ok first next m).1
on_ok_rule P Q first next m weaken h k = elim (Bool-cases (is_ok (first m).0)) [
  | inl good ↦ rw good (k (first m).1 h)
  | inr bad ↦ rw bad (weaken (first m).1 h)
]

pub branch_rule :
    {A : Type 0} (P : Machine → Type 0) (b : Bool) (f g : Act A) (m : Machine)
    → (b ≡ true → P (f m).1)
    → (b ≡ false → P (g m).1)
    → P ((if b then f else g) m).1
branch_rule P true f g m h k = h refl
branch_rule P false f g m h k = k refl

-- What is kept by writing a topic and by configuring the primary host is kept by `prepare_topics`.
module _ (env : Env) (P : Machine → Type 0)
    (topic_kept : (t : TopicType) (text : Option CString) (n : Machine)
      → P n
      → P (record n { session = put_topic t text n.session }))
    (host_kept : (configured : Bool) (text : CString) (n : Machine)
      → P n
      → P (record n {
        session = record n.session { primary_host_configured = configured; topic_state = text };
      })) where
  topic_then :
      (t : TopicType) (next : Act EspErr) (m : Machine)
      → P m
      → ((n : Machine) → P n → P (next n).1)
      → P (on_ok (prepare_topic env t) next m).1
  unfolding prepare_topic
  topic_then t next m h k =
      on_ok_rule P P (prepare_topic env t) next m (λ n v. v)
        (topic_kept t (build_topic (some (topic_config env)) t Pointer.valid topic_max_len).1 m h) k

  state_topic_kept :
      (host : Option CString) (m : Machine) → P m → P (prepare_state_topic env host m).1
  state_topic_kept none m h = host_kept false [] m h
  state_topic_kept (some host) m h = host_kept true _ m h

  pub prepare_topics_kept : (m : Machine) → P m → P (prepare_topics env m).1
  unfolding prepare_topics
  prepare_topics_kept m h = topic_then topic_nbirth from_ndata m h λ m₁ h₁.
      topic_then topic_ndata from_ndeath m₁ h₁ λ m₂ h₂.
        topic_then topic_ndeath from_ncmd m₂ h₂ λ m₃ h₃.
          topic_then topic_ncmd last m₃ h₃ (state_topic_kept env.config.sparkplug.primary_host_id)
    where
      last : Act EspErr
      last = prepare_state_topic env env.config.sparkplug.primary_host_id

      from_ncmd : Act EspErr
      from_ncmd = on_ok (prepare_topic env topic_ncmd) last

      from_ndeath : Act EspErr
      from_ndeath = on_ok (prepare_topic env topic_ndeath) from_ncmd

      from_ndata : Act EspErr
      from_ndata = on_ok (prepare_topic env topic_ndata) from_ndeath

record IsUnborn (m : Machine) : Type 0 where
  up : IsUp m
  unborn : m.session.birth_complete ≡ false

put_topic-IsUnborn :
    (t : TopicType) (text : Option CString) (n : Machine)
    → IsUnborn n
    → IsUnborn (record n { session = put_topic t text n.session })
unfolding put_topic
put_topic-IsUnborn topic_nbirth text n v = ground arith
put_topic-IsUnborn _ text n v = ground arith

put_topic-IsFresh :
    (t : TopicType) (text : Option CString) (n : Machine)
    → IsFresh n
    → IsFresh (record n { session = put_topic t text n.session })
unfolding put_topic
put_topic-IsFresh topic_nbirth text n v = ground arith
put_topic-IsFresh _ text n v = ground arith

module _ (env : Env) where
  reset_session-IsFresh :
      (m : Machine) → IsRunning m → m.session.client ≡ none → IsFresh (reset_session env m).1
  unfolding reset_session
  reset_session-IsFresh m v e = ground arith

  prepare_topics-IsFresh : (m : Machine) → IsFresh m → IsFresh (prepare_topics env m).1
  prepare_topics-IsFresh =
      prepare_topics_kept env IsFresh put_topic-IsFresh (λ configured text n v. ground arith)

  -- Topics may also be prepared before the session is to be kept connected.
  pub prepare_topics-Inv :
      (m : Machine) → IsUp m → m.session.birth_complete ≡ false → IsUp (prepare_topics env m).1
  prepare_topics-Inv m v e =
      (prepare_topics_kept env IsUnborn put_topic-IsUnborn (λ configured text n w. ground arith) m
        (record { up = v; unborn = e })).up

  prepare_will_payload-IsFresh :
      (m : Machine) (b : ℕ) → IsFresh m → IsFresh (prepare_will_payload env b m).1
  unfolding prepare_will_payload now_ms
  prepare_will_payload-IsFresh m b v = ground arith

  -- A client that comes up, or fails to, leaves the invariant; the new number is a byte.
  open_client-IsRunning :
      (m : Machine) (b : ℕ) → b < 256 → IsFresh m → IsRunning (open_client env b m).1
  unfolding open_client refresh_status
  open_client-IsRunning m b h v = ground arith

  next_bdseq-lt : (s : Session) → next_bdseq s < 256
  unfolding next_bdseq
  next_bdseq-lt s = ground arith

  pub start_client-IsRunning :
      (m : Machine) → IsRunning m → m.session.client ≡ none → IsRunning (start_client env m).1
  unfolding start_client
  start_client-IsRunning m v e =
      let open_ : Act EspErr = open_client env (next_bdseq m.session) in
      let will : Act EspErr = prepare_will_payload env (next_bdseq m.session) in
      on_ok_rule IsFresh IsRunning (prepare_topics env) (on_ok will open_) (reset_session env m).1
        (λ n w. w.base)
        (prepare_topics-IsFresh (reset_session env m).1 (reset_session-IsFresh m v e))
        λ m₁ v₁.
          on_ok_rule IsFresh IsRunning will open_ m₁ (λ n w. w.base)
            (prepare_will_payload-IsFresh m₁ (next_bdseq m.session) v₁)
            λ m₂ v₂. open_client-IsRunning m₂ (next_bdseq m.session) (next_bdseq-lt m.session) v₂

  retry_soon-Inv : (m : Machine) → IsRunning m → IsUp (retry_soon env m).1
  unfolding retry_soon
  retry_soon-Inv m v = ground arith

  reconnected-Inv : (m : Machine) → IsUp m → IsUp (reconnected env m).1
  reconnected-Inv m v = ground arith

  reconnect-Inv : (m : Machine) → IsRunning m → m.session.client ≡ none → IsUp (reconnect env m).1
  reconnect-Inv m v e =
      branch_rule IsUp (is_ok (start_client env m).0) (reconnected env) (retry_soon env)
        (start_client env m).1 (λ _. reconnected-Inv (start_client env m).1 started.up)
        (λ _. retry_soon-Inv (start_client env m).1 started)
    where
      started : IsRunning (start_client env m).1
      started = start_client-IsRunning m v e

  retry_client-Inv :
      (m : Machine) → IsRunning m → m.session.client ≡ none → IsUp (retry_client env m).1
  unfolding has_ip
  retry_client-Inv m v e =
      branch_rule IsUp m.wifi.has_ip (reconnect env) (retry_soon env) m (λ _. reconnect-Inv m v e)
        (λ _. retry_soon-Inv m v)

  retry_if_due-Inv :
      (m : Machine) → IsRunning m → m.session.client ≡ none → IsUp (retry_if_due env m).1
  unfolding monotonic_ms
  retry_if_due-Inv m v e =
      branch_rule IsUp _ (pure tt) (retry_client env) (monotonic_ms env m).1 (λ _. asked.up)
        (λ _. retry_client-Inv (monotonic_ms env m).1 asked e)
    where
      asked : IsRunning (monotonic_ms env m).1
      asked = record { up = v.up; running = v.running }

  pub handle_reconnect_transition-Inv :
      (m : Machine) → IsUp m → IsUp (handle_reconnect_transition env m).1
  unfolding handle_reconnect_transition
  handle_reconnect_transition-Inv m v =
      branch_rule IsUp (wants_reconnect env m.session) (retry_if_due env) (pure tt) m
        (λ go. retry_if_due-Inv m (record { up = v; running = ground arith }) (ground arith))
        (λ _. v)
