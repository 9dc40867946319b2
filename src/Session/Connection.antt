-- ===== src/Session/Connection.antt =====
-- components/sparkplug_node/sparkplug_session.c: opening a connection, by the protocol's moves.
use mathlib.Core.Path.{subst}
use esp32_sparkplug.Prelude.{
  ℕ, CString, ◌∷◌, ◌≡◌, Bool, refl, sym, ap, ◌∙◌, true, false, Option, none, some, if◌then◌else◌,
  arith,
}
use esp32_sparkplug.Esp.{EspErr, is_ok}
use esp32_sparkplug.TimeSync.{now_ms}
use esp32_sparkplug.Session.State.{Session}
use esp32_sparkplug.Session.Client.{
  put_topic, next_bdseq, mqtt_config, register_events, start_mqtt, client_started, run_client,
  prepare_topics, prepare_will_payload, reset_session, open_client, start_client,
}
use esp32_sparkplug.Session.Publications.{Wire, wire}
use esp32_sparkplug.Session.Protocol.{IsNext, Move, Moves}
use esp32_sparkplug.Session.Opening.{on_ok_rule, prepare_topics_kept}
use esp32_sparkplug.Session.Quiet.{IsQuiet, quietly, refresh_status-IsQuiet}
use esp32_sparkplug.Session.Refinement.{and_quiet, stay}
use esp32_sparkplug.Node.Topics.{TopicType, topic_nbirth}
use esp32_sparkplug.Platform.{Call, Env, Machine, Act, on_ok}

pub next_bdseq-IsNext : (s : Session) → IsNext (wire s) (next_bdseq s)
unfolding next_bdseq
next_bdseq-IsNext s = (λ first. ground arith, λ later. ground arith)

module _ (env : Env) where
  same : (m : Machine) → IsQuiet env m m
  same m = record { same_wire = refl; silent = refl }

  -- Where the wire is that of a reset session, a client that starts opens the connection.
  record IsReset (b : ℕ) (m : Machine) : Type 0 where
    next : IsNext (wire m.session) b
    unborn : m.session.birth_complete ≡ false
    fresh : m.session.seq ≡ 0

  IsReset-kept : (b : ℕ) (m n : Machine) → IsQuiet env m n → IsReset b m → IsReset b n
  IsReset-kept b m n q r = record {
    next = subst (λ w. IsNext w b) (sym q.same_wire) r.next;
    unborn = ap (λ (w : Wire). w.alive) q.same_wire ∙ r.unborn;
    fresh = ap (λ (w : Wire). w.seq) q.same_wire ∙ r.fresh;
  }

  connect-Moves :
      (b c : ℕ) (m : Machine)
      → IsReset b m
      → Moves env m (on_ok (start_mqtt env c) (client_started env b) m).1
  connect-Moves b c m r = cases (is_ok (env.mqtt_client_start m.trace c)) refl
    where
      asked : Machine
      asked = (start_mqtt env c m).1

      noted : Machine
      noted = record asked {
        session = record m.session {
          bdseq_initialized = true;
          bdseq = b;
          mqtt_configured = true;
          mqtt_started = true;
        };
      }

      cases :
          (ok : Bool)
          → is_ok (env.mqtt_client_start m.trace c) ≡ ok
          → Moves env m
              (if ok
                then client_started env b asked
                else (env.mqtt_client_start m.trace c, asked)).1
      cases true good =
          Moves.then (Moves.one (Move.opens c b (rw (good) refl) r.unborn r.fresh r.next refl))
            (quietly env (refresh_status-IsQuiet env noted))
      cases false bad = quietly env (record { same_wire = refl; silent = rw (bad) refl })

  run_client-Moves :
      (b : ℕ) (c : Option ℕ) (m : Machine) → IsReset b m → Moves env m (run_client env b c m).1
  run_client-Moves b none m r = stay env m
  run_client-Moves b (some c) m r =
      on_ok_rule (IsQuiet env m) (Moves env m) (register_events env c)
        (on_ok (start_mqtt env c) (client_started env b)) m (λ n q. quietly env q)
        (record { same_wire = refl; silent = refl })
        λ m₁ q₁. Moves.then (quietly env q₁) (connect-Moves b c m₁ (IsReset-kept b m m₁ q₁ r))

  open_client-Moves : (b : ℕ) (m : Machine) → IsReset b m → Moves env m (open_client env b m).1
  unfolding open_client
  open_client-Moves b m r =
      Moves.then (quietly env asked_quiet)
        (run_client-Moves b _ asked (IsReset-kept b m asked asked_quiet r))
    where
      asked : Machine
      asked = record m {
        session = record m.session {
          client = env.mqtt_client_init m.trace (mqtt_config env m.session);
        };
        trace = Call.mqtt_client_init (mqtt_config env m.session) ∷ m.trace;
      }

      asked_quiet : IsQuiet env m asked
      asked_quiet = record { same_wire = refl; silent = refl }

  prepare_will_payload-IsQuiet :
      (b : ℕ) (m : Machine) → IsQuiet env m (prepare_will_payload env b m).1
  unfolding prepare_will_payload now_ms
  prepare_will_payload-IsQuiet b m = record { same_wire = refl; silent = refl }

  put_topic-IsQuiet :
      (m : Machine) (t : TopicType) (text : Option CString) (n : Machine)
      → IsQuiet env m n
      → IsQuiet env m (record n { session = put_topic t text n.session })
  unfolding put_topic
  put_topic-IsQuiet m topic_nbirth text n q = record { same_wire = q.same_wire; silent = q.silent }
  put_topic-IsQuiet m _ text n q = record { same_wire = q.same_wire; silent = q.silent }

  IsQuiet-trans : {m k n : Machine} → IsQuiet env m k → IsQuiet env k n → IsQuiet env m n
  IsQuiet-trans p q = record { same_wire = q.same_wire ∙ p.same_wire; silent = q.silent ∙ p.silent }

  reset_session-Moves : (m : Machine) → Moves env m (reset_session env m).1
  unfolding reset_session
  reset_session-Moves m = Moves.one (Move.resets refl refl)

  reset_session-IsReset : (m : Machine) → IsReset (next_bdseq m.session) (reset_session env m).1
  unfolding reset_session
  reset_session-IsReset m = record {
    next = next_bdseq-IsNext m.session;
    unborn = refl;
    fresh = refl;
  }

  -- Opening a connection resets `seq`, and takes the next `bdSeq` if it succeeds.
  pub start_client-Moves : (m : Machine) → Moves env m (start_client env m).1
  unfolding start_client
  start_client-Moves m =
      on_ok_rule (IsQuiet env r) (Moves env m) (prepare_topics env) (on_ok will open_) r
        (λ n q. and_quiet env first q)
        (prepare_topics_kept env (IsQuiet env r) (put_topic-IsQuiet r)
          (λ configured text n q. record { same_wire = q.same_wire; silent = q.silent }) r (same r))
        λ m₁ q₁.
          on_ok_rule (IsQuiet env r) (Moves env m) will open_ m₁ (λ n q. and_quiet env first q)
            (IsQuiet-trans q₁ (prepare_will_payload-IsQuiet b m₁))
            λ m₂ q₂.
              Moves.then (and_quiet env first q₂)
                (open_client-Moves b m₂ (IsReset-kept b r m₂ q₂ (reset_session-IsReset m)))
    where
      b : ℕ
      b = next_bdseq m.session

      r : Machine
      r = (reset_session env m).1

      first : Moves env m r
      first = reset_session-Moves m

      will : Act EspErr
      will = prepare_will_payload env b

      open_ : Act EspErr
      open_ = open_client env b
