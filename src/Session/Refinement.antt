-- ===== src/Session/Refinement.antt =====
-- components/sparkplug_node/sparkplug_session.c: every command, timeout and round of the session's
-- task is a sequence of the protocol's moves.
use esp32_sparkplug.Prelude.{ℕ, ◌≡◌, refl, Bool, true, false, not, ◌&&◌, Option, none, some, arith}
use esp32_sparkplug.Session.Status.{refresh_status}
use esp32_sparkplug.Session.Publish.{should_publish, publish_birth, publish_data}
use esp32_sparkplug.Session.Client.{destroy_handle, destroy_client}
use esp32_sparkplug.Session.Frames.{should_publish-session}
use esp32_sparkplug.Session.Publications.{wire}
use esp32_sparkplug.Session.Heard.{heard, heard-notify}
use esp32_sparkplug.Session.Protocol.{Move, Moves, publish_birth-Move, publish_data-Move}
use esp32_sparkplug.Session.Opening.{branch_rule}
use esp32_sparkplug.Session.Handler.{maybe_publish_after_sample, publish_if_due, can_birth}
use esp32_sparkplug.Session.Quiet.{IsQuiet, quietly, should_publish-IsQuiet, should_publish-born}
use esp32_sparkplug.Platform.{Env, Machine, ignore, pure}

module _ (env : Env) (c : ℕ) (m : Machine) where
  pub drop_wire :
      wire (destroy_handle env (some c) m).1.session ≡ record (wire m.session) { alive = false }
  unfolding refresh_status
  drop_wire = refl

  pub drop_silent : heard env (destroy_handle env (some c) m).1.trace ≡ heard env m.trace
  unfolding refresh_status
  drop_silent = grind (arith, heard-notify)

module _ (env : Env) where
  -- One more quiet call behind a sequence of moves.
  pub and_quiet : {m k n : Machine} → Moves env m k → IsQuiet env k n → Moves env m n
  and_quiet ms q = Moves.then ms (quietly env q)

  pub stay : (m : Machine) → Moves env m m
  stay m = quietly env (record { same_wire = refl; silent = refl })

  drops-destroy_handle : (c : Option ℕ) (m : Machine) → Moves env m (destroy_handle env c m).1
  drops-destroy_handle none m = stay m
  drops-destroy_handle (some c) m = Moves.one (Move.drops (drop_wire env c m) (drop_silent env c m))

  pub destroy_client-Moves : (m : Machine) → Moves env m (destroy_client env m).1
  unfolding destroy_client
  destroy_client-Moves m = drops-destroy_handle m.session.client m

  due-Moves : (force : Bool) (m : Machine) → Moves env m (publish_if_due env force m).1
  due-Moves force m =
      branch_rule (Moves env m) (should_publish env force m).0 (ignore (publish_data env)) (pure tt)
        (should_publish env force m).1
        (λ due.
          Moves.then asked
            (Moves.one (publish_data-Move env (should_publish env force m).1 (alive due))))
        (λ _. asked)
    where
      asked : Moves env m (should_publish env force m).1
      asked = quietly env (should_publish-IsQuiet env force m)

      alive :
          (should_publish env force m).0 ≡ true
          → (should_publish env force m).1.session.birth_complete ≡ true
      alive due = rw (should_publish-session env m force) (should_publish-born env force m due)

  pub maybe_publish-Moves :
      (force : Bool) (m : Machine) → Moves env m (maybe_publish_after_sample env force m).1
  unfolding maybe_publish_after_sample
  maybe_publish-Moves force m =
      branch_rule (Moves env m) (not m.session.birth_complete && can_birth m.session)
        (ignore (publish_birth env)) _ m (λ _. birth)
        λ _.
          branch_rule (Moves env m) (m.session.rebirth_pending && can_birth m.session)
            (ignore (publish_birth env)) (publish_if_due env force) m (λ _. birth)
            λ _. due-Moves force m
    where
      birth : Moves env m (publish_birth env m).1
      birth = Moves.one (publish_birth-Move env m)
