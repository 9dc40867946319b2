-- ===== src/App/Stages.antt =====
-- main/app_main.c: what each step of the start needs and leaves, as triples of a predicate on the
-- board before, a step, and one on the board after it where it ends with ESP_OK.
use esp32_sparkplug.Prelude.{ℕ, ◌≡◌, refl, ◌∙◌, Bool, true, false, is_some, if◌then◌else◌, arith}
use esp32_sparkplug.Esp.{EspErr, is_ok}
use esp32_sparkplug.Config.NodeId
use esp32_sparkplug.Config.NodeId.{load_id, store_new_id, generate_node_id}
use esp32_sparkplug.Wifi.Manager
use esp32_sparkplug.Wifi.Manager.{wait_connected}
use esp32_sparkplug.Board.{Devices, Board, BoardAct, on_ok, on_node}

abbrev pub Ensures : (P Q : Board → Type 0) → BoardAct EspErr → Type 0
Ensures P Q act = (b : Board) → P b → is_ok (act b).0 ≡ true → Q (act b).1

-- The rule for `ESP_ERROR_CHECK`.
pub on_ok-Ensures :
    (P Q R : Board → Type 0) (first next : BoardAct EspErr)
    → Ensures P Q first
    → Ensures Q R next
    → Ensures P R (on_ok first next)
on_ok-Ensures P Q R first next f g b p = cases (is_ok (first b).0) refl
  where
    cases :
        (c : Bool)
        → is_ok (first b).0 ≡ c
        → is_ok (if c then next (first b).1 else ((first b).0, (first b).1)).0 ≡ true
        → R (if c then next (first b).1 else ((first b).0, (first b).1)).1
    cases true good ok = g (first b).1 (f b p good) ok
    cases false bad ok = ground arith

-- The rule for a test of the board, at a board that a call has written to the history of.
pub test-Ensures :
    (P Q : Board → Type 0) (test : Board → Bool) (after : Board → Board)
    (first second : BoardAct EspErr)
    → ((b : Board) → P b → P (after b))
    → ((b : Board)
        → P (after b)
        → test b ≡ true
        → is_ok (first (after b)).0 ≡ true
        → Q (first (after b)).1)
    → Ensures P Q second
    → Ensures P Q (λ b. (if test b then first else second) (after b))
test-Ensures P Q test after first second keeps y n b p = cases (test b) refl
  where
    cases :
        (c : Bool)
        → test b ≡ c
        → is_ok ((if c then first else second) (after b)).0 ≡ true
        → Q ((if c then first else second) (after b)).1
    cases true e = y b (keeps b p) e
    cases false e = n (after b) (keeps b p)

-- The stages: the node id is set, the radio is on, the clock runs, the sensor and the session are
-- there.
abbrev pub Named : Board → Type 0
Named b = is_some b.config.node_id ≡ true

abbrev pub Linked : Board → Type 0
Linked b = Named b × (b.node.wifi.started ≡ true)

abbrev pub Timed : Board → Type 0
Timed b = Linked b × (b.time.started ≡ true)

abbrev pub Sensing : Board → Type 0
Sensing b = Timed b × (b.sensor.initialized ≡ true)

abbrev pub Connected : Board → Type 0
Connected b = Sensing b × (b.node.session.initialized ≡ true)

-- The parts of the board that an earlier stage has set up, and that the clock leaves alone.
abbrev pub Kept : Board → Board → Type 0
Kept b c =
    (c.config ≡ b.config)
    × (c.node.wifi ≡ b.node.wifi)
    × (c.node.session ≡ b.node.session)
    × (c.sensor ≡ b.sensor)

pub Kept-trans : (b c d : Board) → Kept b c → Kept c d → Kept b d
Kept-trans b c d k h = (h.0 ∙ k.0, h.1 ∙ k.1, h.2 ∙ k.2, h.3 ∙ k.3)

module _ (dev : Devices) where
  pub NodeId_init-Named : Ensures (λ b. Unit {0}) Named (NodeId.init dev)
  unfolding NodeId.init load_id store_new_id generate_node_id
  NodeId_init-Named b p ok = ground arith

  pub Manager_start-Linked : Ensures Named Linked (on_node (Manager.start dev.env))
  unfolding Manager.start
  Manager_start-Linked b p ok = ground arith

  pub wait_connected-Linked : (t : ℕ) → Ensures Linked Linked (on_node (wait_connected dev.env t))
  unfolding wait_connected
  wait_connected-Linked t b p ok = ground arith
