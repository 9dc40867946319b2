-- ===== src/TimeSync/Clock.antt =====
-- components/time_sync/time_sync.c: the clock during a wait.
use esp32_sparkplug.Prelude.{
  ℕ, ◌+◌, ◌-◌, ◌*◌, ◌%◌, ◌^◌, ◌≤◌, ◌<◌, ◌≡◌, ap, refl, ◌∙◌, Bool, false, Bool-cases, inl, inr, some,
  ◌∷◌, arith,
}
use esp32_sparkplug.Esp.{is_ok}
use esp32_sparkplug.Device.{DeviceCall}
use esp32_sparkplug.TimeSync.State.{TimeState}
use esp32_sparkplug.TimeSync.Service.{lock, unlock, is_valid}
use esp32_sparkplug.TimeSync.Lock.{is_valid-time}
use esp32_sparkplug.TimeSync.Wait.{again, settle, wait_bit, wait_then}
use esp32_sparkplug.Platform.{Trace, Call}
use esp32_sparkplug.Board.{Devices, Board}

-- How long a call is asked to wait.
abbrev pub time_of : Call → ℕ
time_of (Call.device_call (DeviceCall.wait_ready_bit g w)) = w
time_of _ = 0

-- What FreeRTOS documents of its clock. `ticks` counts from the boot without wrapping; the counter
-- shows its low 32 bits. A wait that ends without the bit has taken its time, and neither it nor
-- another call takes more than `slack` beyond that; other tasks keep the event group.
pub record Ticking (dev : Devices) (ticks : Trace → ℕ) (slack : ℕ) : Type 0 where
  pub counts : (t : Trace) → dev.tick_count t ≡ ticks t % 2 ^ 32
  pub advances : (c : Call) (t : Trace) → ticks t ≤ ticks (c ∷ t)
  pub prompt : (c : Call) (t : Trace) → ticks (c ∷ t) ≤ ticks t + time_of c + slack
  pub waits :
      (g w : ℕ) (t : Trace)
      → dev.bit t (DeviceCall.wait_ready_bit g w) ≡ false
      → ticks t + w ≤ ticks (Call.device_call (DeviceCall.wait_ready_bit g w) ∷ t)
  pub keeps : (t : Trace) (s : TimeState) → (dev.meanwhile t s).event_group ≡ s.event_group

abbrev pub log_call : Call → Board → Board
log_call c b = record b { node = record b.node { trace = c ∷ b.node.trace } }

-- The difference of two 32-bit counters is the time between them, if that is short enough.
pub elapsed-sub :
    (s n : ℕ) → s ≤ n → n < s + 2 ^ 32 → (n % 2 ^ 32 + 2 ^ 32 - s % 2 ^ 32) % 2 ^ 32 ≡ n - s
elapsed-sub s n h k = omega arith

module _ (dev : Devices) (ticks : Trace → ℕ) (slack : ℕ) (clock : Ticking dev ticks slack) where
  open clock use {counts, advances, prompt, waits, keeps}

  -- The time at which a board stands.
  abbrev pub at : Board → ℕ
  at b = ticks b.node.trace

  -- At most `d` ticks lie between two boards.
  abbrev pub Between : ℕ → Board → Board → Type 0
  Between d b c = (at b ≤ at c) × (at c ≤ at b + d)

  pub log-Between : (c : Call) (b : Board) → time_of c ≡ 0 → Between slack b (log_call c b)
  log-Between c b e =
      let late = prompt c b.node.trace in (advances c b.node.trace, omega (arith, late, e))

  lock-Between : (b : Board) → Between slack b (lock dev b).1
  unfolding lock
  lock-Between b = grind (arith, advances, prompt)

  unlock-Between : (b : Board) → Between slack b (unlock dev b).1
  unfolding unlock
  unlock-Between b = grind (arith, advances, prompt)

  pub is_valid-Between : (b : Board) → Between (3 * slack) b (is_valid dev b).1
  unfolding is_valid
  is_valid-Between b = elim (Bool-cases (is_ok (lock dev asked).0)) [
    | inl good ↦
        let u = unlock-Between (lock dev asked).1 in
        rw good (omega (arith, l.0, g.0, u.0), omega (arith, l.1, g.1, u.1))
    | inr bad ↦ rw bad (omega (arith, l.0, g.0), omega (arith, l.1, g.1))
  ]
    where
      asked : Board
      asked = log_call Call.gettimeofday b

      g : Between slack b asked
      g = log-Between Call.gettimeofday b refl

      l : Between slack asked (lock dev asked).1
      l = lock-Between asked

  -- What follows a wait goes on only where the bit is not set.
  pub settle_again :
      (ready : Bool) (b : Board)
      → (settle dev ready b).0 ≡ again
      → (ready ≡ false)
        × Between (3 * slack) b (settle dev ready b).1
        × ((settle dev ready b).1.time ≡ b.time)
  unfolding settle
  settle_again ready b h = grind (arith, is_valid-Between b, is_valid-time dev b)

  -- The board behind a wait, in which other tasks have run.
  abbrev waited : ℕ → ℕ → Board → Board
  waited w g b = record (log_call (Call.device_call (DeviceCall.wait_ready_bit g w)) b) {
    time = dev.meanwhile (Call.device_call (DeviceCall.wait_ready_bit g w) ∷ b.node.trace) b.time;
  }

  wait_then-settle :
      (w g : ℕ) (b : Board)
      → b.time.event_group ≡ some g
      → wait_then dev w b
        ≡ settle dev (dev.bit b.node.trace (DeviceCall.wait_ready_bit g w)) (waited w g b)
  unfolding wait_then
  wait_then-settle w g b e = ap (λ o. settle dev (wait_bit dev w o b).0 (wait_bit dev w o b).1) e

  -- A wait that is to go on has taken its time, and the event group is still there.
  pub wait_then_again :
      (w g : ℕ) (b : Board)
      → b.time.event_group ≡ some g
      → (wait_then dev w b).0 ≡ again
      → (at b + w ≤ at (wait_then dev w b).1)
        × (at (wait_then dev w b).1 ≤ at b + w + 4 * slack)
        × ((wait_then dev w b).1.time.event_group ≡ some g)
  wait_then_again w g b e = rw (wait_then-settle w g b e) (λ h.
      let r =
        settle_again (dev.bit b.node.trace (DeviceCall.wait_ready_bit g w)) (waited w g b) h in
      let early = waits g w b.node.trace r.0 in
      let late = prompt (Call.device_call (DeviceCall.wait_ready_bit g w)) b.node.trace in
      (
        omega (arith, r.1.0, early),
        omega (arith, r.1.1, late),
        ap TimeState.event_group r.2
            ∙ keeps (Call.device_call (DeviceCall.wait_ready_bit g w) ∷ b.node.trace) b.time
            ∙ e,
      ))
