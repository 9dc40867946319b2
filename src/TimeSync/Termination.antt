-- ===== src/TimeSync/Termination.antt =====
-- components/time_sync/time_sync.c: the wait for the time ends.
use esp32_sparkplug.Prelude.{
  ℕ, zero, suc, ◌+◌, ◌-◌, ◌*◌, ◌%◌, ◌^◌, ◌≤◌, ◌<◌, ◌≡◌, ◌≢◌, ap, sym, refl, ◌∙◌, ◌⊎◌, inl, inr,
  none, some, arith,
}
use esp32_sparkplug.Esp.{EspErr}
use esp32_sparkplug.Device.{DeviceCall}
use esp32_sparkplug.TimeSync.State.{TimeState}
use esp32_sparkplug.TimeSync.Service.{is_valid}
use esp32_sparkplug.TimeSync.Lock.{is_valid-time}
use esp32_sparkplug.TimeSync.Wait.{
  Poll, finished, again, elapsed_since, sooner, wait_then, poll, poll_rounds, timeout_ticks,
  wait_ready,
}
use esp32_sparkplug.Platform.{Trace, Call}
use esp32_sparkplug.Board.{Devices, Board}
use esp32_sparkplug.TimeSync.Clock.{
  Ticking, log_call, elapsed-sub, at, Between, log-Between, wait_then_again,
}

Poll-cases : (p : Poll) → ((err : EspErr) × (p ≡ finished err)) ⊎ (p ≡ again)
Poll-cases (finished err) = inl (err, refl)
Poll-cases again = inr refl

module _ (dev : Devices) (ticks : Trace → ℕ) (slack : ℕ) (clock : Ticking dev ticks slack) where
  open clock use {counts}

  -- The counter's difference is the time since the start.
  elapsed_since-at :
      (s : ℕ) (b : Board)
      → s ≤ at dev ticks slack clock b
      → at dev ticks slack clock b < s + 2 ^ 32
      → elapsed_since dev (s % 2 ^ 32) (dev.tick_count b.node.trace)
        ≡ at dev ticks slack clock b - s
  elapsed_since-at s b early late =
      rw (counts b.node.trace) (elapsed-sub s (at dev ticks slack clock b) early late)

  abbrev asked : Board → Board
  asked b = log_call (Call.device_call DeviceCall.tick_count) b

  poll-wait_then :
      (timeout s : ℕ) (b : Board)
      → timeout ≢ dev.env.port_max_delay
      → s ≤ at dev ticks slack clock b
      → at dev ticks slack clock b < s + 2 ^ 32
      → (poll dev timeout (s % 2 ^ 32) b).0 ≡ again
      → (at dev ticks slack clock b < s + timeout)
        × (poll dev timeout (s % 2 ^ 32) b
            ≡ wait_then dev
                (sooner dev
                  (timeout - (at dev ticks slack clock b - s))
                  (dev.env.pd_ms_to_ticks 250))
                (asked b))
  unfolding poll
  poll-wait_then timeout s b finite early late =
      let d = elapsed_since-at s b early late in λ h. grind (arith, d)

  -- A round that is to go on has moved the clock, and the time is not up.
  poll_again :
      (timeout s g : ℕ) (b : Board)
      → timeout ≢ dev.env.port_max_delay
      → 1 ≤ dev.env.pd_ms_to_ticks 250
      → b.time.event_group ≡ some g
      → s ≤ at dev ticks slack clock b
      → at dev ticks slack clock b < s + 2 ^ 32
      → (poll dev timeout (s % 2 ^ 32) b).0 ≡ again
      → (at dev ticks slack clock b < s + timeout)
        × (at dev ticks slack clock b
            < at dev ticks slack clock (poll dev timeout (s % 2 ^ 32) b).1)
        × (at dev ticks slack clock (poll dev timeout (s % 2 ^ 32) b).1
            ≤ at dev ticks slack clock b + dev.env.pd_ms_to_ticks 250 + 5 * slack)
        × ((poll dev timeout (s % 2 ^ 32) b).1.time.event_group ≡ some g)
  poll_again timeout s g b finite some_ticks e early late h =
      let q = poll-wait_then timeout s b finite early late h in
      let w =
        sooner dev (timeout - (at dev ticks slack clock b - s)) (dev.env.pd_ms_to_ticks 250) in
      let positive : 1 ≤ w = ground (arith, q.0, some_ticks, early) in
      let short : w ≤ dev.env.pd_ms_to_ticks 250 = ground arith in
      let r = wait_then_again dev ticks slack clock w g (asked b) e (sym (ap (λ p. p.0) q.1) ∙ h) in
      let l = log-Between dev ticks slack clock (Call.device_call DeviceCall.tick_count) b refl in
      (
        q.0,
        rw (q.1) (omega (arith, r.0, positive, l.0)),
        rw (q.1) (omega (arith, r.1, l.1, short)),
        rw (q.1) (r.2),
      )

  poll_rounds_ends :
      (rounds timeout s g : ℕ) (b : Board)
      → timeout ≢ dev.env.port_max_delay
      → timeout + dev.env.pd_ms_to_ticks 250 + 5 * slack < 2 ^ 32
      → 1 ≤ dev.env.pd_ms_to_ticks 250
      → b.time.event_group ≡ some g
      → s ≤ at dev ticks slack clock b
      → at dev ticks slack clock b < s + 2 ^ 32
      → s + timeout - at dev ticks slack clock b < rounds
      → (poll_rounds dev rounds timeout (s % 2 ^ 32) b).0 ≢ none
  unfolding poll_rounds
  poll_rounds_ends zero timeout s g b finite short some_ticks e early late enough = omega arith
  poll_rounds_ends (suc rounds) timeout s g b finite short some_ticks e early late enough =
      elim (Poll-cases (poll dev timeout (s % 2 ^ 32) b).0) [
        | inl ended ↦ rw (poll_rounds, ended.1) (λ h. ground arith)
        | inr goes_on ↦
            let q = poll_again timeout s g b finite some_ticks e early late goes_on in
            rw (poll_rounds, goes_on)
              (poll_rounds_ends rounds timeout s g (poll dev timeout (s % 2 ^ 32) b).1 finite short
                some_ticks (q.3) (omega (arith, early, q.1)) (omega (arith, q.0, q.2, short))
                (omega (arith, q.0, q.1, enough)))
      ]

  -- Where FreeRTOS keeps its clock as `Ticking` says and 250 ms are at least a tick, a wait of
  -- `timeout_ms` that is not for ever comes back within more rounds than
  -- `pdMS_TO_TICKS(timeout_ms)`, whatever their number beyond that. It holds from any
  -- state of the service with an event group, whatever the wall clock and the bit answer and whatever
  -- other tasks do to the rest of the service's state, and over a wrap of the tick counter, if the
  -- wait, a round of 250 ms and five calls fit in its range.
  pub wait_ready_ends :
      (rounds timeout_ms g : ℕ) (b : Board)
      → b.time.event_group ≡ some g
      → timeout_ms ≢ 2 ^ 32 - 1
      → dev.env.pd_ms_to_ticks timeout_ms ≢ dev.env.port_max_delay
      → dev.env.pd_ms_to_ticks timeout_ms + dev.env.pd_ms_to_ticks 250 + 5 * slack < 2 ^ 32
      → 1 ≤ dev.env.pd_ms_to_ticks 250
      → dev.env.pd_ms_to_ticks timeout_ms < rounds
      → (wait_ready dev rounds timeout_ms b).0 ≢ none
  unfolding wait_ready
  wait_ready_ends rounds timeout_ms g b e bounded finite short some_ticks enough =
      λ h. in_counter (endless h)
    where
      start : Board
      start = (is_valid dev b).1

      endless :
          (wait_ready dev rounds timeout_ms b).0 ≡ none
          → (poll_rounds dev rounds
              (timeout_ticks dev timeout_ms)
              (dev.tick_count start.node.trace)
              (asked start)).0
            ≡ none
      endless h = ground arith

      in_ticks : timeout_ticks dev timeout_ms ≡ dev.env.pd_ms_to_ticks timeout_ms
      in_ticks = ground arith

      l : Between dev ticks slack clock slack start (asked start)
      l = log-Between dev ticks slack clock (Call.device_call DeviceCall.tick_count) start refl

      wait_ends :
          (poll_rounds dev rounds
            (dev.env.pd_ms_to_ticks timeout_ms)
            (at dev ticks slack clock start % 2 ^ 32)
            (asked start)).0
          ≢ none
      wait_ends =
          poll_rounds_ends rounds (dev.env.pd_ms_to_ticks timeout_ms)
            (at dev ticks slack clock start) g (asked start) finite short some_ticks
            (ap TimeState.event_group (is_valid-time dev b) ∙ e) l.0 (omega (arith, l.1, short))
            (omega (arith, l.0, enough))

      in_counter :
          (poll_rounds dev rounds
            (timeout_ticks dev timeout_ms)
            (dev.tick_count start.node.trace)
            (asked start)).0
          ≢ none
      in_counter = rw (in_ticks, counts start.node.trace) wait_ends
