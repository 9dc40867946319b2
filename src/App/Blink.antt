-- ===== src/App/Blink.antt =====
-- main/app_main.c: what the status LED shows while its mode stays the same.
use esp32_sparkplug.Prelude.{
  ℕ, zero, suc, ◌*◌, ◌%◌, ◌≡◌, refl, ◌∙◌, ltb, Bool, true, false, ◌⊎◌, ◌∷◌, arith,
}
use esp32_sparkplug.Device.{DeviceCall}
use esp32_sparkplug.Wifi.Manager.{has_ip}
use esp32_sparkplug.App.State.{LedMode, LedState, mode_off, pulse, slow_blink, mode_on}
use esp32_sparkplug.App.Led.{
  led_level, led_mode, same_mode, enter_mode, is_lit, after_round, set_status_led, led_round,
}
use esp32_sparkplug.Platform.{Call}
use esp32_sparkplug.Board.{Devices, Board}

-- What the LED is to show `n` rounds of 50 ms after the mode began: 100 ms of each 500 ms for an
-- address without a broker, every other second for a broker without a primary host.
unfoldable pub shows : LedMode → ℕ → Bool
shows mode_off n = false
shows mode_on n = true
shows pulse n = ltb (50 * n % 500) 100
shows slow_blink n = ltb (50 * n % 2000) 1000

-- The counter that belongs to it.
unfoldable counter : LedMode → ℕ → ℕ → ℕ
counter mode_off n before = before
counter mode_on n before = before
counter pulse n before = 50 * n % 500
counter slow_blink n before = 50 * n % 2000

same_mode_refl : (m : LedMode) → same_mode m m ≡ true
same_mode_refl mode_off = refl
same_mode_refl pulse = refl
same_mode_refl slow_blink = refl
same_mode_refl mode_on = refl

same_mode→≡ : (m p : LedMode) → same_mode m p ≡ true → m ≡ p
same_mode→≡ m p h = ground arith

-- A round in a mode that has begun.
enter_mode-same :
    (m : LedMode) (s : LedState) → s.previous_mode ≡ m → enter_mode m s ≡ record s { mode = m }
enter_mode-same m s e = rw (e, same_mode_refl m) refl

is_lit-shows :
    (m : LedMode) (n : ℕ) (s : LedState)
    → s.mode ≡ m
    → s.pulse_elapsed_ms ≡ counter m n s.pulse_elapsed_ms
    → is_lit s ≡ shows m n
unfolding is_lit shows counter
is_lit-shows m n s h k = ground arith

after_round-counter :
    (m : LedMode) (n : ℕ) (s : LedState)
    → s.mode ≡ m
    → s.pulse_elapsed_ms ≡ counter m n s.pulse_elapsed_ms
    → (after_round s).pulse_elapsed_ms ≡ counter m (suc n) (after_round s).pulse_elapsed_ms
unfolding after_round counter
after_round-counter m n s h k = ground arith

after_round-previous_mode : (s : LedState) → (after_round s).previous_mode ≡ s.previous_mode
unfolding after_round
after_round-previous_mode s = ground arith

-- A mode that begins, or is about to count from 0.
abbrev pub Fresh : LedMode → LedState → Type 0
Fresh m s = (same_mode m s.previous_mode ≡ false) ⊎ (s.pulse_elapsed_ms ≡ 0)

-- In round `n` of mode `m`, with the state at its beginning.
abbrev InRound : LedMode → ℕ → LedState → Type 0
InRound m n s =
    ((enter_mode m s).mode ≡ m)
    × ((enter_mode m s).previous_mode ≡ m)
    × ((enter_mode m s).pulse_elapsed_ms ≡ counter m n (enter_mode m s).pulse_elapsed_ms)

Fresh-InRound : (m : LedMode) (s : LedState) → Fresh m s → InRound m 0 s
unfolding counter
Fresh-InRound m s f = ground (arith, same_mode→≡ m s.previous_mode)

after_round-InRound :
    (m : LedMode) (n : ℕ) (s : LedState)
    → InRound m n s
    → InRound m (suc n) (after_round (enter_mode m s))
after_round-InRound m n s r =
    let p = (after_round-previous_mode (enter_mode m s) ∙ r.1) in
    let c = after_round-counter m n (enter_mode m s) r.0 r.2 in
    rw (enter_mode-same m (after_round (enter_mode m s)) p) (refl, p, c)

module _ (dev : Devices) where
  -- The task's state before its round `n`, in which it meets the board `boards n`.
  unfoldable pub led_after : (ℕ → Board) → LedState → ℕ → LedState
  led_after boards s zero = s
  led_after boards s (suc n) = (led_round dev (led_after boards s n) (boards n)).0.1

  -- The mode that the task computes on a board.
  abbrev pub mode_on_board : Board → LedMode
  mode_on_board b = led_mode b.app (has_ip dev.env b.node).0

  led_round-state :
      (s : LedState) (b : Board)
      → (led_round dev s b).0.1 ≡ after_round (enter_mode (mode_on_board b) s)
  unfolding led_round
  led_round-state s b = refl

  led_round-trace :
      (s : LedState) (b : Board)
      → (led_round dev s b).1.node.trace
        ≡ Call.device_call DeviceCall.delay_until
          ∷ (Call.device_call (
                DeviceCall.gpio_set_level (
                  led_level dev.env.config.status_led.active_high
                    (is_lit (enter_mode (mode_on_board b) s))))
              ∷ (has_ip dev.env b.node).1.trace)
  unfolding led_round set_status_led
  led_round-trace s b = refl

  led_after-InRound :
      (m : LedMode) (boards : ℕ → Board) (s : LedState)
      → Fresh m s
      → ((n : ℕ) → mode_on_board (boards n) ≡ m)
      → (n : ℕ) → InRound m n (led_after boards s n)
  unfolding led_after
  led_after-InRound m boards s f steady zero = Fresh-InRound m s f
  led_after-InRound m boards s f steady (suc n) =
      rw (led_round-state (led_after boards s n) (boards n), steady n)
        (after_round-InRound m n (led_after boards s n) (led_after-InRound m boards s f steady n))

  -- While the flags and the address ask for one mode, whatever else changes between the rounds, the
  -- task drives the pin in its round `n` to the level of what that mode shows `n` rounds after its
  -- beginning: dark, lit, 100 ms of each 500 ms, or 1000 ms of each 2000 ms. The task is to begin in
  -- another mode or with its counter at 0, as it does after a change and at its start.
  pub led_pattern :
      (m : LedMode) (boards : ℕ → Board) (s : LedState) (n : ℕ)
      → Fresh m s
      → ((k : ℕ) → mode_on_board (boards k) ≡ m)
      → (led_round dev (led_after boards s n) (boards n)).1.node.trace
        ≡ Call.device_call DeviceCall.delay_until
          ∷ (Call.device_call (
                DeviceCall.gpio_set_level
                  (led_level dev.env.config.status_led.active_high (shows m n)))
              ∷ (has_ip dev.env (boards n).node).1.trace)
  led_pattern m boards s n f steady =
      let r = led_after-InRound m boards s f steady n in
      rw
        (
          led_round-trace (led_after boards s n) (boards n),
          steady n,
          is_lit-shows m n (enter_mode m (led_after boards s n)) r.0 r.2,
        )
        refl
