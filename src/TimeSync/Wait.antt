-- ===== src/TimeSync/Wait.antt =====
-- components/time_sync/time_sync.c: `time_sync_wait_ready`. The tick counter has 32 bits.
use esp32_sparkplug.Prelude.{
  ℕ, zero, suc, ◌+◌, ◌-◌, ◌%◌, ◌^◌, ◌==◌, ltb, leb, Bool, false, Option, none, some, if◌then◌else◌,
}
use esp32_sparkplug.Esp.{EspErr, esp_ok, err_invalid_state, err_timeout}
use esp32_sparkplug.Device.{DeviceCall}
use esp32_sparkplug.TimeSync.Service.{is_valid}
use esp32_sparkplug.Board.{Devices, BoardAct, ◌>>=◌, ◌>>◌, pure, ask, get, modify_time, bit_of}

-- What a round of the loop comes to.
pub data Poll : Type 0 where
  finished : EspErr → Poll
  again : Poll

module _ (dev : Devices) where
  abbrev pub ticks_now : BoardAct ℕ
  ticks_now = ask DeviceCall.tick_count dev.tick_count

  -- `xTaskGetTickCount() - start_ticks`, in 32 bits.
  abbrev pub elapsed_since : ℕ → ℕ → ℕ
  elapsed_since start now = (now + 2 ^ 32 - start) % 2 ^ 32

  -- `xEventGroupWaitBits`, while which other tasks run.
  abbrev pub wait_bit : ℕ → Option ℕ → BoardAct Bool
  wait_bit ticks none = pure false
  wait_bit ticks (some group) = do
    ready ← bit_of dev (DeviceCall.wait_ready_bit group ticks)
    t ← get (λ b. b.node.trace)
    modify_time (dev.meanwhile t)
    pure ready

  -- What follows the wait in a round.
  unfoldable pub settle : Bool → BoardAct Poll
  settle ready = do
    s ← get (λ b. b.time)
    if s.started
        then if ready
          then pure (finished esp_ok)
          else (do valid ← is_valid dev; pure (if valid then finished esp_ok else again))
        else pure (finished err_invalid_state)

  -- The wait and what follows it.
  unfoldable pub wait_then : ℕ → BoardAct Poll
  wait_then ticks = do s ← get (λ b. b.time); ready ← wait_bit ticks s.event_group; settle ready

  abbrev pub sooner : ℕ → ℕ → ℕ
  sooner remaining ticks = if ltb remaining ticks then remaining else ticks

  -- One round of `while (true)`.
  unfoldable pub poll : ℕ → ℕ → BoardAct Poll
  poll timeout start =
      if timeout == dev.env.port_max_delay then wait_then (dev.env.pd_ms_to_ticks 250) else (do
        now ← ticks_now
        if leb timeout (elapsed_since start now)
            then pure (finished err_timeout)
            else wait_then
                (sooner (timeout - elapsed_since start now) (dev.env.pd_ms_to_ticks 250)))

  -- The loop; `none` is a loop that has not ended after so many rounds.
  unfoldable pub poll_rounds : ℕ → ℕ → ℕ → BoardAct (Option EspErr)
  poll_rounds zero timeout start b = (none, b)
  poll_rounds (suc rounds) timeout start b = elim (poll timeout start b).0 [
    | finished err ↦ (some err, (poll timeout start b).1)
    | again ↦ poll_rounds rounds timeout start (poll timeout start b).1
  ]

  abbrev pub timeout_ticks : ℕ → ℕ
  timeout_ticks timeout_ms =
      if timeout_ms == 2 ^ 32 - 1 then dev.env.port_max_delay else dev.env.pd_ms_to_ticks timeout_ms

  unfoldable pub wait_ready : ℕ → ℕ → BoardAct (Option EspErr)
  wait_ready rounds timeout_ms = do
    s ← get (λ b. b.time)
    if s.started
        then (do
          valid ← is_valid dev
          if valid
              then pure (some esp_ok)
              else (do start ← ticks_now; poll_rounds rounds (timeout_ticks timeout_ms) start))
        else pure (some err_invalid_state)
