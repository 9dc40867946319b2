-- ===== src/Session/Waiting.antt =====
-- components/sparkplug_node/sparkplug_session.c: how long the task sleeps.
use esp32_sparkplug.Prelude.{ℕ, ◌≤◌, ◌≡◌, ℤ, pos, ◌-ℤ◌, ◌≤ℤ◌, ◌^◌, ◌-◌, ◌⊎◌, pos_part, true, arith}
use esp32_sparkplug.Session.State.{Session}
use esp32_sparkplug.Session.Timers.{wait_ticks, next_wait, sim_pending, reconnect_pending}
use esp32_sparkplug.Platform.{Env}

-- `pdMS_TO_TICKS` never gives less for more.
abbrev pub Monotone : Env → Type 0
Monotone env = (a b : ℕ) → a ≤ b → env.pd_ms_to_ticks a ≤ env.pd_ms_to_ticks b

module _ (env : Env) where
  -- A sleep that is over at the latest one tick behind a time `ms` from now: none for a time that is
  -- past, and otherwise a tick, or no more than what FreeRTOS counts for the milliseconds left.
  abbrev pub IsWithin : ℕ → ℤ → Type 0
  IsWithin ticks ms =
      (ms ≤ℤ pos 0 → ticks ≡ 0) × ((ticks ≤ 1) ⊎ (ticks ≤ env.pd_ms_to_ticks (pos_part ms)))

  IsWithin-less : Monotone env → (t : ℕ) (a b : ℤ) → a ≤ℤ b → IsWithin t a → IsWithin t b
  IsWithin-less mono t a b h w = grind (arith, mono (pos_part a) (pos_part b))

  wait_ticks-IsWithin : Monotone env → (a : ℤ) → IsWithin (wait_ticks env a) a
  unfolding wait_ticks
  wait_ticks-IsWithin mono a = grind (arith, mono (2 ^ 32 - 1) (pos_part a))

  -- The task sleeps past neither of the pending deadlines: not at all where one has passed, and
  -- otherwise at most one tick or the ticks that FreeRTOS counts for the milliseconds that are left.
  pub next_wait_bound :
      Monotone env
      → (s : Session) (now : ℤ)
      → (sim_pending env s ≡ true
          → IsWithin (next_wait env s now) (s.disconnect_sim_next_transition_ms -ℤ now))
        × (reconnect_pending env s ≡ true
            → IsWithin (next_wait env s now) (s.reconnect_attempt_due_ms -ℤ now))
  unfolding next_wait
  next_wait_bound mono s now = grind (arith, IsWithin-less, wait_ticks-IsWithin)
