-- ===== src/Session/Timers.antt =====
-- components/sparkplug_node/sparkplug_session.c: the two deadlines of the session, the disconnect
-- simulator, and how long the task may sleep.
use esp32_sparkplug.Prelude.{
  ℕ, ◌-◌, ◌^◌, ◌==◌, ℤ, pos, ◌+ℤ◌, ◌-ℤ◌, div_ℤ, ltb_ℤ, leb_ℤ, is_zero, pos_part, Bool, true, false,
  not, ◌&&◌, ◌||◌, if◌then◌else◌,
}
use esp32_sparkplug.Esp.{is_ok}
use esp32_sparkplug.Session.State.{Session, disconnect_sim_interval, disconnect_sim_duration}
use esp32_sparkplug.Session.Status.{refresh_status}
use esp32_sparkplug.Wifi.Manager.{simulate_disconnect, resume_simulated_disconnect}
use esp32_sparkplug.Platform.{
  Env, Act, Call, ◌>>=◌, ◌>>◌, pure, ask, get_session, modify_session, when, ignore,
}

module _ (env : Env) where
  unfoldable pub monotonic_ms : Act ℤ
  monotonic_ms = do us ← ask Call.esp_timer_get_time env.esp_timer_get_time; pure (div_ℤ us 1000)

  unfoldable pub schedule_disconnect_sim : ℕ → Act (Unit {0})
  schedule_disconnect_sim delay_ms = do
    s ← get_session
    if not s.disconnect_sim_enabled || not s.reconnect_enabled
        then modify_session (λ s. record s { disconnect_sim_next_transition_ms = pos 0 })
        else (do
          now ← monotonic_ms
          modify_session
              (λ s. record s { disconnect_sim_next_transition_ms = now +ℤ pos delay_ms }))

  unfoldable pub schedule_reconnect_attempt : ℕ → Act (Unit {0})
  schedule_reconnect_attempt delay_ms = do
    s ← get_session
    if not s.reconnect_enabled
        then modify_session (λ s. record s { reconnect_attempt_due_ms = pos 0 })
        else (do
          now ← monotonic_ms
          modify_session (λ s. record s { reconnect_attempt_due_ms = now +ℤ pos delay_ms }))

  -- `set_disconnect_sim_enabled_internal` where the setting stays as it is.
  abbrev pub keep_disconnect_sim : Bool → Act (Unit {0})
  keep_disconnect_sim enabled = do
    s ← get_session
    when (enabled && s.reconnect_enabled && is_zero s.disconnect_sim_next_transition_ms)
        (schedule_disconnect_sim disconnect_sim_interval >> refresh_status)

  -- And where it changes to off, or to on.
  abbrev pub switch_disconnect_sim : Bool → Act (Unit {0})
  switch_disconnect_sim false = do
    modify_session (λ s. record s { disconnect_sim_enabled = false })
    s ← get_session
    when s.disconnect_sim_active (ignore (resume_simulated_disconnect env))
    modify_session
        (λ s. record s { disconnect_sim_active = false; disconnect_sim_next_transition_ms = pos 0 })
    refresh_status
  switch_disconnect_sim true = do
    modify_session (λ s. record s { disconnect_sim_enabled = true; disconnect_sim_active = false })
    schedule_disconnect_sim disconnect_sim_interval
    refresh_status

  abbrev pub same_bool : Bool → Bool → Bool
  same_bool true b = b
  same_bool false b = not b

  unfoldable pub set_disconnect_sim_enabled_internal : Bool → Act (Unit {0})
  set_disconnect_sim_enabled_internal enabled = do
    s ← get_session
    if same_bool enabled s.disconnect_sim_enabled
        then keep_disconnect_sim enabled
        else switch_disconnect_sim enabled

  -- The transition once its time has come.
  abbrev pub toggle_disconnect_sim : Act (Unit {0})
  toggle_disconnect_sim = do
    s ← get_session
    if not s.disconnect_sim_active
        then (do
          err ← simulate_disconnect env disconnect_sim_duration
          if is_ok err
              then (do
                modify_session (λ s. record s { disconnect_sim_active = true })
                schedule_disconnect_sim disconnect_sim_duration)
              else schedule_disconnect_sim disconnect_sim_interval)
        else (do
          modify_session (λ s. record s { disconnect_sim_active = false })
          schedule_disconnect_sim disconnect_sim_interval)
    refresh_status

  unfoldable pub handle_disconnect_sim_transition : Act (Unit {0})
  handle_disconnect_sim_transition = do
    s ← get_session
    if not s.disconnect_sim_enabled
          || not s.reconnect_enabled
          || is_zero s.disconnect_sim_next_transition_ms
        then pure tt
        else (do
          now ← monotonic_ms
          if ltb_ℤ now s.disconnect_sim_next_transition_ms then pure tt else toggle_disconnect_sim)

  -- `wait_ms` as ticks, at least one.
  unfoldable pub wait_ticks : ℤ → ℕ
  wait_ticks wait_ms =
      if leb_ℤ wait_ms (pos 0)
      then 0
      else (let bounded =
            if ltb_ℤ (pos (2 ^ 32 - 1)) wait_ms then 2 ^ 32 - 1 else pos_part wait_ms in
          (let ticks = env.pd_ms_to_ticks bounded in if ticks == 0 then 1 else ticks))

  abbrev pub sim_pending : Session → Bool
  sim_pending s =
      s.disconnect_sim_enabled
      && s.reconnect_enabled
      && not (is_zero s.disconnect_sim_next_transition_ms)

  abbrev pub reconnect_pending : Session → Bool
  reconnect_pending s = s.reconnect_enabled && not (is_zero s.reconnect_attempt_due_ms)

  -- The sooner of the pending deadlines, as time from `now`.
  unfoldable pub next_wait : Session → ℤ → ℕ
  next_wait s now =
      (let sim_wait = s.disconnect_sim_next_transition_ms -ℤ now in
        (let reconnect_wait = s.reconnect_attempt_due_ms -ℤ now in
          if sim_pending s
          then (if reconnect_pending s && ltb_ℤ reconnect_wait sim_wait
              then wait_ticks reconnect_wait
              else wait_ticks sim_wait)
          else if reconnect_pending s
          then wait_ticks reconnect_wait
          else env.port_max_delay))

  unfoldable pub next_wait_ticks : Act ℕ
  next_wait_ticks = do now ← monotonic_ms; s ← get_session; pure (next_wait s now)
