-- ===== src/Wifi/Release.antt =====
-- components/wifi_manager/wifi_manager.c: what `wifi_manager_init` holds of ESP-IDF, and that it
-- gives it back when it fails.
use esp32_sparkplug.Prelude.{
  ℕ, ◌≡◌, ◌≢◌, refl, Bool, true, false, Option, none, some, Bool-cases, inl, inr, arith,
  snprintf_text, is_some, [], ◌∷◌, ◌==◌, if◌then◌else◌,
}
use esp32_sparkplug.Esp.{EspErr, is_ok}
use esp32_sparkplug.Wifi.State.{WifiCall}
use esp32_sparkplug.Wifi.Manager.{
  zero_state, cleanup_init_failure, bring_up, or_cleanup, create_timer, init, call,
}
use esp32_sparkplug.Platform.{Env, Machine, Trace, Act, Call, ◌>>◌, pure, modify_wifi}

-- What is held of ESP-IDF: the latest handle of each kind that has not been given back, the driver,
-- and the two event handlers.
pub record Held : Type 0 where
  pub group : Option ℕ
  pub netif : Option ℕ
  pub timer : Option ℕ
  pub driver : Bool
  pub wifi_handler : Bool
  pub ip_handler : Bool

abbrev pub nothing : Held
nothing = record {
  group = none;
  netif = none;
  timer = none;
  driver = false;
  wifi_handler = false;
  ip_handler = false;
}

-- Giving a handle back releases that handle and no other.
abbrev pub released : ℕ → Option ℕ → Option ℕ
released handle none = none
released handle (some held) = if held == handle then none else some held

module _ (env : Env) where
  -- What a call changes of it, by its answer.
  abbrev pub held_after : WifiCall → Trace → Held → Held
  held_after WifiCall.event_group_create t h = record h {
    group = env.wifi_handle t WifiCall.event_group_create;
  }
  held_after (WifiCall.event_group_delete g) t h = record h { group = released g h.group }
  held_after WifiCall.netif_create t h = record h {
    netif = env.wifi_handle t WifiCall.netif_create;
  }
  held_after (WifiCall.netif_destroy n) t h = record h { netif = released n h.netif }
  held_after WifiCall.timer_create t h =
      if is_ok (env.wifi_result t WifiCall.timer_create)
      then record h { timer = env.wifi_handle t WifiCall.timer_create }
      else h
  held_after (WifiCall.timer_delete n) t h = record h { timer = released n h.timer }
  held_after WifiCall.wifi_init t h =
      if is_ok (env.wifi_result t WifiCall.wifi_init) then record h { driver = true } else h
  held_after WifiCall.wifi_deinit t h = record h { driver = false }
  held_after WifiCall.wifi_handler_register t h =
      if is_ok (env.wifi_result t WifiCall.wifi_handler_register)
      then record h { wifi_handler = true }
      else h
  held_after WifiCall.wifi_handler_unregister t h = record h { wifi_handler = false }
  held_after WifiCall.ip_handler_register t h =
      if is_ok (env.wifi_result t WifiCall.ip_handler_register)
      then record h { ip_handler = true }
      else h
  held_after WifiCall.ip_handler_unregister t h = record h { ip_handler = false }
  held_after _ t h = h

  unfoldable pub held : Trace → Held
  held [] = nothing
  held (Call.wifi_call c ∷ t) = held_after c t (held t)
  held (_ ∷ t) = held t

  -- The manager's handles are those that are held.
  pub record Owns (m : Machine) : Type 0 where
    pub group : (held m.trace).group ≡ m.wifi.event_group
    pub netif : (held m.trace).netif ≡ m.wifi.sta_netif
    pub timer : (held m.trace).timer ≡ m.wifi.reconnect_timer

  -- Undoing a set-up leaves nothing held.
  cleanup-nothing :
      (m : Machine)
      → Owns m
      → ((cleanup_init_failure env m).1.wifi ≡ zero_state)
        × (held (cleanup_init_failure env m).1.trace ≡ nothing)
  unfolding cleanup_init_failure held
  cleanup-nothing m o = ground arith

  -- The end of a set-up: the manager owns what is held, or nothing is held.
  abbrev Ends : EspErr × Machine → Type 0
  Ends (err, n) =
      (is_ok err ≡ true → Owns n × (n.wifi.initialized ≡ true) × (n.wifi.event_group ≢ none))
      × (is_ok err ≡ false → (n.wifi ≡ zero_state) × (held n.trace ≡ nothing))

  record Ready (m : Machine) : Type 0 where
    owns : Owns m
    grouped : m.wifi.event_group ≢ none

  answered-Ends :
      (b : Bool) (err : EspErr) (next : Act EspErr) (n : Machine)
      → is_ok err ≡ b
      → Owns n
      → (b ≡ true → Ends (next n))
      → Ends ((if b then next else (cleanup_init_failure env >> pure err)) n)
  answered-Ends true err next n e o h = h refl
  answered-Ends false err next n e o h = let done = cleanup-nothing n o in grind arith

  -- A call that makes no handle.
  abbrev IsPlain : WifiCall → Type 0
  IsPlain c =
      (t : Trace) (h : Held)
      → ((held_after c t h).group ≡ h.group)
        × ((held_after c t h).netif ≡ h.netif)
        × ((held_after c t h).timer ≡ h.timer)

  call-Ready : (c : WifiCall) → IsPlain c → (n : Machine) → Ready n → Ready (call env c n).1
  unfolding held
  call-Ready c plain n r = let p = plain n.trace (held n.trace) in ground arith

  or_cleanup-Ends :
      (c : WifiCall) (next : Act EspErr)
      → IsPlain c
      → ((n : Machine) → Ready n → Ends (next n))
      → (n : Machine) → Ready n
      → Ends (or_cleanup env c next n)
  or_cleanup-Ends c next plain h n r =
      answered-Ends _ (call env c n).0 next (call env c n).1 refl (call-Ready c plain n r).owns
        λ good. h (call env c n).1 (call-Ready c plain n r)

  with_timer : (m : Machine) → Machine
  with_timer m = record m {
    wifi = record m.wifi { reconnect_timer = env.wifi_handle m.trace WifiCall.timer_create };
    trace = Call.wifi_call WifiCall.timer_create ∷ m.trace;
  }

  timer-Ready :
      (n : Machine)
      → Ready n
      → is_ok (env.wifi_result n.trace WifiCall.timer_create) ≡ true
      → Ready (with_timer n)
  unfolding held with_timer
  timer-Ready n r good = ground arith

  no_timer-Owns :
      (n : Machine)
      → Ready n
      → is_ok (env.wifi_result n.trace WifiCall.timer_create) ≡ false
      → Owns (record n { trace = Call.wifi_call WifiCall.timer_create ∷ n.trace })
  unfolding held
  no_timer-Owns n r bad = ground arith

  create_timer-Ends :
      (next : Act EspErr)
      → ((n : Machine) → Ready n → Ends (next n))
      → (n : Machine) → Ready n
      → Ends (create_timer env next n)
  unfolding with_timer
  create_timer-Ends next h n r = elim (Bool-cases (is_ok err)) [
    | inl good ↦ rw (good) (h (with_timer n) (timer-Ready n r good))
    | inr bad ↦
        let done = cleanup-nothing _ (no_timer-Owns n r bad) in
        rw (bad) (λ good. grind arith, λ _. done)
  ]
    where
      err : EspErr
      err = env.wifi_result n.trace WifiCall.timer_create

  finish_set_up : Act EspErr
  finish_set_up = modify_wifi (λ s. record s { initialized = true }) >> pure EspErr.esp_ok

  finish-Ends : (n : Machine) → Ready n → Ends (finish_set_up n)
  unfolding finish_set_up
  finish-Ends n r = ground arith

  bring_up-Ends : (n : Machine) → Ready n → Ends (bring_up env n)
  unfolding bring_up finish_set_up
  bring_up-Ends =
      or_cleanup-Ends WifiCall.wifi_init handlers (λ t h. ground arith)
        (or_cleanup-Ends WifiCall.wifi_handler_register ip_handler (λ t h. ground arith)
          (or_cleanup-Ends WifiCall.ip_handler_register storage (λ t h. ground arith)
            (or_cleanup-Ends WifiCall.set_storage mode (λ t h. ground arith)
              (or_cleanup-Ends WifiCall.set_mode timer (λ t h. ground arith)
                (create_timer-Ends configure (
                  or_cleanup-Ends configuration finish_set_up (λ t h. ground arith)
                    finish-Ends))))))
    where
      configuration : WifiCall
      configuration =
          WifiCall.set_config (snprintf_text 32 env.config.wifi.ssid)
            (snprintf_text 64 env.config.wifi.password)

      configure : Act EspErr
      configure = or_cleanup env configuration finish_set_up

      timer : Act EspErr
      timer = create_timer env configure

      mode : Act EspErr
      mode = or_cleanup env WifiCall.set_mode timer

      storage : Act EspErr
      storage = or_cleanup env WifiCall.set_storage mode

      ip_handler : Act EspErr
      ip_handler = or_cleanup env WifiCall.ip_handler_register storage

      handlers : Act EspErr
      handlers = or_cleanup env WifiCall.wifi_handler_register ip_handler

module _ (env : Env) (m : Machine) where
  abbrev group : Option ℕ
  group = env.wifi_handle m.trace WifiCall.event_group_create

  abbrev netif : Option ℕ
  netif =
      env.wifi_handle (Call.wifi_call WifiCall.event_group_create ∷ m.trace) WifiCall.netif_create

  abbrev asked : Machine
  asked = record m {
    wifi = record m.wifi { event_group = group; sta_netif = netif };
    trace =
        Call.wifi_call WifiCall.netif_create
        ∷ (Call.wifi_call WifiCall.event_group_create ∷ m.trace);
  }

  asked-Owns : m.wifi ≡ zero_state → held env m.trace ≡ nothing → Owns env asked
  unfolding held
  asked-Owns z h = ground arith

  -- With an event group, the set-up goes on to the network interface and the rest.
  init-grouped :
      m.wifi ≡ zero_state
      → held env m.trace ≡ nothing
      → is_some group ≡ true
      → Ends env (init env m)
  unfolding init
  init-grouped z h g =
      let owns = asked-Owns z h in
      let up = bring_up-Ends env asked in
      let down = cleanup-nothing env asked owns in
      let ready : Ready env asked = record { owns = owns; grouped = ground arith } in grind arith

  -- Without one, nothing is held.
  init-refused :
      m.wifi ≡ zero_state
      → held env m.trace ≡ nothing
      → is_some group ≡ false
      → Ends env (init env m)
  unfolding init held
  init-refused z h g = ground arith

  -- `wifi_manager_init` on a manager of which nothing is set up and that holds nothing of ESP-IDF
  -- either succeeds or gives everything back. If it succeeds it is initialised, has an event group,
  -- and its event group, network interface and timer are the ones that are held. If it fails, at
  -- whichever call, nothing is set up, and no event group, network interface, timer, driver or event
  -- handler is held.
  pub init_releases :
      m.wifi ≡ zero_state
      → held env m.trace ≡ nothing
      → (is_ok (init env m).0 ≡ true
          → Owns env (init env m).1
            × ((init env m).1.wifi.initialized ≡ true)
            × ((init env m).1.wifi.event_group ≢ none))
        × (is_ok (init env m).0 ≡ false
            → ((init env m).1.wifi ≡ zero_state) × (held env (init env m).1.trace ≡ nothing))
  init_releases z h = elim (Bool-cases (is_some group)) [
    | inl g ↦ init-grouped z h g
    | inr g ↦ init-refused z h g
  ]
