-- ===== src/Wifi/Invariant.antt =====
-- components/wifi_manager/wifi_manager.c: what holds of the Wi-Fi manager's state between its
-- operations, in any order.
use esp32_sparkplug.Prelude.{
  ℕ, ◌≡◌, ◌≢◌, ◌⊎◌, refl, Bool, true, false, Option, none, Bool-cases, inl, inr, arith,
  snprintf_text, is_some, ◌∷◌, if◌then◌else◌,
}
use esp32_sparkplug.Esp.{EspErr, is_ok}
use esp32_sparkplug.Wifi.State.{WifiState, WifiCall}
use esp32_sparkplug.Wifi.Manager.{
  zero_state, WifiEvent, cleanup_init_failure, reconnect_timer_callback, event_handler, bring_up,
  or_cleanup, create_timer, init, start, call, simulate_disconnect, resume_simulated_disconnect,
}
use esp32_sparkplug.Platform.{Env, Machine, Act, Call, ◌>>◌, pure, modify_wifi}

pub record WifiInv (s : WifiState) : Type 0 where
  -- An address comes with a link, and is forgotten with it.
  pub ip_connected : s.has_ip ≡ true → s.connected ≡ true
  pub no_ip : s.has_ip ≡ false → s.ipv4_addr ≡ 0
  pub started_initialized : s.started ≡ true → s.initialized ≡ true
  -- Reconnecting is held back just while a disconnect is simulated.
  pub suppressed : s.reconnect_suppressed ≡ s.simulated_disconnect_active
  pub initialized_group : s.initialized ≡ true → s.event_group ≢ none

module _ (env : Env) where
  event_handler-WifiInv :
      (e : WifiEvent) (m : Machine) → WifiInv m.wifi → WifiInv (event_handler env e m).1.wifi
  unfolding event_handler
  event_handler-WifiInv e m v = ground arith

  simulate_disconnect-WifiInv :
      (d : ℕ) (m : Machine) → WifiInv m.wifi → WifiInv (simulate_disconnect env d m).1.wifi
  unfolding simulate_disconnect
  simulate_disconnect-WifiInv d m v = ground arith

  resume-WifiInv :
      (m : Machine) → WifiInv m.wifi → WifiInv (resume_simulated_disconnect env m).1.wifi
  unfolding resume_simulated_disconnect
  resume-WifiInv m v = ground arith

  -- A failed set-up leaves the state as it was before any.
  cleanup-zero : (m : Machine) → (cleanup_init_failure env m).1.wifi ≡ zero_state
  unfolding cleanup_init_failure
  cleanup-zero m = ground arith

-- A set-up that went on from `s` and came to `t`.
pub record SetUp (s t : WifiState) : Type 0 where
  pub started : t.started ≡ s.started
  pub connected : t.connected ≡ s.connected
  pub has_ip : t.has_ip ≡ s.has_ip
  pub ipv4_addr : t.ipv4_addr ≡ s.ipv4_addr
  pub event_group : t.event_group ≡ s.event_group
  pub suppressed : t.reconnect_suppressed ≡ s.reconnect_suppressed
  pub simulated : t.simulated_disconnect_active ≡ s.simulated_disconnect_active

-- It ends initialised, or with nothing set up.
abbrev pub Settled : WifiState → EspErr × Machine → Type 0
Settled s (err, n) =
    (is_ok err ≡ true → SetUp s n.wifi × (n.wifi.initialized ≡ true))
    × (is_ok err ≡ false → n.wifi ≡ zero_state)

module _ (env : Env) (s : WifiState) where
  -- A call that was answered: go on, or undo what was set up.
  answered-Settled :
      (b : Bool) (err : EspErr) (next : Act EspErr) (n : Machine)
      → is_ok err ≡ b
      → Settled s (next n)
      → Settled s ((if b then next else (cleanup_init_failure env >> pure err)) n)
  answered-Settled true err next n e h = h
  answered-Settled false err next n e h = grind (arith, cleanup-zero)

  or_cleanup-Settled :
      (c : WifiCall) (next : Act EspErr)
      → ((n : Machine) → SetUp s n.wifi → Settled s (next n))
      → (n : Machine) → SetUp s n.wifi
      → Settled s (or_cleanup env c next n)
  or_cleanup-Settled c next h n k =
      answered-Settled _ (call env c n).0 next (call env c n).1 refl (h _ (ground arith))

  create_timer-Settled :
      (next : Act EspErr)
      → ((n : Machine) → SetUp s n.wifi → Settled s (next n))
      → (n : Machine) → SetUp s n.wifi
      → Settled s (create_timer env next n)
  create_timer-Settled next h n k = elim (Bool-cases (is_ok err)) [
    | inl good ↦ rw (good) (h _ (ground arith))
    | inr bad ↦ grind (arith, cleanup-zero)
  ]
    where
      err : EspErr
      err = env.wifi_result n.trace WifiCall.timer_create

  bring_up-Settled : (n : Machine) → SetUp s n.wifi → Settled s (bring_up env n)
  unfolding bring_up
  bring_up-Settled = or_cleanup-Settled WifiCall.wifi_init handlers (
      or_cleanup-Settled WifiCall.wifi_handler_register ip_handler (
        or_cleanup-Settled WifiCall.ip_handler_register storage (
          or_cleanup-Settled WifiCall.set_storage mode (
            or_cleanup-Settled WifiCall.set_mode timer (
              create_timer-Settled configure
                (or_cleanup-Settled configuration finish (λ n k. ground arith)))))))
    where
      configuration : WifiCall
      configuration =
          WifiCall.set_config (snprintf_text 32 env.config.wifi.ssid)
            (snprintf_text 64 env.config.wifi.password)

      finish : Act EspErr
      finish = modify_wifi (λ s. record s { initialized = true }) >> pure EspErr.esp_ok

      configure : Act EspErr
      configure = or_cleanup env configuration finish

      timer : Act EspErr
      timer = create_timer env configure

      mode : Act EspErr
      mode = or_cleanup env WifiCall.set_mode timer

      storage : Act EspErr
      storage = or_cleanup env WifiCall.set_storage mode

      ip_handler : Act EspErr
      ip_handler = or_cleanup env WifiCall.ip_handler_register storage

      handlers : Act EspErr
      handlers = or_cleanup env WifiCall.wifi_handler_register ip_handler

module _ (env : Env) (m : Machine) where
  abbrev group : Option ℕ
  group = env.wifi_handle m.trace WifiCall.event_group_create

  abbrev with_group : WifiState
  with_group = record m.wifi { event_group = group }

  -- With an event group, the set-up goes on to the network interface and the rest.
  init-Settled : m.wifi.initialized ≡ false → is_some group ≡ true → Settled with_group (init env m)
  unfolding init
  init-Settled h g =
      let up = bring_up-Settled env with_group asked (ground arith) in grind (arith, cleanup-zero)
    where
      netif : Option ℕ
      netif =
          env.wifi_handle (Call.wifi_call WifiCall.event_group_create ∷ m.trace)
            WifiCall.netif_create

      asked : Machine
      asked = record m {
        wifi = record m.wifi { event_group = group; sta_netif = netif };
        trace =
            Call.wifi_call WifiCall.netif_create
            ∷ (Call.wifi_call WifiCall.event_group_create ∷ m.trace);
      }

  -- Without one, only its field changes.
  init-refused :
      m.wifi.initialized ≡ false
      → is_some group ≡ false
      → (is_ok (init env m).0 ≡ false)
        × ((init env m).1.wifi ≡ record m.wifi { event_group = none })
  unfolding init
  init-refused h g = ground arith

  -- `wifi_manager_init` on a manager that is not initialised either ends initialised with an event
  -- group, or fails; then nothing is set up, or the event group was refused and all else is as it was.
  init_outcome :
      m.wifi.initialized ≡ false
      → (is_ok (init env m).0 ≡ true
          → ((init env m).1.wifi.initialized ≡ true) × ((init env m).1.wifi.event_group ≢ none))
        × (is_ok (init env m).0 ≡ false
            → ((init env m).1.wifi ≡ zero_state)
              ⊎ ((init env m).1.wifi ≡ record m.wifi { event_group = none }))
  init_outcome h = elim (Bool-cases (is_some group)) [
    | inl g ↦ let done = init-Settled h g in grind arith
    | inr g ↦ let done = init-refused h g in grind arith
  ]

  init-WifiInv : WifiInv m.wifi → WifiInv (init env m).1.wifi
  init-WifiInv v = elim (Bool-cases m.wifi.initialized) [
    | inl already ↦ kept already
    | inr h ↦ elim (Bool-cases (is_some group)) [
      | inl g ↦ let done = init-Settled h g in grind arith
      | inr g ↦ let done = init-refused h g in grind arith
    ]
  ]
    where
      kept : m.wifi.initialized ≡ true → WifiInv (init env m).1.wifi
      kept h = unfold init in ground arith

  init-initialized : is_ok (init env m).0 ≡ true → (init env m).1.wifi.initialized ≡ true
  init-initialized e = elim (Bool-cases m.wifi.initialized) [
    | inl already ↦ kept already
    | inr h ↦ ((init_outcome h).0 e).0
  ]
    where
      kept : m.wifi.initialized ≡ true → (init env m).1.wifi.initialized ≡ true
      kept h = unfold init in ground arith

  start-WifiInv : WifiInv m.wifi → WifiInv (start env m).1.wifi
  unfolding start
  start-WifiInv v = grind (arith, init-WifiInv, init-initialized)

-- A turn of the manager: an event, its timer, or one of its operations.
pub data WifiStep (env : Env) : Machine → Machine → Type 0 where
  event : (e : WifiEvent) (m : Machine) → WifiStep env m (event_handler env e m).1
  timer : (m : Machine) → WifiStep env m (reconnect_timer_callback env m).1
  set_up : (m : Machine) → WifiStep env m (init env m).1
  power_on : (m : Machine) → WifiStep env m (start env m).1
  simulate : (d : ℕ) (m : Machine) → WifiStep env m (simulate_disconnect env d m).1
  resume : (m : Machine) → WifiStep env m (resume_simulated_disconnect env m).1

-- The states that the manager comes to from the zero state.
pub data WifiReach (env : Env) : Machine → Type 0 where
  boot : (m : Machine) → m.wifi ≡ zero_state → WifiReach env m
  next : {m n : Machine} → WifiReach env m → WifiStep env m n → WifiReach env n

module _ (env : Env) where
  WifiStep-WifiInv : {m n : Machine} → WifiStep env m n → WifiInv m.wifi → WifiInv n.wifi
  unfolding reconnect_timer_callback
  WifiStep-WifiInv (event e m) v = event_handler-WifiInv env e m v
  WifiStep-WifiInv (timer m) v = ground arith
  WifiStep-WifiInv (set_up m) v = init-WifiInv env m v
  WifiStep-WifiInv (power_on m) v = start-WifiInv env m v
  WifiStep-WifiInv (simulate d m) v = simulate_disconnect-WifiInv env d m v
  WifiStep-WifiInv (resume m) v = resume-WifiInv env m v

  -- From the zero state on, whatever the order of events and calls: an address comes only with a
  -- link and is 0 without, a started manager is initialised, an initialised one has an event group,
  -- and reconnecting is held back just while a disconnect is simulated.
  pub WifiReach-WifiInv : {m : Machine} → WifiReach env m → WifiInv m.wifi
  WifiReach-WifiInv (boot m e) = ground arith
  WifiReach-WifiInv (next r s) = WifiStep-WifiInv s (WifiReach-WifiInv r)
