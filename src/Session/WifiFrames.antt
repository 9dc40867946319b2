-- ===== src/Session/WifiFrames.antt =====
-- components/sparkplug_node/sparkplug_session.c: setting the Wi-Fi manager up and starting it leave
-- the session alone, and the broker hears nothing of them.
use esp32_sparkplug.Prelude.{
  ◌≡◌, ◌∷◌, Option, ℕ, Bool, true, false, refl, snprintf_text, if◌then◌else◌, arith,
}
use esp32_sparkplug.Esp.{EspErr, is_ok}
use esp32_sparkplug.Wifi.State.{WifiCall}
use esp32_sparkplug.Wifi.Manager.{cleanup_init_failure, or_cleanup, create_timer, bring_up}
use esp32_sparkplug.Wifi.Manager
use esp32_sparkplug.Session.Heard.{heard}
use esp32_sparkplug.Platform.{Env, Machine, Act, Call, ◌>>◌, pure, modify_wifi}

module _ (env : Env) where
  -- Nothing of the session, and nothing that the broker hears.
  abbrev Apart : Machine → Machine → Type 0
  Apart m n = (n.session ≡ m.session) × (heard env n.trace ≡ heard env m.trace)

  cleanup-Apart : (m : Machine) → Apart m (cleanup_init_failure env m).1
  unfolding cleanup_init_failure
  cleanup-Apart m = ground arith

  -- A call that was answered: go on, or undo what was set up.
  answered-Apart :
      (b : Bool) (err : EspErr) (next : Act EspErr) (m : Machine)
      → Apart m (next m).1
      → Apart m ((if b then next else (cleanup_init_failure env >> pure err)) m).1
  answered-Apart true err next m h = h
  answered-Apart false err next m h = cleanup-Apart m

  or_cleanup-Apart :
      (c : WifiCall) (next : Act EspErr)
      → ((n : Machine) → Apart n (next n).1)
      → (m : Machine) → Apart m (or_cleanup env c next m).1
  or_cleanup-Apart c next h m =
      answered-Apart (is_ok (Manager.call env c m).0) (Manager.call env c m).0 next
        (Manager.call env c m).1 (h (Manager.call env c m).1)

  create_timer-Apart :
      (next : Act EspErr)
      → ((n : Machine) → Apart n (next n).1)
      → (m : Machine) → Apart m (create_timer env next m).1
  create_timer-Apart next h m =
      answered-Apart (is_ok (env.wifi_result m.trace WifiCall.timer_create)) _
        (modify_wifi
            (λ s. record s { reconnect_timer = env.wifi_handle m.trace WifiCall.timer_create })
          >> next)
        asked (h _)
    where
      asked : Machine
      asked = record m { trace = Call.wifi_call WifiCall.timer_create ∷ m.trace }

  bring_up-Apart : (m : Machine) → Apart m (bring_up env m).1
  unfolding bring_up
  bring_up-Apart = or_cleanup-Apart WifiCall.wifi_init handlers (
      or_cleanup-Apart WifiCall.wifi_handler_register ip_handler (
        or_cleanup-Apart WifiCall.ip_handler_register storage (
          or_cleanup-Apart WifiCall.set_storage mode (
            or_cleanup-Apart WifiCall.set_mode timer (
              create_timer-Apart configure
                (or_cleanup-Apart configuration finish (λ n. (refl, refl))))))))
    where
      configuration : WifiCall
      configuration =
          WifiCall.set_config (snprintf_text 32 env.config.wifi.ssid)
            (snprintf_text 64 env.config.wifi.password)

      finish : Act EspErr
      finish = modify_wifi (λ s. record s { initialized = true }) >> pure EspErr.esp_ok

      configure : Act EspErr
      configure = or_cleanup env configuration finish

      timer : Act EspErr
      timer = create_timer env configure

      mode : Act EspErr
      mode = or_cleanup env WifiCall.set_mode timer

      storage : Act EspErr
      storage = or_cleanup env WifiCall.set_storage mode

      ip_handler : Act EspErr
      ip_handler = or_cleanup env WifiCall.ip_handler_register storage

      handlers : Act EspErr
      handlers = or_cleanup env WifiCall.wifi_handler_register ip_handler

  wifi_init-Apart : (m : Machine) → Apart m (Manager.init env m).1
  unfolding Manager.init
  wifi_init-Apart m = let up = bring_up-Apart asked in grind (arith, cleanup-Apart)
    where
      group : Option ℕ
      group = env.wifi_handle m.trace WifiCall.event_group_create

      netif : Option ℕ
      netif =
          env.wifi_handle (Call.wifi_call WifiCall.event_group_create ∷ m.trace)
            WifiCall.netif_create

      asked : Machine
      asked = record m {
        wifi = record m.wifi { event_group = group; sta_netif = netif };
        trace =
            Call.wifi_call WifiCall.netif_create
            ∷ (Call.wifi_call WifiCall.event_group_create ∷ m.trace);
      }

  wifi_start-Apart : (m : Machine) → Apart m (Manager.start env m).1
  unfolding Manager.start
  wifi_start-Apart m = grind (arith, wifi_init-Apart)

  pub wifi_init-session : (m : Machine) → (Manager.init env m).1.session ≡ m.session
  wifi_init-session m = (wifi_init-Apart m).0

  pub wifi_init-heard : (m : Machine) → heard env (Manager.init env m).1.trace ≡ heard env m.trace
  wifi_init-heard m = (wifi_init-Apart m).1

  pub wifi_start-session : (m : Machine) → (Manager.start env m).1.session ≡ m.session
  wifi_start-session m = (wifi_start-Apart m).0

  pub wifi_start-heard : (m : Machine) → heard env (Manager.start env m).1.trace ≡ heard env m.trace
  wifi_start-heard m = (wifi_start-Apart m).1
