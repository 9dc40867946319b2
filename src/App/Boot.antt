-- ===== src/App/Boot.antt =====
-- main/app_main.c: `app_main` comes to its end only with everything up.
use esp32_sparkplug.Prelude.{
  ℕ, ◌^◌, ◌-◌, ◌≡◌, refl, Bool, true, false, Option, none, some, is_some, if◌then◌else◌, arith,
}
use esp32_sparkplug.Esp.{EspErr, is_ok}
use esp32_sparkplug.Device.{DeviceCall}
use esp32_sparkplug.TimeSync.Service
use esp32_sparkplug.TimeSync.Wait.{wait_ready}
use esp32_sparkplug.Config.NodeId
use esp32_sparkplug.Sensor.Tmp36
use esp32_sparkplug.Wifi.Manager
use esp32_sparkplug.Wifi.Manager.{wait_connected}
use esp32_sparkplug.App.Led.{initialize_status_led, set_status_led}
use esp32_sparkplug.App.Main.{
  Boot, initialize_nvs, create_task, time_config, bring_up_link, first_reading, initialize_console,
  bring_up_node, boot_of, after_wait, app_main,
}
use esp32_sparkplug.App.Status.{app_providers}
use esp32_sparkplug.App.Stages.{
  Ensures, on_ok-Ensures, Named, Linked, Timed, Sensing, Connected, NodeId_init-Named,
  Manager_start-Linked, wait_connected-Linked,
}
use esp32_sparkplug.App.ClockStage.{Service_start-Timed, wait_ready-Timed}
use esp32_sparkplug.App.NodeStage.{Tmp36_init-Sensing, first_reading-Connected}
use esp32_sparkplug.App.ConsoleStage.{Complete, initialize_console-Complete}
use esp32_sparkplug.Board.{Devices, Board, BoardAct, on_ok, pure, on_node, call}

abbrev Anything : Board → Type 0
Anything b = Unit {0}

module _ (dev : Devices) where
  -- Two steps, the first of which leaves a predicate alone.
  past :
      (P R : Board → Type 0) (first next : BoardAct EspErr)
      → ((b : Board) → P b → P (first b).1)
      → Ensures P R next
      → Ensures P R (on_ok first next)
  past P R first next k = on_ok-Ensures P P R first next (λ b p ok. k b p)

  initialize_status_led-Named : (b : Board) → Named b → Named (initialize_status_led dev b).1
  unfolding initialize_status_led set_status_led
  initialize_status_led-Named b p = ground arith

  Manager_init-Named : (b : Board) → Named b → Named (on_node (Manager.init dev.env) b).1
  Manager_init-Named b p = p

  -- The rest of `bring_up_link` behind each of its steps.
  abbrev clock : BoardAct EspErr
  clock =
      on_ok (on_node (wait_connected dev.env (2 ^ 32 - 1)))
        (Service.start dev (some (time_config dev)))

  abbrev radio : BoardAct EspErr
  radio = on_ok (on_node (Manager.start dev.env)) clock

  abbrev from_wifi : BoardAct EspErr
  from_wifi = on_ok (on_node (Manager.init dev.env)) radio

  abbrev from_led_task : BoardAct EspErr
  from_led_task = on_ok (create_task dev DeviceCall.led_task_create) from_wifi

  abbrev from_led : BoardAct EspErr
  from_led = on_ok (initialize_status_led dev) from_led_task

  abbrev from_events : BoardAct EspErr
  from_events = on_ok (call dev DeviceCall.event_loop_create) from_led

  abbrev from_netif : BoardAct EspErr
  from_netif = on_ok (call dev DeviceCall.netif_init) from_events

  abbrev from_node_id : BoardAct EspErr
  from_node_id = on_ok (NodeId.init dev) from_netif

  radio-Timed : Ensures Named Timed radio
  radio-Timed =
      on_ok-Ensures Named Linked Timed (on_node (Manager.start dev.env)) clock
        (Manager_start-Linked dev)
        (on_ok-Ensures Linked Linked Timed (on_node (wait_connected dev.env (2 ^ 32 - 1)))
          (Service.start dev (some (time_config dev))) (wait_connected-Linked dev (2 ^ 32 - 1))
          (Service_start-Timed dev (time_config dev)))

  from_led-Timed : Ensures Named Timed from_led
  from_led-Timed =
      past Named Timed (initialize_status_led dev) from_led_task initialize_status_led-Named (
        past Named Timed (create_task dev DeviceCall.led_task_create) from_wifi (λ b p. p)
          (past Named Timed (on_node (Manager.init dev.env)) radio Manager_init-Named radio-Timed))

  from_netif-Timed : Ensures Named Timed from_netif
  from_netif-Timed =
      past Named Timed (call dev DeviceCall.netif_init) from_events (λ b p. p)
        (past Named Timed (call dev DeviceCall.event_loop_create) from_led (λ b p. p)
          from_led-Timed)

  bring_up_link-Timed : Ensures Anything Timed (bring_up_link dev)
  unfolding bring_up_link
  bring_up_link-Timed =
      past Anything Timed (initialize_nvs dev) from_node_id (λ b p. p)
        (on_ok-Ensures Anything Named Timed (NodeId.init dev) from_netif (NodeId_init-Named dev)
          from_netif-Timed)

  -- The rest of `bring_up_node` behind its first two steps.
  abbrev from_console : BoardAct EspErr
  from_console = on_ok (initialize_console dev) (create_task dev DeviceCall.sensor_task_create)

  abbrev from_reading : BoardAct EspErr
  from_reading = on_ok (first_reading dev) from_console

  bring_up_node-Complete : Ensures Timed Complete (bring_up_node dev)
  unfolding bring_up_node
  bring_up_node-Complete =
      on_ok-Ensures Timed Sensing Complete (Tmp36.init dev) from_reading (Tmp36_init-Sensing dev) (
        on_ok-Ensures Sensing Connected Complete (first_reading dev) from_console
          (first_reading-Connected dev)
          (on_ok-Ensures Connected Complete Complete (initialize_console dev)
            (create_task dev DeviceCall.sensor_task_create) (initialize_console-Complete dev)
            (λ b p ok. p)))

  booted : (err : EspErr) → boot_of dev err ≡ Boot.started → is_ok err ≡ true
  booted err h = ground arith

  after_wait-Complete :
      (ready : Option EspErr) (b : Board)
      → ((err : EspErr) → ready ≡ some err → is_ok err ≡ true → Timed b)
      → (after_wait dev ready b).0 ≡ Boot.started
      → Complete (after_wait dev ready b).1
  after_wait-Complete none b t = λ h. ground arith
  after_wait-Complete (some err) b t = cases (is_ok err) refl
    where
      node_then_boot : BoardAct Boot
      node_then_boot c = (boot_of dev (bring_up_node dev c).0, (bring_up_node dev c).1)

      cases :
          (c : Bool)
          → is_ok err ≡ c
          → ((if c then node_then_boot else pure (Boot.aborted err)) b).0 ≡ Boot.started
          → Complete ((if c then node_then_boot else pure (Boot.aborted err)) b).1
      cases true e h = bring_up_node-Complete b (t err refl e) (booted (bring_up_node dev b).0 h)
      cases false e h = ground arith

  app_main-Complete :
      (rounds : ℕ) (b : Board)
      → (app_main dev rounds b).0 ≡ Boot.started
      → Complete (app_main dev rounds b).1
  unfolding app_main
  app_main-Complete rounds b = cases (is_ok (bring_up_link dev b).0) refl
    where
      linked : Board
      linked = (bring_up_link dev b).1

      ready : Option EspErr × Board
      ready = wait_ready dev rounds dev.env.config.time.sync_wait_timeout_ms linked

      wait_then_node : BoardAct Boot
      wait_then_node c =
          after_wait dev (wait_ready dev rounds dev.env.config.time.sync_wait_timeout_ms c).0
            (wait_ready dev rounds dev.env.config.time.sync_wait_timeout_ms c).1

      failed : Boot
      failed = Boot.aborted (bring_up_link dev b).0

      cases :
          (c : Bool)
          → is_ok (bring_up_link dev b).0 ≡ c
          → ((if c then wait_then_node else pure failed) linked).0 ≡ Boot.started
          → Complete ((if c then wait_then_node else pure failed) linked).1
      cases true e h =
          after_wait-Complete ready.0 ready.1
            (λ err r ok.
              wait_ready-Timed dev rounds dev.env.config.time.sync_wait_timeout_ms err linked
                (bring_up_link-Timed b tt e) r ok)
            h
      cases false e h = ground arith

  -- `app_main` comes to its end only where everything is up, from whatever state and whatever the
  -- calls below it answer: a node id is set, the radio, the clock service and the sensor are started,
  -- the session is initialised, and the console runs with the application's providers.
  pub app_main_started :
      (rounds : ℕ) (b : Board)
      → (app_main dev rounds b).0 ≡ Boot.started
      → (is_some (app_main dev rounds b).1.config.node_id ≡ true)
        × ((app_main dev rounds b).1.node.wifi.started ≡ true)
        × ((app_main dev rounds b).1.time.started ≡ true)
        × ((app_main dev rounds b).1.sensor.initialized ≡ true)
        × ((app_main dev rounds b).1.node.session.initialized ≡ true)
        × ((app_main dev rounds b).1.console.providers ≡ app_providers)
        × ((app_main dev rounds b).1.console.started ≡ true)
  app_main_started rounds b h = let c = app_main-Complete rounds b h in ground arith
