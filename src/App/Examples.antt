-- ===== src/App/Examples.antt =====
-- The theorems about the application at concrete inputs.
use esp32_sparkplug.Prelude.{
  snprintf_text, ◌≡◌, refl, Bool, true, inr, some, is_some, List, [], ◌∷◌, CString, codes,
  if◌then◌else◌,
}
use esp32_sparkplug.Device.{DeviceCall}
use esp32_sparkplug.Wifi.Manager.{has_ip}
use esp32_sparkplug.Session.System.{zero_session}
use esp32_sparkplug.App.State.{pulse}
use esp32_sparkplug.App.Led.{
  initialize_status_led, set_status_led, led_level, led_mode, led_start, led_round,
}
use esp32_sparkplug.App.Blink.{shows, led_after, led_pattern}
use esp32_sparkplug.Config.NodeId
use esp32_sparkplug.Config.NodeId.{load_id, store_new_id, generate_node_id, generated_id, hex_onto}
use esp32_sparkplug.Wifi.Manager
use esp32_sparkplug.Wifi.Manager.{bring_up, wait_connected}
use esp32_sparkplug.TimeSync.{now_ms}
use esp32_sparkplug.TimeSync.Service
use esp32_sparkplug.TimeSync.Service.{lock, unlock, lock_and_run, is_valid, is_valid_epoch}
use esp32_sparkplug.TimeSync.Wait.{wait_ready, poll_rounds, poll, wait_then, settle}
use esp32_sparkplug.Sensor.Tmp36
use esp32_sparkplug.Sensor.Tmp36.{create_calibration, read, read_average_raw, sum_samples}
use esp32_sparkplug.Session.State.{force_publish, force_rebirth, set_disconnect_sim}
use esp32_sparkplug.Session.Events.{plain_cmd}
use esp32_sparkplug.Session.Api
use esp32_sparkplug.Session.Api.{finish_init, submit_temperature, session_start, queue_or_timeout}
use esp32_sparkplug.Session.Client.{prepare_topics, prepare_topic}
use esp32_sparkplug.Session.Status.{
  set_last_message, refresh_status, set_status_callback, queue_command,
}
use esp32_sparkplug.Node.Topics.{build_topic, topic_type_suffix, write_text, topic_text}
use esp32_sparkplug.AppConfig.{app_config}
use esp32_sparkplug.Console.Providers.{set_providers}
use esp32_sparkplug.Console.Repl
use esp32_sparkplug.Console.Repl.{register_commands_once, register_all, register_command, commands}
use esp32_sparkplug.App.Callback.{on_session, newest_status}
use esp32_sparkplug.App.Main.{
  Boot, initialize_nvs, initialize_console, bring_up_link, bring_up_node, app_main,
}
use esp32_sparkplug.App.Boot.{app_main_started}
use esp32_sparkplug.App.Status.{provider_code, app_providers}
use esp32_sparkplug.App.Requests.{Ready, Queues, Refuses, console_requests}
use esp32_sparkplug.Console.Commands.{cmd_publish, cmd_rebirth, cmd_disconnect_sim}
use esp32_sparkplug.Testbed.Boards.{flash, test_ticks, test_devices, test_board}
use esp32_sparkplug.Platform.{Call}
use esp32_sparkplug.Board.{Devices, Board}

-- A board with an address and no broker.
abbrev addressed : Board
addressed = record test_board {
  node = record test_board.node {
    wifi = record test_board.node.wifi { connected = true; has_ip = true; ipv4_addr = 1 };
  };
}

asks_for_pulse : led_mode addressed.app (has_ip test_devices.env addressed.node).0 ≡ pulse
unfolding led_mode has_ip
asks_for_pulse = refl

led_pattern_example :
    (led_round test_devices
      (led_after test_devices (λ k. addressed) led_start 7)
      addressed).1.node.trace
    ≡ Call.device_call DeviceCall.delay_until
      ∷ (Call.device_call (
            DeviceCall.gpio_set_level
              (led_level test_devices.env.config.status_led.active_high (shows pulse 7)))
          ∷ (has_ip test_devices.env addressed.node).1.trace)
led_pattern_example =
    led_pattern test_devices pulse (λ k. addressed) led_start 7 (inr refl) (λ k. asks_for_pulse)

-- Devices whose clock is right from the start.
abbrev timely : Devices
timely = record test_devices { bit = λ t c. true }

boots : (app_main timely 2 test_board).0 ≡ Boot.started
unfolding app_main bring_up_link initialize_nvs NodeId.init load_id store_new_id generate_node_id
    generated_id hex_onto flash initialize_status_led set_status_led led_level Manager.init bring_up
    Manager.start wait_connected Service.start lock unlock lock_and_run is_valid is_valid_epoch
    wait_ready poll_rounds poll wait_then settle test_ticks bring_up_node Tmp36.init
    create_calibration read read_average_raw sum_samples now_ms on_session newest_status Api.init
    finish_init set_last_message refresh_status prepare_topics prepare_topic build_topic
    set_status_callback submit_temperature session_start queue_or_timeout queue_command
    initialize_console Repl.init register_commands_once register_all register_command commands
    set_providers Repl.start app_config snprintf_text topic_type_suffix write_text topic_text
boots = refl

app_main_started_example :
    (is_some (app_main timely 2 test_board).1.config.node_id ≡ true)
    × ((app_main timely 2 test_board).1.node.wifi.started ≡ true)
    × ((app_main timely 2 test_board).1.time.started ≡ true)
    × ((app_main timely 2 test_board).1.sensor.initialized ≡ true)
    × ((app_main timely 2 test_board).1.node.session.initialized ≡ true)
    × ((app_main timely 2 test_board).1.console.providers ≡ app_providers)
    × ((app_main timely 2 test_board).1.console.started ≡ true)
app_main_started_example = app_main_started timely 2 test_board boots

-- A board on which the session and the console are up.
abbrev served : Board
served = record test_board {
  node = record test_board.node {
    session = record zero_session { initialized = true; queue = some 1 };
  };
  console = record test_board.console { providers = app_providers };
}

served-Ready : Ready test_devices served
served-Ready = record { queue = 1; queued = refl; initialized = refl; wired = refl }

console_requests_example :
    Queues test_devices
      (plain_cmd force_publish)
      (cmd_publish test_devices (provider_code test_devices) (codes "publish" ∷ []))
      served
    × Queues test_devices
        (plain_cmd force_rebirth)
        (cmd_rebirth test_devices (provider_code test_devices) (codes "rebirth" ∷ []))
        served
    × ((enabled : Bool)
        → Queues test_devices
            (record (plain_cmd set_disconnect_sim) { enabled = enabled })
            (cmd_disconnect_sim test_devices
              (provider_code test_devices)
              (codes "disconnect_sim" ∷ ((if enabled then codes "on" else codes "off") ∷ [])))
            served)
    × ((name word : CString) (words : List CString)
        → Refuses test_devices
            (cmd_publish test_devices (provider_code test_devices) (name ∷ (word ∷ words)))
            served
          × Refuses test_devices
              (cmd_rebirth test_devices (provider_code test_devices) (name ∷ (word ∷ words)))
              served
          × ((more : CString)
              → Refuses test_devices
                  (cmd_disconnect_sim test_devices
                    (provider_code test_devices)
                    (name ∷ (word ∷ (more ∷ words))))
                  served))
console_requests_example = console_requests test_devices served served-Ready
