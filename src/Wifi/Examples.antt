-- ===== src/Wifi/Examples.antt =====
-- The theorems about the Wi-Fi manager at concrete inputs.
use esp32_sparkplug.Esp.{EspErr}
use esp32_sparkplug.Wifi.State.{WifiCall}
use esp32_sparkplug.Wifi.Release.{Owns, held, nothing, init_releases}
use esp32_sparkplug.Platform.{Env, Trace}
use esp32_sparkplug.Prelude.{◌≡◌, ◌≢◌, refl, true, false, some, none}
use esp32_sparkplug.Esp.{is_ok}
use esp32_sparkplug.Wifi.Manager.{
  zero_state, WifiEvent, init, start, event_handler, simulate_disconnect,
}
use esp32_sparkplug.Wifi.Invariant.{WifiInv, WifiStep, WifiReach, WifiReach-WifiInv}
use esp32_sparkplug.Session.System.{zero_machine}
use esp32_sparkplug.Platform.{Machine}
use esp32_sparkplug.Testbed.{test_env}

abbrev powered : Machine
powered = (start test_env zero_machine).1

abbrev addressed : Machine
addressed = (event_handler test_env (WifiEvent.got_ip (some 42)) powered).1

abbrev simulated : Machine
simulated = (simulate_disconnect test_env 90000 addressed).1

WifiReach-WifiInv_example : WifiInv simulated.wifi
WifiReach-WifiInv_example = WifiReach-WifiInv test_env (
    WifiReach.next
      (WifiReach.next
        (WifiReach.next (WifiReach.boot zero_machine refl) (WifiStep.power_on zero_machine))
        (WifiStep.event (WifiEvent.got_ip (some 42)) powered))
      (WifiStep.simulate 90000 addressed))

-- The radio's mode cannot be set.
abbrev modeless_result : Trace → WifiCall → EspErr
modeless_result t WifiCall.set_mode = EspErr.esp_fail
modeless_result t _ = EspErr.esp_ok

abbrev modeless : Env
modeless = record test_env { wifi_result = modeless_result }

holds_nothing : held modeless zero_machine.trace ≡ nothing
unfolding held
holds_nothing = refl

init_releases_example :
    (is_ok (init modeless zero_machine).0 ≡ true
      → Owns modeless (init modeless zero_machine).1
        × ((init modeless zero_machine).1.wifi.initialized ≡ true)
        × ((init modeless zero_machine).1.wifi.event_group ≢ none))
    × (is_ok (init modeless zero_machine).0 ≡ false
        → ((init modeless zero_machine).1.wifi ≡ zero_state)
          × (held modeless (init modeless zero_machine).1.trace ≡ nothing))
init_releases_example = init_releases modeless zero_machine refl holds_nothing
