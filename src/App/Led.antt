-- ===== src/App/Led.antt =====
-- main/app_main.c: the status LED.
use esp32_sparkplug.Prelude.{ℕ, ◌+◌, ltb, leb, Bool, true, false, ◌&&◌, if◌then◌else◌}
use esp32_sparkplug.Esp.{EspErr}
use esp32_sparkplug.Device.{DeviceCall}
use esp32_sparkplug.Wifi.Manager.{has_ip}
use esp32_sparkplug.App.State.{AppState, LedMode, LedState, mode_off, pulse, slow_blink, mode_on}
use esp32_sparkplug.Board.{Devices, BoardAct, ◌>>=◌, ◌>>◌, pure, get, perform, on_node, on_ok, call}

abbrev pub interval_ms : ℕ
interval_ms = 50

abbrev pub pulse_period_ms : ℕ
pulse_period_ms = 500

abbrev pub pulse_on_ms : ℕ
pulse_on_ms = 100

abbrev pub slow_blink_period_ms : ℕ
slow_blink_period_ms = 2000

abbrev pub slow_blink_on_ms : ℕ
slow_blink_on_ms = 1000

-- The level of the pin for a lit or a dark LED.
unfoldable pub led_level : Bool → Bool → ℕ
led_level active_high on = if active_high then (if on then 1 else 0) else (if on then 0 else 1)

-- The mode, by the two flags and the address.
unfoldable pub led_mode : AppState → Bool → LedMode
led_mode s up =
    if s.mqtt_connected && s.waiting_for_primary_host
    then slow_blink
    else if s.mqtt_connected
    then mode_on
    else if up
    then pulse
    else mode_off

abbrev pub same_mode : LedMode → LedMode → Bool
same_mode mode_off mode_off = true
same_mode pulse pulse = true
same_mode slow_blink slow_blink = true
same_mode mode_on mode_on = true
same_mode _ _ = false

-- A new mode starts its period again.
abbrev pub enter_mode : LedMode → LedState → LedState
enter_mode mode s =
    if same_mode mode s.previous_mode
    then (record s { mode = mode })
    else (record { mode = mode; previous_mode = mode; pulse_elapsed_ms = 0 })

-- Whether the LED is lit in this round.
unfoldable pub is_lit : LedState → Bool
is_lit s = elim s.mode [
  | mode_on ↦ true
  | slow_blink ↦ ltb s.pulse_elapsed_ms slow_blink_on_ms
  | pulse ↦ ltb s.pulse_elapsed_ms pulse_on_ms
  | mode_off ↦ false
]

abbrev pub advance : ℕ → ℕ → ℕ
advance period elapsed = if leb period (elapsed + interval_ms) then 0 else elapsed + interval_ms

-- The counter after a round.
unfoldable pub after_round : LedState → LedState
after_round s = elim s.mode [
  | mode_on ↦ s
  | slow_blink ↦ (record s { pulse_elapsed_ms = advance slow_blink_period_ms s.pulse_elapsed_ms })
  | pulse ↦ (record s { pulse_elapsed_ms = advance pulse_period_ms s.pulse_elapsed_ms })
  | mode_off ↦ s
]

-- `app_status_led_task` before its loop.
abbrev pub led_start : LedState
led_start = record { mode = mode_off; previous_mode = mode_off; pulse_elapsed_ms = 0 }

module _ (dev : Devices) where
  -- The code is what `ESP_ERROR_CHECK` looks at.
  unfoldable pub set_status_led : Bool → BoardAct EspErr
  unfolding led_level
  set_status_led on =
      call dev (DeviceCall.gpio_set_level (led_level dev.env.config.status_led.active_high on))

  -- `app_initialize_status_led`.
  unfoldable pub initialize_status_led : BoardAct EspErr
  initialize_status_led = on_ok (call dev DeviceCall.gpio_config) (set_status_led false)

  -- One round of `app_status_led_task`.
  unfoldable pub led_round : LedState → BoardAct (EspErr × LedState)
  unfolding led_mode is_lit after_round
  led_round s = do
    app ← get (λ b. b.app)
    up ← on_node (has_ip dev.env)
    let now = enter_mode (led_mode app up) s
    err ← set_status_led (is_lit now)
    perform DeviceCall.delay_until
    pure (err, after_round now)
