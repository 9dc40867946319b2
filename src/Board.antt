-- ===== src/Board.antt =====
-- The whole firmware's static state and environment. `Board` adds to `Machine` the state of the
-- components beside the session and the Wi-Fi manager; `Devices` adds to `Env` the answers to their
-- calls, each a function of the history before it; `BoardAct` is a C function that runs on the board.
use esp32_sparkplug.Prelude.{ℕ, ℤ, Bool, Option, ◌∷◌, CString, if◌then◌else◌}
use esp32_sparkplug.Esp.{EspErr, is_ok}
use esp32_sparkplug.Device.{DeviceCall, Identity}
use esp32_sparkplug.TimeSync.State.{TimeState}
use esp32_sparkplug.Sensor.State.{SensorState}
use esp32_sparkplug.Config.State.{ConfigState}
use esp32_sparkplug.Console.State.{ConsoleState}
use esp32_sparkplug.App.State.{AppState}
use esp32_sparkplug.Platform.{Env, Machine, Act, Trace, Call}

pub record Devices : Type 0 where
  pub env : Env
  pub result : Trace → DeviceCall → EspErr
  pub handle : Trace → DeviceCall → Option ℕ
  pub bit : Trace → DeviceCall → Bool
  pub number : Trace → DeviceCall → ℤ
  -- `xTaskGetTickCount`, and what other tasks have done to the time service while a call blocked.
  pub tick_count : Trace → ℕ
  pub meanwhile : Trace → TimeState → TimeState
  pub text : Trace → DeviceCall → Option CString
  -- What the build defines: the calibration schemes that the chip supports.
  pub curve_fitting_supported : Bool
  pub line_fitting_supported : Bool
  pub identity : Identity
  -- `esp_err_to_name`, `printf`'s "%.2f", and what its "%s" makes of NULL.
  pub esp_err_to_name : EspErr → CString
  pub two_decimals : ℕ → CString
  pub null_text : CString

pub record Board : Type 0 where
  pub node : Machine
  pub time : TimeState
  pub sensor : SensorState
  pub config : ConfigState
  pub console : ConsoleState
  pub app : AppState

abbrev pub BoardAct : Type 0 → Type 0
BoardAct A = Board → A × Board

infixl 5 ◌>>=◌ ◌>>◌
abbrev pub ◌>>=◌ : {A B : Type 0} → BoardAct A → (A → BoardAct B) → BoardAct B
◌>>=◌ m f b = f (m b).0 (m b).1

abbrev pub ◌>>◌ : {B : Type 0} → BoardAct (Unit {0}) → BoardAct B → BoardAct B
◌>>◌ m k b = k (m b).1

abbrev pub log : DeviceCall → Board → Board
log c b = record b { node = record b.node { trace = Call.device_call c ∷ b.node.trace } }

module _ {A : Type 0} where
  abbrev pub pure : A → BoardAct A
  pure a b = (a, b)

  -- A call that answers with `f` of the history before it.
  abbrev pub ask : DeviceCall → (Trace → A) → BoardAct A
  ask c f b = (f b.node.trace, log c b)

  -- A field of the board.
  abbrev pub get : (Board → A) → BoardAct A
  get f b = (f b, b)

abbrev pub perform : DeviceCall → BoardAct (Unit {0})
perform c b = (tt, log c b)

abbrev pub modify : (Board → Board) → BoardAct (Unit {0})
modify f b = (tt, f b)

abbrev pub modify_time : (TimeState → TimeState) → BoardAct (Unit {0})
modify_time f b = (tt, record b { time = f b.time })

abbrev pub modify_sensor : (SensorState → SensorState) → BoardAct (Unit {0})
modify_sensor f b = (tt, record b { sensor = f b.sensor })

abbrev pub modify_console : (ConsoleState → ConsoleState) → BoardAct (Unit {0})
modify_console f b = (tt, record b { console = f b.console })

abbrev pub modify_app : (AppState → AppState) → BoardAct (Unit {0})
modify_app f b = (tt, record b { app = f b.app })

abbrev pub when : Bool → BoardAct (Unit {0}) → BoardAct (Unit {0})
when c act = if c then act else pure tt

abbrev pub ignore : {A : Type 0} → BoardAct A → BoardAct (Unit {0})
ignore act b = (tt, (act b).1)

-- Go on only if the call succeeds, and end with its code otherwise.
abbrev pub on_ok : BoardAct EspErr → BoardAct EspErr → BoardAct EspErr
on_ok first next b = if is_ok (first b).0 then next (first b).1 else ((first b).0, (first b).1)

-- A function that runs on the session's and the Wi-Fi manager's state alone.
abbrev pub on_node : {A : Type 0} → Act A → BoardAct A
on_node act b = ((act b.node).0, record b { node = (act b.node).1 })

module _ (dev : Devices) where
  abbrev pub call : DeviceCall → BoardAct EspErr
  call c = ask c (λ t. dev.result t c)

  abbrev pub handle_of : DeviceCall → BoardAct (Option ℕ)
  handle_of c = ask c (λ t. dev.handle t c)

  abbrev pub bit_of : DeviceCall → BoardAct Bool
  bit_of c = ask c (λ t. dev.bit t c)

  abbrev pub number_of : DeviceCall → BoardAct ℤ
  number_of c = ask c (λ t. dev.number t c)
