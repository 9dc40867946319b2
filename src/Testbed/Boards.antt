-- ===== src/Testbed/Boards.antt =====
-- Devices that answer plainly and remember what was stored, and a board on which nothing has run. None
-- of them is the firmware's.
use esp32_sparkplug.Prelude.{
  ℕ, ◌+◌, ◌%◌, ◌^◌, ℤ, pos, Bool, true, false, Option, none, some, is_some, [], ◌∷◌, CString, codes,
  if◌then◌else◌,
}
use esp32_sparkplug.Esp.{EspErr, esp_ok, err_nvs_not_found}
use esp32_sparkplug.Device.{DeviceCall, ResetReason}
use esp32_sparkplug.TimeSync.Invariant.{zero_time}
use esp32_sparkplug.Sensor.Tmp36.{zero_reading, zero_sensor}
use esp32_sparkplug.Console.Providers.{no_providers}
use esp32_sparkplug.Config.Storage.{Stored}
use esp32_sparkplug.Session.System.{zero_machine}
use esp32_sparkplug.Testbed.{test_env}
use esp32_sparkplug.Platform.{Trace, Call}
use esp32_sparkplug.Board.{Devices, Board}

-- The flash, all of whose calls succeed.
unfoldable pub flash : Trace → Stored
flash [] = record { written = none; committed = none }
flash (Call.device_call DeviceCall.nvs_open ∷ t) = record (flash t) {
  written = (flash t).committed;
}
flash (Call.device_call (DeviceCall.nvs_set_str nvs text) ∷ t) = record (flash t) {
  written = some text;
}
flash (Call.device_call (DeviceCall.nvs_erase_key nvs) ∷ t) = record (flash t) { written = none }
flash (Call.device_call (DeviceCall.nvs_commit nvs) ∷ t) = record (flash t) {
  committed = (flash t).written;
}
flash (_ ∷ t) = flash t

abbrev pub test_result : Trace → DeviceCall → EspErr
test_result t (DeviceCall.nvs_get_str nvs) =
    if is_some (flash t).written then esp_ok else err_nvs_not_found
test_result t _ = esp_ok

abbrev pub test_text : Trace → DeviceCall → Option CString
test_text t (DeviceCall.nvs_get_str nvs) = (flash t).written
test_text t _ = none

-- A clock on which only a wait for the time takes time.
unfoldable pub test_ticks : Trace → ℕ
test_ticks [] = 0
test_ticks (Call.device_call (DeviceCall.wait_ready_bit g w) ∷ t) = test_ticks t + w
test_ticks (_ ∷ t) = test_ticks t

-- The bit for the time is never set; all else is granted.
abbrev pub test_bit : DeviceCall → Bool
test_bit (DeviceCall.wait_ready_bit g w) = false
test_bit _ = true

abbrev pub test_number : DeviceCall → ℤ
test_number DeviceCall.esp_random = pos 48879
test_number _ = pos 750

abbrev pub test_devices : Devices
test_devices = record {
  env = test_env;
  result = test_result;
  handle = λ t c. some 4;
  bit = λ t c. test_bit c;
  number = λ t c. test_number c;
  tick_count = λ t. test_ticks t % 2 ^ 32;
  meanwhile = λ t s. s;
  text = test_text;
  curve_fitting_supported = true;
  line_fitting_supported = false;
  identity = record {
    project_name = codes "node";
    version = codes "1";
    idf_ver = codes "5";
    target = codes "esp32s3";
    cores = 2;
    revision = 1;
    reset_reason = ResetReason.poweron;
  };
  esp_err_to_name = λ err. codes "ESP_FAIL";
  two_decimals = λ x. codes "25.00";
  null_text = codes "(null)";
}

abbrev pub test_board : Board
test_board = record {
  node = zero_machine;
  time = zero_time;
  sensor = zero_sensor;
  config = record { node_id = none; node_id_buf = [] };
  console = record {
    repl = none;
    initialized = false;
    started = false;
    commands_registered = false;
    providers = no_providers;
  };
  app = record {
    snapshot = record { valid = false; reading = zero_reading; sample_time_ms = pos 0 };
    mqtt_connected = false;
    waiting_for_primary_host = false;
  };
}
