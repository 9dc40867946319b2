-- ===== src/Testbed.antt =====
-- A concrete environment for the examples: an encoder, a clock, a float unit and an MQTT client that
-- answer plainly. None of them is the firmware's.
pub mod Boards
use esp32_sparkplug.Prelude.{
  ℕ, ◌+◌, ◌++◌, pos, true, false, Option, none, some, [], ◌∷◌, Bytes, codes, length, take, drop,
  leb, if◌then◌else◌,
}
use esp32_sparkplug.Esp.{EspErr}
use esp32_sparkplug.AppConfig.{AppConfig, app_config}
use esp32_sparkplug.Node.Nanopb.{Nanopb, OutStream, Field, Encoder, MetricUnion}
use esp32_sparkplug.Session.State.{Cmd}
use esp32_sparkplug.Platform.{Env, FloatUnit, Trace, Call}

abbrev pub put : Bytes → OutStream → OutStream
put bytes stream = record stream { written = stream.written ++ bytes }

abbrev pub run_encoder : Option Encoder → OutStream → Field → Option OutStream
run_encoder none stream field = some stream
run_encoder (some f) stream field = f stream field

-- The stream as it was handed over, unless it is over-full.
abbrev pub within : ℕ → Option OutStream → Option OutStream
within size none = none
within size (some out) = if leb (length out.written) size then some out else none

abbrev pub read_exactly : Bytes → ℕ → Option (Bytes × Bytes)
read_exactly s n = if leb n (length s) then some (take n s, drop n s) else none

abbrev pub test_nanopb : Nanopb
test_nanopb = record {
  encode_tag_for_field = λ stream field. some (put (field ∷ []) stream);
  encode_string = λ stream text. some (put text stream);
  encode_submessage = λ stream metric. run_encoder metric.name (put (metric.alias ∷ []) stream) 1;
  encode = λ stream payload.
      within stream.max_size (run_encoder payload.metrics (put (payload.seq ∷ []) stream) 2);
  read = read_exactly;
  decode_metric = λ f bytes state. (
    (f bytes state).0,
    record { has_alias = false; alias = 0; value = MetricUnion.boolean_value true },
    (f bytes state).1,
  );
  decode_payload = λ f bytes flag. f bytes flag;
}

abbrev pub test_float : FloatUnit
test_float = record {
  add = λ a b. a + b;
  sub = λ a b. a;
  mul = λ a b. a;
  div = λ a b. a;
  fabsf = λ a. a;
  sinf = λ a. 0;
  of_int = λ a. 1;
  ge = λ a b. leb b a;
}

-- The command that was sent last, unless the queue has been read since.
abbrev pub newest : Trace → Option Cmd
newest [] = none
newest (Call.queue_send cmd ∷ t) = some cmd
newest (Call.queue_receive n ∷ t) = none
newest (_ ∷ t) = newest t

-- A node without a primary host.
abbrev pub test_config : AppConfig
test_config = record (app_config (codes "n1")) {
  sparkplug = record (app_config (codes "n1")).sparkplug { primary_host_id = none };
}

abbrev pub test_env : Env
test_env = record {
  config = test_config;
  nanopb = test_nanopb;
  float = test_float;
  esp_timer_get_time = λ t. pos 5000000;
  gettimeofday = λ t. (pos 7, pos 0);
  pd_ms_to_ticks = λ ms. ms;
  port_max_delay = 4294967295;
  queue_create = λ t. some 1;
  task_create = λ t. true;
  queue_send = λ t cmd n. true;
  queue_receive = λ t n. newest t;
  mqtt_over_ssl_scheme = codes "mqtts";
  mqtt_over_wss_scheme = codes "wss";
  mqtt_client_init = λ t config. some 9;
  mqtt_client_register_event = λ t client. EspErr.esp_ok;
  mqtt_client_start = λ t client. EspErr.esp_ok;
  mqtt_client_publish = λ t client topic payload. pos 0;
  mqtt_client_subscribe = λ t client topic. pos 3;
  wifi_result = λ t c. EspErr.esp_ok;
  wifi_handle = λ t c. some 2;
  wifi_bit = λ t c. true;
  wifi_rssi = λ t. pos 0;
}
