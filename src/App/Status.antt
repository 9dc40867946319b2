-- ===== src/App/Status.antt =====
-- main/app_main.c: the functions that the application hands to the console. Their status pointer is
-- not NULL where the console calls them.
use esp32_sparkplug.Prelude.{
  ℕ, ◌/◌, ◌%◌, ◌==◌, pos, Bool, true, false, Option, none, some, [], ◌∷◌, CString, codes,
  snprintf_text, if◌then◌else◌,
}
use esp32_sparkplug.Prelude.Decimal.{dec, text_of}
use esp32_sparkplug.Esp.{EspErr, esp_ok, Pointer}
use esp32_sparkplug.TimeSync.State.{TimeStatus}
use esp32_sparkplug.TimeSync.Service
use esp32_sparkplug.Wifi.Manager
use esp32_sparkplug.Wifi.Manager.{WifiStatus}
use esp32_sparkplug.Session.State.{SessionStatus}
use esp32_sparkplug.Session.Status
use esp32_sparkplug.Session.Api.{request_publish, request_rebirth, set_disconnect_sim_enabled}
use esp32_sparkplug.App.State.{SensorSnapshot}
use esp32_sparkplug.App.Callback.{on_session}
use esp32_sparkplug.Console.State.{
  SensorStatus, LinkStatus, ClockStatus, MqttStatus, SparkplugStatus, Providers,
}
use esp32_sparkplug.Console.Providers.{ProviderCode}
use esp32_sparkplug.Board.{Devices, BoardAct, ◌>>=◌, pure, get, on_node}

abbrev pub zero_sensor_status : SensorStatus
zero_sensor_status = record {
  valid = false;
  sample_count = 0;
  raw_average = pos 0;
  calibrated_mv = pos 0;
  temperature_c = 0;
  last_sample_ms = pos 0;
}

unfoldable pub sensor_status_of : SensorSnapshot → SensorStatus
sensor_status_of s =
    if s.valid
    then (record {
      valid = true;
      sample_count = s.reading.sample_count;
      raw_average = s.reading.raw_average;
      calibrated_mv = s.reading.calibrated_mv;
      temperature_c = s.reading.temperature_c;
      last_sample_ms = s.sample_time_ms;
    })
    else zero_sensor_status

-- "%d.%d.%d.%d" of the address's bytes, the lowest first.
unfoldable pub ip_text : ℕ → CString
unfolding dec
ip_text a = text_of (
    dec (a % 256)
    ∷ (codes "."
        ∷ (dec (a / 256 % 256)
            ∷ (codes "."
                ∷ (dec (a / 65536 % 256) ∷ (codes "." ∷ (dec (a / 16777216 % 256) ∷ [])))))))

abbrev pub zero_link : LinkStatus
zero_link = record {
  initialized = false;
  connected = false;
  has_ip = false;
  ssid = [];
  ip_address = [];
  rssi_dbm = pos 0;
  reconnect_count = 0;
}

abbrev pub link_of : EspErr × Option WifiStatus → EspErr × LinkStatus
unfolding ip_text
link_of (err, none) = (err, zero_link)
link_of (err, some w) = (
  err,
  record {
    initialized = w.initialized;
    connected = w.connected;
    has_ip = w.has_ip;
    ssid = snprintf_text 33 w.ssid;
    ip_address = if w.has_ip then snprintf_text 49 (ip_text w.ipv4_addr) else [];
    rssi_dbm = w.rssi_dbm;
    reconnect_count = w.reconnect_count;
  },
)

abbrev pub clock_of : EspErr × Option TimeStatus → EspErr × ClockStatus
clock_of (err, none) = (
  err,
  record { initialized = false; synchronized = false; unix_time_ms = pos 0; last_sync_ms = pos 0 },
)
clock_of (err, some t) = (
  err,
  record {
    initialized = t.started;
    synchronized = t.valid;
    unix_time_ms = t.now_ms;
    last_sync_ms = t.last_sync_ms;
  },
)

abbrev pub zero_mqtt : MqttStatus
zero_mqtt = record {
  configured = false;
  started = false;
  connected = false;
  ncmd_subscribed = false;
  broker_uri = [];
  reconnect_count = 0;
}

abbrev pub mqtt_of : CString → EspErr × Option SessionStatus → EspErr × MqttStatus
mqtt_of uri (err, none) = (err, zero_mqtt)
mqtt_of uri (err, some s) = (
  err,
  record {
    configured = s.mqtt_configured;
    started = s.mqtt_started;
    connected = s.mqtt_connected;
    ncmd_subscribed = s.ncmd_subscribed;
    broker_uri = snprintf_text 97 uri;
    reconnect_count = s.mqtt_reconnect_count;
  },
)

abbrev pub zero_sparkplug : SparkplugStatus
zero_sparkplug = record {
  session_active = false;
  birth_complete = false;
  rebirth_pending = false;
  disconnect_sim_enabled = false;
  disconnect_sim_active = false;
  primary_host_configured = false;
  primary_host_online = false;
  disconnect_sim_interval_ms = pos 0;
  disconnect_sim_duration_ms = pos 0;
  bdseq = 0;
  seq = 0;
  last_publish_ms = pos 0;
  last_message = [];
}

abbrev pub sparkplug_of : EspErr × Option SessionStatus → EspErr × SparkplugStatus
sparkplug_of (err, none) = (err, zero_sparkplug)
sparkplug_of (err, some s) = (
  err,
  record {
    session_active = s.session_active;
    birth_complete = s.birth_complete;
    rebirth_pending = s.rebirth_pending;
    disconnect_sim_enabled = s.disconnect_sim_enabled;
    disconnect_sim_active = s.disconnect_sim_active;
    primary_host_configured = s.primary_host_configured;
    primary_host_online = s.primary_host_online;
    disconnect_sim_interval_ms = pos s.disconnect_sim_interval_ms;
    disconnect_sim_duration_ms = pos s.disconnect_sim_duration_ms;
    bdseq = s.bdseq % 256;
    seq = s.seq;
    last_publish_ms = s.last_publish_ms;
    last_message = snprintf_text 25 s.last_message;
  },
)

module _ (dev : Devices) where
  unfoldable pub get_sensor_status : BoardAct (EspErr × SensorStatus)
  unfolding sensor_status_of
  get_sensor_status = do s ← get (λ b. b.app.snapshot); pure (esp_ok, sensor_status_of s)

  unfoldable pub get_wifi_status : BoardAct (EspErr × LinkStatus)
  get_wifi_status = do r ← on_node (Manager.get_status dev.env Pointer.valid); pure (link_of r)

  unfoldable pub get_time_status : BoardAct (EspErr × ClockStatus)
  get_time_status = do r ← Service.get_status dev Pointer.valid; pure (clock_of r)

  -- The text that `%s` prints for the broker.
  abbrev pub uri_text : Option CString → CString
  uri_text none = dev.null_text
  uri_text (some uri) = uri

  unfoldable pub get_mqtt_status : BoardAct (EspErr × MqttStatus)
  get_mqtt_status = do
    r ← on_node (Status.get_status Pointer.valid)
    pure (mqtt_of (uri_text dev.env.config.sparkplug.broker_uri) r)

  unfoldable pub get_sparkplug_status : BoardAct (EspErr × SparkplugStatus)
  get_sparkplug_status = do r ← on_node (Status.get_status Pointer.valid); pure (sparkplug_of r)

  unfoldable pub app_request_publish : BoardAct EspErr
  app_request_publish = on_session (request_publish dev.env)

  unfoldable pub app_request_rebirth : BoardAct EspErr
  app_request_rebirth = on_session (request_rebirth dev.env)

  unfoldable pub app_set_disconnect_sim_enabled : Bool → BoardAct EspErr
  app_set_disconnect_sim_enabled enabled = on_session (set_disconnect_sim_enabled dev.env enabled)

  -- The two actions behind their pointers.
  abbrev pub run_action : ℕ → BoardAct EspErr
  run_action f = if f == 6 then app_request_publish else app_request_rebirth

  -- What the console's pointers lead to.
  abbrev pub provider_code : ProviderCode
  provider_code = record {
    sensor_status = λ f ctx. get_sensor_status;
    wifi_status = λ f ctx. get_wifi_status;
    time_status = λ f ctx. get_time_status;
    mqtt_status = λ f ctx. get_mqtt_status;
    sparkplug_status = λ f ctx. get_sparkplug_status;
    action = λ f ctx. run_action f;
    set_enabled = λ f ctx enabled. app_set_disconnect_sim_enabled enabled;
  }

-- The table `providers` of `app_initialize_console`; the pointers are numbered in its order.
abbrev pub app_providers : Providers
app_providers = record {
  get_sensor_status = some 1;
  sensor_status_ctx = none;
  get_wifi_status = some 2;
  wifi_status_ctx = none;
  get_time_status = some 3;
  time_status_ctx = none;
  get_mqtt_status = some 4;
  mqtt_status_ctx = none;
  get_sparkplug_status = some 5;
  sparkplug_status_ctx = none;
  request_publish = some 6;
  publish_ctx = none;
  request_rebirth = some 7;
  rebirth_ctx = none;
  set_disconnect_sim_enabled = some 8;
  disconnect_sim_ctx = none;
}
