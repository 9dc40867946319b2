-- ===== src/AppConfig.antt =====
-- components/app_config: the configuration record. Pointers to text are optional, and a `float` is
-- its 32-bit pattern.
use esp32_sparkplug.Prelude.{ℕ, Bool, true, Option, none, some, CString, codes}

pub record WifiConfig : Type 0 where
  pub ssid : CString
  pub password : CString

pub record SparkplugConfig : Type 0 where
  pub broker_uri : Option CString
  pub username : Option CString
  pub password : Option CString
  pub group_id : Option CString
  pub node_id : Option CString
  pub topic_nbirth : CString
  pub topic_ndata : CString
  pub topic_ndeath : CString
  pub topic_ncmd : CString
  pub metric_bdseq_name : CString
  pub metric_rebirth_name : CString
  pub metric_temperature_name : CString
  pub metric_synthetic_name : CString
  pub metric_rebirth_alias : ℕ
  pub metric_temperature_alias : ℕ
  pub metric_synthetic_alias : ℕ
  pub primary_host_id : Option CString

pub record TemperatureConfig : Type 0 where
  pub engineering_unit : CString
  pub publish_deadband_c : ℕ
  pub max_publish_interval_ms : ℕ

-- `ADC_UNIT_1` is unit 0.
pub record SensorConfig : Type 0 where
  pub gpio_num : ℕ
  pub unit : ℕ
  pub channel : ℕ
  pub attenuation : ℕ
  pub bitwidth : ℕ
  pub sample_interval_ms : ℕ
  pub multisample_count : ℕ

pub record TimeConfig : Type 0 where
  pub sntp_server : Option CString
  pub sync_wait_timeout_ms : ℕ
  pub sync_poll_interval_ms : ℕ

pub record StatusLedConfig : Type 0 where
  pub gpio_num : ℕ
  pub active_high : Bool

pub record AppConfig : Type 0 where
  pub target_chip : CString
  pub wifi : WifiConfig
  pub sparkplug : SparkplugConfig
  pub sensor : SensorConfig
  pub temperature : TemperatureConfig
  pub time : TimeConfig
  pub status_led : StatusLedConfig

-- The table that the firmware ships with, once `node_id` is set. 0x3e4ccccd is 0.2f.
unfoldable pub app_config : CString → AppConfig
app_config node_id = record {
  target_chip = codes "esp32";
  wifi = record { ssid = codes "YOUR_WIFI_SSID"; password = codes "YOUR_WIFI_PASSWORD" };
  sparkplug = record {
    broker_uri = some (codes "mqtt://broker.example.com:1883");
    username = none;
    password = none;
    group_id = some (codes "home");
    node_id = some node_id;
    topic_nbirth = codes "spBv1.0/home/NBIRTH/sensor";
    topic_ndata = codes "spBv1.0/home/NDATA/sensor";
    topic_ndeath = codes "spBv1.0/home/NDEATH/sensor";
    topic_ncmd = codes "spBv1.0/home/NCMD/sensor";
    metric_bdseq_name = codes "bdSeq";
    metric_rebirth_name = codes "Node Control/Rebirth";
    metric_temperature_name = codes "temperature_c";
    metric_synthetic_name = codes "synthetic_sinewave";
    metric_rebirth_alias = 1;
    metric_temperature_alias = 2;
    metric_synthetic_alias = 3;
    primary_host_id = some (codes "host-1");
  };
  sensor = record {
    gpio_num = 32;
    unit = 0;
    channel = 4;
    attenuation = 3;
    bitwidth = 0;
    sample_interval_ms = 1000;
    multisample_count = 32;
  };
  temperature = record {
    engineering_unit = codes "Celsius";
    publish_deadband_c = 0x3e4ccccd;
    max_publish_interval_ms = 60000;
  };
  time = record {
    sntp_server = some (codes "pool.ntp.org");
    sync_wait_timeout_ms = 30000;
    sync_poll_interval_ms = 500;
  };
  status_led = record { gpio_num = 2; active_high = true };
}
