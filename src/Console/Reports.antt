-- ===== src/Console/Reports.antt =====
-- components/app_console/app_console.c: what the status commands print of each component.
use esp32_sparkplug.Prelude.{Bool, [], ◌∷◌, CString, codes}
use esp32_sparkplug.Prelude.Decimal.{dec, dec_ℤ}
use esp32_sparkplug.Console.State.{
  SensorStatus, LinkStatus, ClockStatus, MqttStatus, SparkplugStatus,
}
use esp32_sparkplug.Console.Providers.{bool_to_str, or_else, print}
use esp32_sparkplug.Board.{Devices, BoardAct, ◌>>◌, when}

-- A line `name=value`.
abbrev pub line : CString → CString → BoardAct (Unit {0})
line name shown = print (name ∷ (codes "=" ∷ (shown ∷ (codes "\n" ∷ []))))

abbrev pub flag : CString → Bool → BoardAct (Unit {0})
flag name b = line name (bool_to_str b)

abbrev pub unset : CString
unset = codes "<unset>"

module _ (dev : Devices) where
  unfoldable pub sensor_line : SensorStatus → BoardAct (Unit {0})
  unfolding dec dec_ℤ
  sensor_line s = print (
      codes "sensor: valid="
      ∷ (bool_to_str s.valid
          ∷ (codes " temperature_c="
              ∷ (dev.two_decimals s.temperature_c
                  ∷ (codes " calibrated_mv="
                      ∷ (dec_ℤ s.calibrated_mv
                          ∷ (codes " samples=" ∷ (dec s.sample_count ∷ (codes "\n" ∷ [])))))))))

  unfoldable pub sensor_report : SensorStatus → BoardAct (Unit {0})
  unfolding dec dec_ℤ
  sensor_report s = do
    flag (codes "sensor.valid") s.valid
    line (codes "sensor.sample_count") (dec s.sample_count)
    line (codes "sensor.raw_average") (dec_ℤ s.raw_average)
    line (codes "sensor.calibrated_mv") (dec_ℤ s.calibrated_mv)
    line (codes "sensor.temperature_c") (dev.two_decimals s.temperature_c)
    line (codes "sensor.last_sample_ms") (dec_ℤ s.last_sample_ms)

unfoldable pub wifi_line : LinkStatus → BoardAct (Unit {0})
unfolding dec
wifi_line s = print (
    codes "wifi: connected="
    ∷ (bool_to_str s.connected
        ∷ (codes " has_ip="
            ∷ (bool_to_str s.has_ip
                ∷ (codes " ssid="
                    ∷ (or_else s.ssid unset
                        ∷ (codes " ip="
                            ∷ (or_else s.ip_address unset
                                ∷ (codes " reconnects="
                                    ∷ (dec s.reconnect_count ∷ (codes "\n" ∷ [])))))))))))

unfoldable pub wifi_report : LinkStatus → BoardAct (Unit {0})
unfolding dec dec_ℤ
wifi_report s = do
  flag (codes "wifi.initialized") s.initialized
  flag (codes "wifi.connected") s.connected
  flag (codes "wifi.has_ip") s.has_ip
  line (codes "wifi.ssid") (or_else s.ssid unset)
  line (codes "wifi.ip") (or_else s.ip_address unset)
  line (codes "wifi.rssi_dbm") (dec_ℤ s.rssi_dbm)
  line (codes "wifi.reconnect_count") (dec s.reconnect_count)

unfoldable pub time_line : ClockStatus → BoardAct (Unit {0})
unfolding dec_ℤ
time_line s = print (
    codes "time: synchronized="
    ∷ (bool_to_str s.synchronized
        ∷ (codes " unix_time_ms="
            ∷ (dec_ℤ s.unix_time_ms
                ∷ (codes " last_sync_ms=" ∷ (dec_ℤ s.last_sync_ms ∷ (codes "\n" ∷ [])))))))

unfoldable pub time_report : ClockStatus → BoardAct (Unit {0})
unfolding dec_ℤ
time_report s = do
  flag (codes "time.initialized") s.initialized
  flag (codes "time.synchronized") s.synchronized
  line (codes "time.unix_time_ms") (dec_ℤ s.unix_time_ms)
  line (codes "time.last_sync_ms") (dec_ℤ s.last_sync_ms)

unfoldable pub mqtt_line : MqttStatus → BoardAct (Unit {0})
unfolding dec
mqtt_line s = print (
    codes "mqtt: connected="
    ∷ (bool_to_str s.connected
        ∷ (codes " subscribed_ncmd="
            ∷ (bool_to_str s.ncmd_subscribed
                ∷ (codes " broker="
                    ∷ (or_else s.broker_uri unset
                        ∷ (codes " reconnects=" ∷ (dec s.reconnect_count ∷ (codes "\n" ∷ [])))))))))

unfoldable pub mqtt_report : MqttStatus → BoardAct (Unit {0})
unfolding dec
mqtt_report s = do
  flag (codes "mqtt.configured") s.configured
  flag (codes "mqtt.started") s.started
  flag (codes "mqtt.connected") s.connected
  flag (codes "mqtt.ncmd_subscribed") s.ncmd_subscribed
  line (codes "mqtt.broker_uri") (or_else s.broker_uri unset)
  line (codes "mqtt.reconnect_count") (dec s.reconnect_count)

abbrev pub no_message : CString
no_message = codes "<none>"

unfoldable pub sparkplug_lines : SparkplugStatus → BoardAct (Unit {0})
unfolding dec
sparkplug_lines s = do
  print (
      codes "sparkplug: session_active="
      ∷ (bool_to_str s.session_active
          ∷ (codes " birth_complete="
              ∷ (bool_to_str s.birth_complete
                  ∷ (codes " bdSeq="
                      ∷ (dec s.bdseq
                          ∷ (codes " seq="
                              ∷ (dec s.seq
                                  ∷ (codes " last="
                                      ∷ (or_else s.last_message no_message
                                          ∷ (codes "\n" ∷ [])))))))))))
  when s.primary_host_configured (
      print (
        codes "sparkplug: primary_host_configured="
        ∷ (bool_to_str s.primary_host_configured
            ∷ (codes " primary_host_online="
                ∷ (bool_to_str s.primary_host_online ∷ (codes "\n" ∷ []))))))
  print (
      codes "sparkplug: disconnect_sim_enabled="
      ∷ (bool_to_str s.disconnect_sim_enabled
          ∷ (codes " disconnect_sim_active="
              ∷ (bool_to_str s.disconnect_sim_active ∷ (codes "\n" ∷ [])))))

unfoldable pub sparkplug_report : SparkplugStatus → BoardAct (Unit {0})
unfolding dec dec_ℤ
sparkplug_report s = do
  flag (codes "sparkplug.session_active") s.session_active
  flag (codes "sparkplug.birth_complete") s.birth_complete
  flag (codes "sparkplug.rebirth_pending") s.rebirth_pending
  flag (codes "sparkplug.primary_host_configured") s.primary_host_configured
  flag (codes "sparkplug.primary_host_online") s.primary_host_online
  flag (codes "sparkplug.disconnect_sim_enabled") s.disconnect_sim_enabled
  flag (codes "sparkplug.disconnect_sim_active") s.disconnect_sim_active
  line (codes "sparkplug.bdSeq") (dec s.bdseq)
  line (codes "sparkplug.seq") (dec s.seq)
  line (codes "sparkplug.last_publish_ms") (dec_ℤ s.last_publish_ms)
  line (codes "sparkplug.last_message") (or_else s.last_message no_message)

-- What "disconnect_sim status" prints.
unfoldable pub sim_report : SparkplugStatus → BoardAct (Unit {0})
unfolding dec_ℤ
sim_report s = do
  flag (codes "disconnect_sim.enabled") s.disconnect_sim_enabled
  flag (codes "disconnect_sim.active") s.disconnect_sim_active
  line (codes "disconnect_sim.interval_ms") (dec_ℤ s.disconnect_sim_interval_ms)
  line (codes "disconnect_sim.duration_ms") (dec_ℤ s.disconnect_sim_duration_ms)
