-- ===== src/Session/State.antt =====
-- components/sparkplug_node/sparkplug_session.c: the session's state, commands and status record.
-- Unsigned fields are numbers below their type's bound, `int64_t` ones are integers, a `float` is
-- its bit pattern, a character array is its text, and a handle or callback is an optional number.
use esp32_sparkplug.Prelude.{ℕ, ℤ, Bool, Option, Bytes, CString}
use esp32_sparkplug.Sensor.{SensorReading}

abbrev pub topic_max_len : ℕ
topic_max_len = 64

abbrev pub payload_max_len : ℕ
payload_max_len = 256

abbrev pub last_message_max_len : ℕ
last_message_max_len = 24

abbrev pub queue_len : ℕ
queue_len = 16

abbrev pub synthetic_period_ms : ℕ
synthetic_period_ms = 20000

abbrev pub disconnect_sim_interval : ℕ
disconnect_sim_interval = 180000

abbrev pub disconnect_sim_duration : ℕ
disconnect_sim_duration = 90000

pub data CmdType : Type 0 where
  start stop sensor_sample force_publish force_rebirth mqtt_connected mqtt_disconnected
        mqtt_subscribed mqtt_rebirth_request set_disconnect_sim primary_host_online
        primary_host_offline :
      CmdType

pub record Cmd : Type 0 where
  pub type : CmdType
  pub reading : SensorReading
  pub sample_time_ms : ℤ
  pub enabled : Bool

-- `sparkplug_session_status_t`.
pub record SessionStatus : Type 0 where
  pub mqtt_configured : Bool
  pub mqtt_started : Bool
  pub mqtt_connected : Bool
  pub ncmd_subscribed : Bool
  pub session_active : Bool
  pub birth_complete : Bool
  pub rebirth_pending : Bool
  pub has_temperature : Bool
  pub disconnect_sim_enabled : Bool
  pub disconnect_sim_active : Bool
  pub primary_host_configured : Bool
  pub primary_host_online : Bool
  pub disconnect_sim_interval_ms : ℕ
  pub disconnect_sim_duration_ms : ℕ
  pub mqtt_reconnect_count : ℕ
  pub bdseq : ℕ
  pub seq : ℕ
  pub last_temperature_c : ℕ
  pub last_sample_ms : ℤ
  pub last_publish_ms : ℤ
  pub last_message : CString

-- `sparkplug_session_state_t`.
pub record Session : Type 0 where
  pub queue : Option ℕ
  pub client : Option ℕ
  pub status_callback : Option ℕ
  pub status_callback_ctx : Option ℕ
  pub initialized : Bool
  pub reconnect_enabled : Bool
  pub mqtt_configured : Bool
  pub mqtt_started : Bool
  pub mqtt_connected : Bool
  pub ncmd_subscribed : Bool
  pub session_active : Bool
  pub birth_complete : Bool
  pub rebirth_pending : Bool
  pub has_temperature : Bool
  pub has_last_published_temperature : Bool
  pub disconnect_sim_enabled : Bool
  pub disconnect_sim_active : Bool
  pub bdseq_initialized : Bool
  pub primary_host_configured : Bool
  pub primary_host_online : Bool
  pub state_subscribed : Bool
  pub primary_host_last_timestamp : ℤ
  pub mqtt_reconnect_count : ℕ
  pub bdseq : ℕ
  pub seq : ℕ
  pub last_temperature_c : ℕ
  pub last_published_temperature_c : ℕ
  pub last_sample_ms : ℤ
  pub last_publish_ms : ℤ
  pub reconnect_attempt_due_ms : ℤ
  pub disconnect_sim_next_transition_ms : ℤ
  pub last_message : CString
  pub topic_nbirth : CString
  pub topic_ndata : CString
  pub topic_ndeath : CString
  pub topic_ncmd : CString
  pub topic_state : CString
  pub will_payload : Bytes
  pub ncmd_subscribe_msg_id : ℤ
  pub state_subscribe_msg_id : ℤ
  pub status_snapshot : SessionStatus
