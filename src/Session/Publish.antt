-- ===== src/Session/Publish.antt =====
-- components/sparkplug_node/sparkplug_session.c: samples, the decision to publish, and NBIRTH,
-- NDATA and NDEATH.
use esp32_sparkplug.Prelude.{
  ℕ, ◌+◌, ◌%◌, ◌==◌, ℤ, pos, negsuc, ◌-ℤ◌, ltb_ℤ, leb_ℤ, to_u64, to_i64, Bool, true, false, not,
  ◌||◌, Option, none, some, [], Bytes, CString, codes, length, if◌then◌else◌,
}
use esp32_sparkplug.Esp.{EspErr, esp_ok, esp_fail, err_invalid_state, is_ok, Pointer}
use esp32_sparkplug.Sensor.{SensorReading}
use esp32_sparkplug.TimeSync.{now_ms}
use esp32_sparkplug.Node.Payloads.{
  BirthPayload, DataPayload, DeathPayload, encode_nbirth, encode_ndata, encode_ndeath,
}
use esp32_sparkplug.Session.State.{Session, payload_max_len, synthetic_period_ms}
use esp32_sparkplug.Session.Status.{refresh_status, set_last_message}
use esp32_sparkplug.Platform.{
  Env, Act, Call, ◌>>=◌, ◌>>◌, pure, ask, get_session, modify_session, when,
}

-- `phase_ms` of the sine wave.
unfoldable pub phase_ms : ℤ → ℕ
phase_ms (pos n) = n % synthetic_period_ms
phase_ms (negsuc n) = 0

module _ (env : Env) where
  -- The constants are the bit patterns of 0.0f, 100.0f, 0.5f and 6.28318530718f.
  unfoldable pub synthetic_sinewave_at_ms : ℤ → ℕ
  synthetic_sinewave_at_ms timestamp_ms = add midpoint (
      mul amplitude (
        sinf (
          div (mul 0x40c90fdb (of_int (pos (phase_ms timestamp_ms))))
            (of_int (pos synthetic_period_ms)))))
    where
      open env.float use {add, sub, mul, div, sinf, of_int}

      midpoint : ℕ
      midpoint = mul (add 0 0x42c80000) 0x3f000000

      amplitude : ℕ
      amplitude = mul (sub 0x42c80000 0) 0x3f000000

  -- `sparkplug_session_store_sample` of a reading that is not NULL.
  unfoldable pub store_sample : SensorReading → ℤ → Act (Unit {0})
  store_sample reading sample_time_ms = when reading.valid (
      modify_session (λ s. record s {
        has_temperature = true;
        last_temperature_c = reading.temperature_c;
        last_sample_ms = sample_time_ms;
      })
      >> refresh_status)

  -- The tests of `should_publish` in their order.
  unfoldable pub should_publish_at : Session → Bool → ℤ → Bool
  should_publish_at s force now =
      if not s.birth_complete
        || not s.mqtt_connected
        || not s.ncmd_subscribed
        || not s.has_temperature
      then false
      else (force
          || ltb_ℤ s.last_publish_ms s.last_sample_ms
          || not s.has_last_published_temperature
          || env.float.ge
              (env.float.fabsf (env.float.sub s.last_temperature_c s.last_published_temperature_c))
              env.config.temperature.publish_deadband_c
          || leb_ℤ (pos env.config.temperature.max_publish_interval_ms) (now -ℤ s.last_publish_ms))

  unfoldable pub should_publish : Bool → Act Bool
  should_publish force = do now ← now_ms env; s ← get_session; pure (should_publish_at s force now)

  abbrev pub publish_with : Option ℕ → CString → Bytes → Act EspErr
  publish_with none topic payload = pure err_invalid_state
  publish_with (some client) topic payload =
      if length payload == 0 then pure err_invalid_state else (do
        msg_id ←
            ask (Call.mqtt_client_publish client topic payload)
              (λ t. env.mqtt_client_publish t client topic payload)
        pure (if leb_ℤ (pos 0) msg_id then esp_ok else esp_fail))

  -- The topic and payload are never NULL here; QoS 0, not retained.
  unfoldable pub publish_bytes : CString → Bytes → Act EspErr
  publish_bytes topic payload = do s ← get_session; publish_with s.client topic payload

  -- `encoded_size` starts at 0.
  abbrev pub encoded_bytes : Option Bytes → Bytes
  encoded_bytes none = []
  encoded_bytes (some bytes) = bytes

  -- A payload that was encoded is published; one that was not ends the call with the code.
  abbrev pub publish_encoded : EspErr × Option Bytes → CString → Act EspErr
  publish_encoded result topic =
      if is_ok (result.0) then publish_bytes topic (encoded_bytes (result.1)) else pure (result.0)

  abbrev pub birth_payload : Session → ℤ → BirthPayload
  birth_payload s publish_time_ms = record {
    timestamp_ms = to_u64 publish_time_ms;
    bdseq = s.bdseq;
    temperature_c = s.last_temperature_c;
    synthetic_sinewave = synthetic_sinewave_at_ms publish_time_ms;
  }

  abbrev pub data_payload : Session → ℤ → DataPayload
  data_payload s publish_time_ms = record {
    timestamp_ms = to_u64 publish_time_ms;
    seq = (s.seq + 1) % 256;
    temperature_c = s.last_temperature_c;
    synthetic_sinewave = synthetic_sinewave_at_ms publish_time_ms;
  }

  abbrev pub death_payload : ℕ → ℤ → DeathPayload
  death_payload bdseq publish_time_ms = record {
    timestamp_ms = to_u64 publish_time_ms;
    bdseq = bdseq;
  }

  abbrev pub birth_published : ℤ → Act EspErr
  birth_published publish_time_ms = do
    modify_session (λ s. record s {
      birth_complete = true;
      rebirth_pending = false;
      session_active = true;
      seq = 0;
      last_publish_ms = to_i64 (to_u64 publish_time_ms);
      last_published_temperature_c = s.last_temperature_c;
      has_last_published_temperature = true;
    })
    set_last_message (codes "NBIRTH")
    refresh_status
    pure esp_ok

  unfoldable pub publish_birth : Act EspErr
  publish_birth = do
    publish_time_ms ← now_ms env
    s ← get_session
    if not s.has_temperature then pure err_invalid_state else (do
      err ←
          publish_encoded
            (encode_nbirth env.nanopb (some (birth_payload s publish_time_ms)) Pointer.valid
              payload_max_len Pointer.valid)
            s.topic_nbirth
      if is_ok err then birth_published publish_time_ms else pure err)

  abbrev pub data_published : ℕ → ℤ → Act EspErr
  data_published seq publish_time_ms = do
    modify_session (λ s. record s {
      seq = seq % 256;
      last_publish_ms = to_i64 (to_u64 publish_time_ms);
      last_published_temperature_c = s.last_temperature_c;
      has_last_published_temperature = true;
    })
    set_last_message (codes "NDATA")
    refresh_status
    pure esp_ok

  -- The time of the sample, or the present where no sample has a positive time.
  abbrev pub data_time : ℤ → Act ℤ
  data_time last_sample_ms =
      if ltb_ℤ (pos 0) last_sample_ms then pure last_sample_ms else now_ms env

  unfoldable pub publish_data : Act EspErr
  publish_data = do
    before ← get_session
    publish_time_ms ← data_time before.last_sample_ms
    s ← get_session
    err ←
        publish_encoded
          (encode_ndata env.nanopb (some (data_payload s publish_time_ms)) Pointer.valid
            payload_max_len Pointer.valid)
          s.topic_ndata
    if is_ok err
        then data_published (data_payload s publish_time_ms).seq publish_time_ms
        else pure err

  abbrev pub death_published : ℤ → Act EspErr
  death_published publish_time_ms = do
    modify_session (λ s. record s { last_publish_ms = to_i64 (to_u64 publish_time_ms) })
    set_last_message (codes "NDEATH")
    refresh_status
    pure esp_ok

  unfoldable pub publish_death : Act EspErr
  publish_death = do
    publish_time_ms ← now_ms env
    s ← get_session
    err ←
        publish_encoded
          (encode_ndeath env.nanopb (some (death_payload s.bdseq publish_time_ms)) Pointer.valid
            payload_max_len Pointer.valid)
          s.topic_ndeath
    if is_ok err then death_published publish_time_ms else pure err
