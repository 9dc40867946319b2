-- ===== src/Session/Events.antt =====
-- components/sparkplug_node/sparkplug_session.c: the STATE message of the primary host, and the
-- events of the MQTT client, which its own task turns into commands.
use esp32_sparkplug.Prelude.{
  ℕ, ◌==◌, ℤ, pos, leb_ℤ, ltb_ℤ, Bool, true, false, not, ◌&&◌, ◌||◌, ◌++◌, Option, none, some,
  Bytes, codes, length, starts_with, same_text, if◌then◌else◌,
}
use esp32_sparkplug.Esp.{is_ok, Pointer}
use esp32_sparkplug.Node.Decode.{decode_ncmd}
use esp32_sparkplug.Session.State.{
  Cmd, CmdType, mqtt_connected, mqtt_disconnected, mqtt_subscribed, mqtt_rebirth_request,
  primary_host_online, primary_host_offline,
}
use esp32_sparkplug.Session.Status.{queue_command}
use esp32_sparkplug.Session.Json.{find_json_key, strtoll}
use esp32_sparkplug.Platform.{Env, Act, ◌>>=◌, ◌>>◌, pure, get_session, modify_session, ignore}

-- The value of `online` at a pointer; `beyond` is the memory behind the payload.
unfoldable pub read_online : Option Bytes → Bytes → Option Bool
read_online none beyond = none
read_online (some val) beyond =
    if starts_with (codes "true") (val ++ beyond)
    then some true
    else if starts_with (codes "false") (val ++ beyond)
    then some false
    else none

unfoldable pub read_timestamp : Option Bytes → Bytes → Option ℤ
read_timestamp none beyond = none
read_timestamp (some val) beyond = strtoll (val ++ beyond)

-- A timestamp older than the last one, if there was one.
abbrev pub is_stale : ℤ → ℤ → Bool
is_stale last timestamp = leb_ℤ (pos 0) last && ltb_ℤ timestamp last

abbrev pub host_command : Bool → CmdType
host_command true = primary_host_online
host_command false = primary_host_offline

-- `online` and `timestamp` of a payload, both well formed.
abbrev pub state_fields : Bytes → Bytes → Option (Bool × ℤ)
state_fields payload beyond = elim (read_online (find_json_key payload (codes "online")) beyond) [
  | none ↦ none
  | some online ↦ elim (read_timestamp (find_json_key payload (codes "timestamp")) beyond) [
    | none ↦ none
    | some timestamp ↦ some (online, timestamp)
  ]
]

abbrev pub accept_state : Option (Bool × ℤ) → Act (Option CmdType)
accept_state none = pure none
accept_state (some (online, timestamp)) = do
  s ← get_session
  if is_stale s.primary_host_last_timestamp timestamp then pure none else (do
    modify_session (λ s. record s { primary_host_last_timestamp = timestamp })
    pure (some (host_command online)))

-- `parse_state_message`; `data_len` is the payload's length, and `out_cmd` is not NULL.
unfoldable pub parse_state_message : Option Bytes → Bytes → Act (Option CmdType)
parse_state_message none beyond = pure none
parse_state_message (some payload) beyond =
    if length payload == 0 then pure none else accept_state (state_fields payload beyond)

-- `esp_mqtt_event_t` of a message: its topic, its data, the memory behind the data, and where the
-- data lies in the whole message.
pub record MqttMessage : Type 0 where
  pub topic : Bytes
  pub payload : Option Bytes
  pub beyond : Bytes
  pub total_data_len : ℕ
  pub current_data_offset : ℕ

pub data MqttEvent : Type 0 where
  connected disconnected subscribed other_event : MqttEvent
  message : Option MqttMessage → MqttEvent

abbrev pub payload_length : Option Bytes → ℕ
payload_length none = 0
payload_length (some payload) = length payload

-- A command that carries nothing but its type.
abbrev pub plain_cmd : CmdType → Cmd
plain_cmd type = record {
  type = type;
  reading = record {
    valid = false;
    sample_count = 0;
    raw_average = pos 0;
    calibrated_mv = pos 0;
    temperature_c = 0;
  };
  sample_time_ms = pos 0;
  enabled = false;
}

module _ (env : Env) where
  abbrev pub is_true : Option Bool → Bool
  is_true none = false
  is_true (some b) = b

  -- The command of a message on the NCMD topic.
  unfoldable pub ncmd_command : Option Bytes → Option CmdType
  ncmd_command payload =
      let result = decode_ncmd env.nanopb payload Pointer.valid in
      if is_ok (result.0) && is_true (result.1) then some mqtt_rebirth_request else none

  -- The command of a message, by its topic.
  unfoldable pub message_command : MqttMessage → Act (Option CmdType)
  message_command event = do
    s ← get_session
    if not (event.current_data_offset == 0)
          || not (payload_length event.payload == event.total_data_len)
        then pure none
        else if same_text event.topic s.topic_ncmd
        then pure (ncmd_command event.payload)
        else if s.primary_host_configured && same_text event.topic s.topic_state
        then parse_state_message event.payload event.beyond
        else pure none

  -- The command of an event, if it makes one.
  unfoldable pub event_command : MqttEvent → Act (Option CmdType)
  event_command connected = pure (some mqtt_connected)
  event_command disconnected = pure (some mqtt_disconnected)
  event_command subscribed = pure (some mqtt_subscribed)
  event_command other_event = pure none
  event_command (message none) = pure none
  event_command (message (some event)) = message_command event

  abbrev pub queue_if : Option CmdType → Act (Unit {0})
  queue_if none = pure tt
  queue_if (some type) = ignore (queue_command env (plain_cmd type) 0)

  unfoldable pub mqtt_event_handler : MqttEvent → Act (Unit {0})
  mqtt_event_handler event = do cmd ← event_command event; queue_if cmd
