-- ===== src/Session/System.antt =====
-- components/sparkplug_node/sparkplug_session.c: the session as a transition system. It boots by
-- `sparkplug_session_init`, over whatever the Wi-Fi manager has come to by then (`app_main` of
-- main/app_main.c starts it first) and whatever calls were made; then its task, the MQTT client's
-- events, the calls of other tasks, and the events and operations of the Wi-Fi manager take turns, in
-- any order. A turn is atomic.
use esp32_sparkplug.Prelude.{ℕ, ◌≡◌, ℤ, pos, Bool, true, false, Option, none, [], arith}
use esp32_sparkplug.Sensor.{SensorReading}
use esp32_sparkplug.Wifi.State.{WifiState}
use esp32_sparkplug.Wifi.Manager
use esp32_sparkplug.Wifi.Manager.{WifiEvent, zero_state, event_handler, reconnect_timer_callback}
use esp32_sparkplug.Session.WifiFrames.{wifi_init-session, wifi_start-session}
use esp32_sparkplug.Session.State.{Session}
use esp32_sparkplug.Session.Status.{
  set_status_callback, queue_command, refresh_status, set_last_message,
}
use esp32_sparkplug.Session.Handler.{task_round}
use esp32_sparkplug.Session.Events.{
  MqttEvent, mqtt_event_handler, event_command, message_command, parse_state_message,
}
use esp32_sparkplug.Session.Api.{
  zero_status, init, finish_init, session_start, session_stop, submit_temperature, request_publish,
  request_rebirth, set_disconnect_sim_enabled, queue_or_timeout,
}
use esp32_sparkplug.Session.Invariant.{IsUp}
use esp32_sparkplug.Session.Opening.{prepare_topics-Inv}
use esp32_sparkplug.Session.Preservation.{task_round-Inv}
use esp32_sparkplug.Platform.{Env, Machine, Trace}

-- The static state of the program before any code has run.
abbrev pub zero_session : Session
zero_session = record {
  queue = none;
  client = none;
  status_callback = none;
  status_callback_ctx = none;
  initialized = false;
  reconnect_enabled = false;
  mqtt_configured = false;
  mqtt_started = false;
  mqtt_connected = false;
  ncmd_subscribed = false;
  session_active = false;
  birth_complete = false;
  rebirth_pending = false;
  has_temperature = false;
  has_last_published_temperature = false;
  disconnect_sim_enabled = false;
  disconnect_sim_active = false;
  bdseq_initialized = false;
  primary_host_configured = false;
  primary_host_online = false;
  state_subscribed = false;
  primary_host_last_timestamp = pos 0;
  mqtt_reconnect_count = 0;
  bdseq = 0;
  seq = 0;
  last_temperature_c = 0;
  last_published_temperature_c = 0;
  last_sample_ms = pos 0;
  last_publish_ms = pos 0;
  reconnect_attempt_due_ms = pos 0;
  disconnect_sim_next_transition_ms = pos 0;
  last_message = [];
  topic_nbirth = [];
  topic_ndata = [];
  topic_ndeath = [];
  topic_ncmd = [];
  topic_state = [];
  will_payload = [];
  ncmd_subscribe_msg_id = pos 0;
  state_subscribe_msg_id = pos 0;
  status_snapshot = zero_status;
}

abbrev pub zero_machine : Machine
zero_machine = record { session = zero_session; wifi = zero_state; trace = [] }

-- A call that another task makes.
pub data Request : Type 0 where
  start stop publish rebirth : Request
  submit : Option SensorReading → ℤ → Request
  simulate : Bool → Request
  callback : Option ℕ → Option ℕ → Request

module _ (env : Env) where
  -- `sparkplug_session_init` is the first code that touches the session's state.
  unfoldable pub booted : WifiState → Trace → Machine
  booted wifi calls = (init env (record { session = zero_session; wifi = wifi; trace = calls })).1

  unfoldable pub serve : Request → Machine → Machine
  serve start m = (session_start env m).1
  serve stop m = (session_stop env m).1
  serve publish m = (request_publish env m).1
  serve rebirth m = (request_rebirth env m).1
  serve (submit reading time) m = (submit_temperature env reading time m).1
  serve (simulate enabled) m = (set_disconnect_sim_enabled env enabled m).1
  serve (callback f ctx) m = (set_status_callback f ctx m).1

  pub data Step : Machine → Machine → Type 0 where
    round : (m : Machine) → Step m (task_round env m).1
    event : (e : MqttEvent) (m : Machine) → Step m (mqtt_event_handler env e m).1
    request : (r : Request) (m : Machine) → m.session.initialized ≡ true → Step m (serve r m)
    wifi_event : (e : WifiEvent) (m : Machine) → Step m (event_handler env e m).1
    wifi_timer : (m : Machine) → Step m (reconnect_timer_callback env m).1
    wifi_init : (m : Machine) → Step m (Manager.init env m).1
    wifi_start : (m : Machine) → Step m (Manager.start env m).1

  -- What can be reached from a boot over this Wi-Fi state and these earlier calls.
  pub data Reach (wifi : WifiState) (calls : Trace) : Machine → Type 0 where
    boot : Reach wifi calls (booted wifi calls)
    next : {m n : Machine} → Reach wifi calls m → Step m n → Reach wifi calls n

  queue_command-session :
      (cmd : _) (t : ℕ) (m : Machine) → (queue_command env cmd t m).1.session ≡ m.session
  unfolding queue_command
  queue_command-session cmd t m = ground arith

  mqtt_event_handler-Inv :
      (e : MqttEvent) (m : Machine) → IsUp m → IsUp (mqtt_event_handler env e m).1
  unfolding mqtt_event_handler event_command message_command parse_state_message queue_command
  mqtt_event_handler-Inv e m v = ground arith

  event_handler-session :
      (e : WifiEvent) (m : Machine) → (event_handler env e m).1.session ≡ m.session
  unfolding event_handler
  event_handler-session e m = ground arith

  serve-Inv : (r : Request) (m : Machine) → m.session.initialized ≡ true → IsUp m → IsUp (serve r m)
  unfolding serve session_start session_stop submit_temperature request_publish request_rebirth
      set_disconnect_sim_enabled queue_or_timeout queue_command init set_status_callback
  serve-Inv start m h v = ground arith
  serve-Inv _ m h v = ground arith

  booted-Inv : (wifi : WifiState) (calls : Trace) → IsUp (booted wifi calls)
  unfolding booted init finish_init set_last_message refresh_status
  booted-Inv wifi calls = grind (arith, prepare_topics-Inv)

  Step-Inv : {m n : Machine} → Step m n → IsUp m → IsUp n
  Step-Inv (round m) v = task_round-Inv env m v
  Step-Inv (event e m) v = mqtt_event_handler-Inv e m v
  Step-Inv (request r m h) v = serve-Inv r m h v
  Step-Inv (wifi_event e m) v = rw (event_handler-session e m) v
  Step-Inv (wifi_timer m) v = unfold reconnect_timer_callback in v
  Step-Inv (wifi_init m) v = rw (wifi_init-session env m) v
  Step-Inv (wifi_start m) v = rw (wifi_start-session env m) v

  -- From a boot on, over any state of the Wi-Fi manager, and under any order of turns: while a birth stands there are a client, a
  -- connection, a subscription, a sample and, where one is configured, an online primary host; `seq`
  -- and `bdSeq` are bytes; the disconnect simulator acts only while it and the session are on; and a
  -- stopped session has no deadline.
  pub Reach-Inv : {wifi : WifiState} {calls : Trace} {m : Machine} → Reach wifi calls m → IsUp m
  Reach-Inv {wifi} {calls} boot = booted-Inv wifi calls
  Reach-Inv (next r s) = Step-Inv s (Reach-Inv r)
