-- ===== src/Session/History.antt =====
-- components/sparkplug_node/sparkplug_session.c: the whole history of the session, from the boot on,
-- under any order of turns.
use esp32_sparkplug.Prelude.{◌≡◌, ap, true, arith}
use esp32_sparkplug.Session.Status.{queue_command, set_status_callback}
use esp32_sparkplug.Session.Events.{
  MqttEvent, mqtt_event_handler, event_command, message_command, parse_state_message,
}
use esp32_sparkplug.Session.Api.{
  init, session_start, session_stop, submit_temperature, request_publish, request_rebirth,
  set_disconnect_sim_enabled, queue_or_timeout,
}
use esp32_sparkplug.Session.Heard.{heard-notify}
use esp32_sparkplug.Session.Protocol.{Moves}
use esp32_sparkplug.Session.Quiet.{IsQuiet, quietly}
use esp32_sparkplug.Session.Refinement.{stay}
use esp32_sparkplug.Session.Turns.{task_round-Moves}
use esp32_sparkplug.Session.System.{
  Request, serve, booted, Step, Reach, start, stop, publish, rebirth, submit, simulate, callback,
  round, event, request, wifi_event, wifi_timer, wifi_init, wifi_start, boot, next,
}
use esp32_sparkplug.Session.Publications.{wire}
use esp32_sparkplug.Session.WifiFrames.{
  wifi_init-session, wifi_start-session, wifi_init-heard, wifi_start-heard,
}
use esp32_sparkplug.Wifi.State.{WifiState}
use esp32_sparkplug.Wifi.Manager
use esp32_sparkplug.Wifi.Manager.{WifiEvent, event_handler, reconnect_timer_callback}
use esp32_sparkplug.Platform.{Env, Machine, Trace}

module _ (env : Env) where
  mqtt_event_handler-IsQuiet :
      (e : MqttEvent) (m : Machine) → IsQuiet env m (mqtt_event_handler env e m).1
  unfolding mqtt_event_handler event_command message_command parse_state_message queue_command
  mqtt_event_handler-IsQuiet e m = ground arith

  event_handler-IsQuiet : (e : WifiEvent) (m : Machine) → IsQuiet env m (event_handler env e m).1
  unfolding event_handler
  event_handler-IsQuiet e m = ground arith

  reconnect_timer_callback-IsQuiet :
      (m : Machine) → IsQuiet env m (reconnect_timer_callback env m).1
  unfolding reconnect_timer_callback
  reconnect_timer_callback-IsQuiet m = ground arith

  wifi_init-IsQuiet : (m : Machine) → IsQuiet env m (Manager.init env m).1
  wifi_init-IsQuiet m = record {
    same_wire = ap wire (wifi_init-session env m);
    silent = wifi_init-heard env m;
  }

  wifi_start-IsQuiet : (m : Machine) → IsQuiet env m (Manager.start env m).1
  wifi_start-IsQuiet m = record {
    same_wire = ap wire (wifi_start-session env m);
    silent = wifi_start-heard env m;
  }

  -- A call of another task only fills the queue.
  serve-IsQuiet :
      (r : Request) (m : Machine) → m.session.initialized ≡ true → IsQuiet env m (serve env r m)
  unfolding serve session_start session_stop submit_temperature request_publish request_rebirth
      set_disconnect_sim_enabled queue_or_timeout queue_command init set_status_callback
  serve-IsQuiet start m h = ground arith
  serve-IsQuiet stop m h = ground arith
  serve-IsQuiet publish m h = ground arith
  serve-IsQuiet rebirth m h = ground arith
  serve-IsQuiet (submit reading time) m h = ground arith
  serve-IsQuiet (simulate enabled) m h = ground arith
  serve-IsQuiet (callback f ctx) m h = grind (arith, heard-notify)

  Step-Moves : {m n : Machine} → Step env m n → Moves env m n
  Step-Moves (round m) = task_round-Moves env m
  Step-Moves (event e m) = quietly env (mqtt_event_handler-IsQuiet e m)
  Step-Moves (request r m h) = quietly env (serve-IsQuiet r m h)
  Step-Moves (wifi_event e m) = quietly env (event_handler-IsQuiet e m)
  Step-Moves (wifi_timer m) = quietly env (reconnect_timer_callback-IsQuiet m)
  Step-Moves (wifi_init m) = quietly env (wifi_init-IsQuiet m)
  Step-Moves (wifi_start m) = quietly env (wifi_start-IsQuiet m)

  -- From a boot on, over any state of the Wi-Fi manager, and under any order of turns, what the broker
  -- hears is a sequence of protocol moves. An NBIRTH carries the session's `bdSeq` and restarts `seq`.
  -- An NDATA comes only from a born node and carries the next `seq`. An NDEATH carries the session's
  -- `bdSeq`. A connection that the client starts finds the node unborn and `seq` at 0, and it alone
  -- changes `bdSeq`: to 0 if it is the first, to one more modulo 256 if not. Nothing else is
  -- published, and no other connection is started.
  pub Reach-Moves :
      {wifi : WifiState} {calls : Trace} {m : Machine}
      → Reach env wifi calls m
      → Moves env (booted env wifi calls) m
  Reach-Moves {wifi} {calls} boot = stay env (booted env wifi calls)
  Reach-Moves (next r s) = Moves.then (Reach-Moves r) (Step-Moves s)
