-- ===== src/Lib.antt =====
-- This library models the C firmware of a Sparkplug B edge node for the ESP32: it reads a TMP36
-- temperature sensor, keeps a Wi-Fi link, and reports to an MQTT broker by the Sparkplug protocol.
--
-- The parts, and the files that model them:
--
-- - Prelude and its children: Boolean tests, lists and integers over the native numbers, C strings.
-- - Esp.antt: `esp_err_t` and pointers that are compared with NULL.
-- - AppConfig.antt: the configuration table of components/app_config.
-- - Node: components/sparkplug_node without the session. Node/Topics is sparkplug_node.c, Node/Payloads
--   is sparkplug_payloads.c, Node/Decode is sparkplug_decode.c; Node/Nanopb is the interface to
--   vendor/nanopb, whose answers are a parameter. Node/TopicFit, Node/Metrics and Node/NameBuffer hold
--   the theorems.
-- - Wifi: components/wifi_manager/wifi_manager.c. Wifi/State and Wifi/Manager model it. Wifi/Invariant
--   is about its state, Wifi/Release about what the set-up holds of ESP-IDF.
-- - Platform.antt: `Env`, what ESP-IDF, FreeRTOS, the MQTT client, the clocks and the floating-point
--   unit answer, each answer a function of all calls made before; `Machine`, the static state of the
--   firmware with that history; and `Act`, a C function that runs on it.
-- - Session: components/sparkplug_node/sparkplug_session.c. State, Status, Timers, Publish, Client,
--   Handler, Json, Events and Api model its functions, under their names without the prefix
--   `sparkplug_session_`. System puts them together: after `sparkplug_session_init`, over any state of
--   the Wi-Fi manager, the task's rounds, the MQTT client's events, the calls of other tasks and the
--   Wi-Fi manager take turns in any order, each turn atomic. Publications, Heard and Protocol say what
--   the host sees, what the broker hears and which moves the protocol has; Frames, WifiFrames,
--   Invariant, Opening, Preservation, Quiet, Refinement, Connection and Turns carry the proofs about single operations,
--   History those about all of them. Endings, HostState, Retrying, Waiting, Subscriptions, Stale and
--   Will hold the theorems about single behaviours.
-- - Device.antt and Board.antt: the calls of the components below; `Devices`, their answers, which adds
--   to `Env`; `Board`, the state of the whole firmware, which adds to `Machine`; and `BoardAct`.
-- - TimeSync: components/time_sync/time_sync.c. TimeSync.antt is `time_sync_now_ms`, Service the
--   operations, Wait `time_sync_wait_ready`, each under its name without the prefix `time_sync_`. Lock
--   and Invariant are about the lock and the state, Clock and Termination about the end of the wait.
-- - Sensor: components/sensor_tmp36/sensor_tmp36.c. Tmp36 has its functions without their prefix;
--   Average is about readings, Lifetime about the ADC unit and the calibration scheme that are held, and
--   Ownership about the end of `sensor_tmp36_deinit`.
-- - Config: the run-time part of components/app_config/app_config.c, the node id. NodeId has its
--   functions (`init` is `app_config_init`); Storage and Generated hold the theorems.
-- - Console: components/app_console/app_console.c. Providers is what it calls by pointers, an interface
--   `ProviderCode` that App fills in; Reports what it prints, Commands its `cmd_` functions, Repl the
--   registration and the start.
-- - App: main/app_main.c. Led and Sampling are one round of each of its tasks, Callback the status
--   callback, Status the functions that it hands to the console, Main the start. Blink is about the
--   LED; Stages, ClockStage, NodeStage, ConsoleStage and Boot about the start; Requests about a word at
--   the console on its way to the session's queue.
-- - Testbed and its child Boards, and Examples and Scenarios below the parts: the theorems at concrete
--   inputs.
--
-- How the parts interact: the session's task takes commands from its queue. The API and the MQTT
-- event handler put them there; the task's own timeouts drive the reconnect deadline and the
-- disconnect simulator, which calls the Wi-Fi manager. Publishing encodes by Node and hands the bytes
-- to the MQTT client. App starts everything in order, passes each reading of the sensor to the
-- session, shows the session's status on the LED, and gives the console functions that query the
-- components and queue commands.
--
-- Bounds and fuel: unsigned fields are numbers, with the wrap-around of the source written out where
-- it adds; `int64_t` times are integers and are not bounded, except in the casts to and from
-- `uint64_t`. A `float` is its bit pattern and its operations are parameters. Two loops
-- are on fuel: `decode_string_from`, whose fuel is the length of the stream, since every round reads at
-- least one byte, and `poll_rounds`, the loop of `time_sync_wait_ready`, where `none` is a loop that has
-- not ended; one round more than the ticks of the timeout is enough, since every round takes a tick.
--
-- A will's encoding that fails keeps the old bytes of the will, where the source may have written over
-- a part of them; no client is opened then, and the next opening writes the will anew.
--
-- Not modelled: vendor/nanopb and vendor/eclipse_tahu (other projects' code), logging, the scripts and
-- build files, and ESP-IDF's REPL, which splits a line into words and calls the command. The queue's order is
-- the environment's: `queue_receive` may answer with any command. A status callback is a call that the
-- history records; `on_session` of App runs it behind the session's function, and it does not call
-- back. A critical section is one step, and a turn of a task is atomic but for the wait for the time,
-- during which other tasks may change the time service (`meanwhile`). The session reads the table of
-- the configuration with its node id from `Env`; that the table points to the buffer of Config is not
-- carried over.
pub mod Prelude
pub mod Esp
pub mod AppConfig
pub mod Node
pub mod Sensor
pub mod Wifi
pub mod Platform
pub mod TimeSync
pub mod Session
pub mod Testbed
pub mod Device
pub mod Board
pub mod Config
pub mod Console
pub mod App
