-- ===== src/Session/Examples.antt =====
-- The theorems about the session at concrete inputs.
use esp32_sparkplug.Prelude.{
  ◌+◌, ◌%◌, ◌≡◌, refl, pos, true, false, some, ◌∷◌, codes, to_u64, to_i64, arith,
}
use esp32_sparkplug.Esp.{is_ok}
use esp32_sparkplug.TimeSync.{now_ms}
use esp32_sparkplug.Session.System.{
  zero_session, zero_machine, booted, serve, Request, Step, Reach, Reach-Inv,
}
use esp32_sparkplug.Session.Handler.{task_round}
use esp32_sparkplug.Wifi.Manager
use esp32_sparkplug.Session.Status.{refresh_status, set_last_message}
use esp32_sparkplug.Session.Client.{
  prepare_topics, prepare_topic, prepare_will_payload, reset_session, open_client, start_client,
}
use esp32_sparkplug.Session.Publish.{
  publish_birth, publish_data, publish_death, publish_bytes, encoded_bytes,
}
use esp32_sparkplug.Session.Publications.{
  published, wire, birth_result, data_result, death_result, data_stamp, publish_birth_ok,
  publish_data_ok, publish_death_ok, publish_failed,
}
use esp32_sparkplug.Session.Will.{HasWill, WillGiven, start_client-HasWill}
use esp32_sparkplug.Node.Topics.{build_topic, topic_type_suffix, topic_text, write_text}
use esp32_sparkplug.Node.Payloads.{
  encode_nbirth, encode_ndata, encode_ndeath, encode_payload, encode_metrics, encode_metric,
  metric_message, nbirth_metrics, ndata_metrics, ndeath_metrics, encode_string, metric_union,
}
use esp32_sparkplug.Session.Events.{MqttEvent, mqtt_event_handler}
use esp32_sparkplug.Session.Api.{init, finish_init}
use esp32_sparkplug.Session.Invariant.{IsUp}
use esp32_sparkplug.Session.Protocol.{Moves, IsNext}
use esp32_sparkplug.Session.History.{Reach-Moves}
use esp32_sparkplug.Platform.{Machine}
use esp32_sparkplug.AppConfig.{app_config}
use esp32_sparkplug.Testbed.{test_env}

-- The Wi-Fi manager has been started, as `app_main` does first.
abbrev powered : Machine
powered = (Manager.start test_env zero_machine).1

abbrev up : Machine
up = booted test_env powered.wifi powered.trace

-- A run: boot, START, a round of the task that opens a client, its MQTT_CONNECTED, and a round that
-- subscribes.
abbrev asked_to_start : Machine
asked_to_start = serve test_env Request.start up

abbrev opened : Machine
opened = (task_round test_env asked_to_start).1

abbrev told_connected : Machine
told_connected = (mqtt_event_handler test_env MqttEvent.connected opened).1

abbrev subscribing : Machine
subscribing = (task_round test_env told_connected).1

booted_initialized : up.session.initialized ≡ true
unfolding booted init finish_init prepare_topics prepare_topic refresh_status set_last_message
    build_topic topic_type_suffix topic_text write_text app_config
booted_initialized = refl

run-Reach : Reach test_env powered.wifi powered.trace subscribing
run-Reach =
    Reach.next
      (Reach.next
        (Reach.next (Reach.next Reach.boot (Step.request Request.start up booted_initialized))
          (Step.round asked_to_start))
        (Step.event MqttEvent.connected opened))
      (Step.round told_connected)

Reach-Moves_example : Moves test_env up subscribing
Reach-Moves_example = Reach-Moves test_env run-Reach

Reach-Inv_example : IsUp subscribing
Reach-Inv_example = Reach-Inv test_env run-Reach

-- A born node with a client, whose next `seq` wraps.
abbrev pub live : Machine
live = record zero_machine {
  session = record zero_session {
    client = some 9;
    queue = some 1;
    initialized = true;
    reconnect_enabled = true;
    mqtt_configured = true;
    mqtt_started = true;
    mqtt_connected = true;
    ncmd_subscribed = true;
    session_active = true;
    birth_complete = true;
    has_temperature = true;
    has_last_published_temperature = true;
    bdseq_initialized = true;
    primary_host_configured = true;
    primary_host_online = true;
    seq = 255;
    bdseq = 3;
    last_sample_ms = pos 6000;
    topic_nbirth = codes "spBv1.0/home/NBIRTH/n1";
    topic_ndata = codes "spBv1.0/home/NDATA/n1";
    topic_ndeath = codes "spBv1.0/home/NDEATH/n1";
  };
}

pub live-IsUp : IsUp live
live-IsUp = ground arith

publishes :
    (is_ok (publish_birth test_env live).0 ≡ true)
    × (is_ok (publish_data test_env live).0 ≡ true)
    × (is_ok (publish_death test_env live).0 ≡ true)
unfolding publish_birth publish_data publish_death now_ms encode_nbirth encode_ndata encode_ndeath
    encode_payload encode_metrics encode_metric metric_message nbirth_metrics ndata_metrics
    ndeath_metrics encode_string metric_union publish_bytes
publishes = (refl, refl, refl)

publish_data_ok_example :
    (is_ok (data_result test_env live).0 ≡ true)
    × (published test_env (publish_data test_env live).1.trace
        ≡ (live.session.topic_ndata, encoded_bytes test_env ((data_result test_env live).1))
          ∷ published test_env live.trace)
    × (wire (publish_data test_env live).1.session
        ≡ record (wire live.session) { seq = (live.session.seq + 1) % 256 })
    × ((publish_data test_env live).1.session.last_publish_ms
        ≡ to_i64 (to_u64 (data_stamp test_env live)))
publish_data_ok_example = publish_data_ok test_env live (publishes.1)

publish_birth_ok_example :
    (is_ok (birth_result test_env live).0 ≡ true)
    × (published test_env (publish_birth test_env live).1.trace
        ≡ (live.session.topic_nbirth, encoded_bytes test_env ((birth_result test_env live).1))
          ∷ published test_env live.trace)
    × (wire (publish_birth test_env live).1.session
        ≡ record (wire live.session) { alive = true; seq = 0 })
    × ((publish_birth test_env live).1.session.rebirth_pending ≡ false)
publish_birth_ok_example = publish_birth_ok test_env live (publishes.0)

publish_death_ok_example :
    (is_ok (death_result test_env live).0 ≡ true)
    × (published test_env (publish_death test_env live).1.trace
        ≡ (live.session.topic_ndeath, encoded_bytes test_env ((death_result test_env live).1))
          ∷ published test_env live.trace)
    × (wire (publish_death test_env live).1.session ≡ wire live.session)
publish_death_ok_example = publish_death_ok test_env live (publishes.2)

-- Without a client, no publish succeeds.
publish_failed_example :
    (is_ok (publish_birth test_env zero_machine).0 ≡ false
      → ((publish_birth test_env zero_machine).1.session ≡ zero_machine.session)
        × (published test_env (publish_birth test_env zero_machine).1.trace
            ≡ published test_env zero_machine.trace))
    × (is_ok (publish_data test_env zero_machine).0 ≡ false
        → ((publish_data test_env zero_machine).1.session ≡ zero_machine.session)
          × (published test_env (publish_data test_env zero_machine).1.trace
              ≡ published test_env zero_machine.trace))
    × (is_ok (publish_death test_env zero_machine).0 ≡ false
        → ((publish_death test_env zero_machine).1.session ≡ zero_machine.session)
          × (published test_env (publish_death test_env zero_machine).1.trace
              ≡ published test_env zero_machine.trace))
publish_failed_example = publish_failed test_env zero_machine

started : is_ok (start_client test_env zero_machine).0 ≡ true
unfolding start_client reset_session prepare_topics prepare_topic set_last_message build_topic
    topic_type_suffix topic_text write_text prepare_will_payload now_ms encode_ndeath encode_payload
    encode_metrics encode_metric metric_message ndeath_metrics encode_string metric_union
    open_client refresh_status app_config
started = refl

start_client-HasWill_example :
    HasWill test_env
      (start_client test_env zero_machine).1.session.bdseq
      (start_client test_env zero_machine).1.session
    × WillGiven test_env (start_client test_env zero_machine).1
    × IsNext (wire zero_machine.session) (start_client test_env zero_machine).1.session.bdseq
start_client-HasWill_example = start_client-HasWill test_env zero_machine started
