-- ===== src/Session/Heard.antt =====
-- components/sparkplug_node/sparkplug_session.c: what the broker hears of the calls made, newest
-- first: the connections that were started and the messages that were taken.
use esp32_sparkplug.Prelude.{
  ℕ, ◌≡◌, refl, true, false, Option, none, some, List, [], ◌∷◌, Bytes, CString, pos, leb_ℤ,
  if◌then◌else◌, arith,
}
use esp32_sparkplug.Esp.{EspErr, is_ok}
use esp32_sparkplug.TimeSync.{now_ms}
use esp32_sparkplug.Session.State.{SessionStatus}
use esp32_sparkplug.Session.Status.{refresh_status, set_last_message, notify}
use esp32_sparkplug.Session.Publish.{
  publish_bytes, publish_encoded, encoded_bytes, publish_birth, publish_data, publish_death,
}
use esp32_sparkplug.Session.Frames.{publish_encoded-session}
use esp32_sparkplug.Session.Publications.{birth_result, data_result, death_result}
use esp32_sparkplug.Platform.{Env, Machine, Trace, Call}

-- One thing that the broker hears.
pub data Heard : Type 0 where
  connection : ℕ → Heard
  message : CString → Bytes → Heard

module _ (env : Env) where
  -- A connection is heard if `esp_mqtt_client_start` went well, a message if the client took it.
  abbrev pub heard : Trace → List Heard
  heard [] = []
  heard (Call.mqtt_client_publish client topic payload ∷ t) =
      if leb_ℤ (pos 0) (env.mqtt_client_publish t client topic payload)
      then Heard.message topic payload ∷ heard t
      else heard t
  heard (Call.mqtt_client_start client ∷ t) =
      if is_ok (env.mqtt_client_start t client) then Heard.connection client ∷ heard t else heard t
  heard (_ ∷ t) = heard t

  -- A status callback is not heard.
  pub heard-notify :
      (callback ctx : Option ℕ) (status : SessionStatus) (t : Trace)
      → heard (notify callback ctx status t) ≡ heard t
  heard-notify none ctx status t = refl
  heard-notify (some f) ctx status t = refl

module _ (env : Env) (m : Machine) where
  publish_encoded-heard :
      (r : EspErr × Option Bytes) (topic : CString)
      → is_ok (publish_encoded env r topic m).0 ≡ true
      → (is_ok (r.0) ≡ true)
        × (heard env (publish_encoded env r topic m).1.trace
            ≡ Heard.message topic (encoded_bytes env (r.1)) ∷ heard env m.trace)
  unfolding publish_bytes
  publish_encoded-heard r topic h = ground arith

  publish_encoded-unheard :
      (r : EspErr × Option Bytes) (topic : CString)
      → is_ok (publish_encoded env r topic m).0 ≡ false
      → heard env (publish_encoded env r topic m).1.trace ≡ heard env m.trace
  unfolding publish_bytes
  publish_encoded-unheard r topic h = ground arith

module _ (env : Env) (m : Machine) where
  pub publish_birth-heard :
      is_ok (publish_birth env m).0 ≡ true
      → heard env (publish_birth env m).1.trace
        ≡ Heard.message m.session.topic_nbirth (encoded_bytes env ((birth_result env m).1))
          ∷ heard env m.trace
  unfolding publish_birth refresh_status set_last_message now_ms
  publish_birth-heard h =
      grind (arith, publish_encoded-session, publish_encoded-heard, heard-notify)

  pub publish_birth-unheard :
      is_ok (publish_birth env m).0 ≡ false
      → heard env (publish_birth env m).1.trace ≡ heard env m.trace
  unfolding publish_birth refresh_status set_last_message now_ms
  publish_birth-unheard h = grind (arith, publish_encoded-session, publish_encoded-unheard)

  pub publish_data-heard :
      is_ok (publish_data env m).0 ≡ true
      → heard env (publish_data env m).1.trace
        ≡ Heard.message m.session.topic_ndata (encoded_bytes env ((data_result env m).1))
          ∷ heard env m.trace
  unfolding publish_data refresh_status set_last_message now_ms
  publish_data-heard h = grind (arith, publish_encoded-session, publish_encoded-heard, heard-notify)

  pub publish_data-unheard :
      is_ok (publish_data env m).0 ≡ false
      → heard env (publish_data env m).1.trace ≡ heard env m.trace
  unfolding publish_data refresh_status set_last_message now_ms
  publish_data-unheard h = grind (arith, publish_encoded-session, publish_encoded-unheard)

  pub publish_death-heard :
      is_ok (publish_death env m).0 ≡ true
      → heard env (publish_death env m).1.trace
        ≡ Heard.message m.session.topic_ndeath (encoded_bytes env ((death_result env m).1))
          ∷ heard env m.trace
  unfolding publish_death refresh_status set_last_message now_ms
  publish_death-heard h =
      grind (arith, publish_encoded-session, publish_encoded-heard, heard-notify)

  pub publish_death-unheard :
      is_ok (publish_death env m).0 ≡ false
      → heard env (publish_death env m).1.trace ≡ heard env m.trace
  unfolding publish_death refresh_status set_last_message now_ms
  publish_death-unheard h = grind (arith, publish_encoded-session, publish_encoded-unheard)
