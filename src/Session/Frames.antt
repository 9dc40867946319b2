-- ===== src/Session/Frames.antt =====
-- components/sparkplug_node/sparkplug_session.c: the calls that leave the session's state alone, and
-- when a publish goes through.
use esp32_sparkplug.Prelude.{ℕ, ◌≡◌, ◌≢◌, refl, Bool, true, Option, none, Bytes, CString, arith}
use esp32_sparkplug.Esp.{EspErr, is_ok}
use esp32_sparkplug.TimeSync.{now_ms}
use esp32_sparkplug.Session.Publish.{
  should_publish, publish_bytes, publish_encoded, encoded_bytes, data_time,
}
use esp32_sparkplug.Wifi.Manager.{simulate_disconnect, resume_simulated_disconnect}
use esp32_sparkplug.Platform.{Env, Machine}

module _ (env : Env) (m : Machine) where
  pub now_ms-session : (now_ms env m).1.session ≡ m.session
  unfolding now_ms
  now_ms-session = refl

  pub data_time-session : (t : _) → (data_time env t m).1.session ≡ m.session
  unfolding now_ms
  data_time-session t = ground arith

  pub should_publish-session : (force : Bool) → (should_publish env force m).1.session ≡ m.session
  unfolding should_publish now_ms
  should_publish-session force = refl

  pub publish_bytes-session :
      (topic : CString) (payload : Bytes)
      → (publish_bytes env topic payload m).1.session ≡ m.session
  unfolding publish_bytes
  publish_bytes-session topic payload = ground arith

  pub publish_encoded-session :
      (r : EspErr × Option Bytes) (topic : CString)
      → (publish_encoded env r topic m).1.session ≡ m.session
  publish_encoded-session r topic =
      ground (arith, publish_bytes-session topic (encoded_bytes env (r.1)))

  pub publish_bytes-client :
      (topic : CString) (payload : Bytes)
      → is_ok (publish_bytes env topic payload m).0 ≡ true
      → m.session.client ≢ none
  unfolding publish_bytes
  publish_bytes-client topic payload h = ground arith

  -- Nothing is published without a client.
  pub publish_encoded-client :
      (r : EspErr × Option Bytes) (topic : CString)
      → is_ok (publish_encoded env r topic m).0 ≡ true
      → m.session.client ≢ none
  publish_encoded-client r topic h =
      ground (arith, publish_bytes-client topic (encoded_bytes env (r.1)))

  pub simulate_disconnect-session : (d : ℕ) → (simulate_disconnect env d m).1.session ≡ m.session
  unfolding simulate_disconnect
  simulate_disconnect-session d = ground arith

  pub resume_simulated_disconnect-session :
      (resume_simulated_disconnect env m).1.session ≡ m.session
  unfolding resume_simulated_disconnect
  resume_simulated_disconnect-session = ground arith
