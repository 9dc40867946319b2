-- ===== src/Session/Publications.antt =====
-- components/sparkplug_node/sparkplug_session.c: what goes out on the wire. A publication is the
-- topic and bytes of one `esp_mqtt_client_publish`, newest first.
use esp32_sparkplug.Prelude.{
  ℕ, ℤ, ◌+◌, ◌%◌, ◌≡◌, refl, Bool, true, false, Option, none, some, List, [], ◌∷◌, Bytes, CString,
  pos, leb_ℤ, if◌then◌else◌, to_u64, to_i64, arith,
}
use esp32_sparkplug.Esp.{EspErr, is_ok, Pointer}
use esp32_sparkplug.TimeSync.{now_ms}
use esp32_sparkplug.Node.Payloads.{encode_nbirth, encode_ndata, encode_ndeath}
use esp32_sparkplug.Session.State.{Session, SessionStatus, payload_max_len}
use esp32_sparkplug.Session.Status.{refresh_status, set_last_message, notify}
use esp32_sparkplug.Session.Publish.{
  publish_bytes, publish_encoded, encoded_bytes, data_time, birth_payload, data_payload,
  death_payload, publish_birth, publish_data, publish_death,
}
use esp32_sparkplug.Session.Frames.{publish_encoded-session}
use esp32_sparkplug.Platform.{Env, Machine, Trace, Call}

abbrev pub Publication : Type 0
Publication = CString × Bytes

-- The session as the host sees it; `numbered` says that `bdSeq` has been used.
pub record Wire : Type 0 where
  pub alive : Bool
  pub seq : ℕ
  pub bdseq : ℕ
  pub numbered : Bool

abbrev pub wire : Session → Wire
wire s = record {
  alive = s.birth_complete;
  seq = s.seq;
  bdseq = s.bdseq;
  numbered = s.bdseq_initialized;
}

module _ (env : Env) where
  -- The client took the message if it answered with a message id, which is not negative. Its
  -- answer depends on the history before the call.
  abbrev pub published : Trace → List Publication
  published [] = []
  published (Call.mqtt_client_publish client topic payload ∷ t) =
      if leb_ℤ (pos 0) (env.mqtt_client_publish t client topic payload)
      then (topic, payload) ∷ published t
      else published t
  published (_ ∷ t) = published t

  -- A status callback publishes nothing.
  pub published-notify :
      (callback ctx : Option ℕ) (status : SessionStatus) (t : Trace)
      → published (notify callback ctx status t) ≡ published t
  published-notify none ctx status t = refl
  published-notify (some f) ctx status t = refl

module _ (env : Env) (m : Machine) where
  -- A publish that goes through adds one publication, of a payload that was encoded.
  pub publish_encoded-published :
      (r : EspErr × Option Bytes) (topic : CString)
      → is_ok (publish_encoded env r topic m).0 ≡ true
      → (is_ok (r.0) ≡ true)
        × (published env (publish_encoded env r topic m).1.trace
            ≡ (topic, encoded_bytes env (r.1)) ∷ published env m.trace)
  unfolding publish_bytes
  publish_encoded-published r topic h = ground arith

  -- One that does not adds none.
  pub publish_encoded-refused :
      (r : EspErr × Option Bytes) (topic : CString)
      → is_ok (publish_encoded env r topic m).0 ≡ false
      → published env (publish_encoded env r topic m).1.trace ≡ published env m.trace
  unfolding publish_bytes
  publish_encoded-refused r topic h = ground arith

module _ (env : Env) (m : Machine) where
  -- The moment that a birth or death is stamped with, and the encoder's answers.
  abbrev pub stamp : ℤ
  stamp = (now_ms env m).0

  abbrev pub birth_result : EspErr × Option Bytes
  birth_result =
      encode_nbirth env.nanopb (some (birth_payload env m.session stamp)) Pointer.valid
        payload_max_len Pointer.valid

  abbrev pub death_result : EspErr × Option Bytes
  death_result =
      encode_ndeath env.nanopb (some (death_payload env m.session.bdseq stamp)) Pointer.valid
        payload_max_len Pointer.valid

  abbrev pub data_stamp : ℤ
  data_stamp = (data_time env m.session.last_sample_ms m).0

  abbrev pub data_result : EspErr × Option Bytes
  data_result =
      encode_ndata env.nanopb (some (data_payload env m.session data_stamp)) Pointer.valid
        payload_max_len Pointer.valid

  -- A publish of an NBIRTH that succeeds adds one publication to those before it, of the encoded
  -- birth on its topic. The node is then born, its `seq` is 0, its `bdSeq` is kept, and no rebirth is
  -- pending.
  pub publish_birth_ok :
      is_ok (publish_birth env m).0 ≡ true
      → (is_ok (birth_result.0) ≡ true)
        × (published env (publish_birth env m).1.trace
            ≡ (m.session.topic_nbirth, encoded_bytes env (birth_result.1)) ∷ published env m.trace)
        × (wire (publish_birth env m).1.session ≡ record (wire m.session) { alive = true; seq = 0 })
        × ((publish_birth env m).1.session.rebirth_pending ≡ false)
  unfolding publish_birth refresh_status set_last_message now_ms
  publish_birth_ok h =
      grind (arith, publish_encoded-session, publish_encoded-published, published-notify)

  pub publish_birth_failed :
      is_ok (publish_birth env m).0 ≡ false
      → ((publish_birth env m).1.session ≡ m.session)
        × (published env (publish_birth env m).1.trace ≡ published env m.trace)
  unfolding publish_birth refresh_status set_last_message now_ms
  publish_birth_failed h = grind (arith, publish_encoded-session, publish_encoded-refused)

  -- A publish of an NDATA that succeeds adds one publication, of the encoded report with the next
  -- `seq` on its topic. `seq` is then one more modulo 256, `bdSeq` and the birth are kept, and the
  -- time of the last publication is the report's.
  pub publish_data_ok :
      is_ok (publish_data env m).0 ≡ true
      → (is_ok (data_result.0) ≡ true)
        × (published env (publish_data env m).1.trace
            ≡ (m.session.topic_ndata, encoded_bytes env (data_result.1)) ∷ published env m.trace)
        × (wire (publish_data env m).1.session
            ≡ record (wire m.session) { seq = (m.session.seq + 1) % 256 })
        × ((publish_data env m).1.session.last_publish_ms ≡ to_i64 (to_u64 data_stamp))
  unfolding publish_data refresh_status set_last_message now_ms
  publish_data_ok h =
      grind (arith, publish_encoded-session, publish_encoded-published, published-notify)

  pub publish_data_failed :
      is_ok (publish_data env m).0 ≡ false
      → ((publish_data env m).1.session ≡ m.session)
        × (published env (publish_data env m).1.trace ≡ published env m.trace)
  unfolding publish_data refresh_status set_last_message now_ms
  publish_data_failed h = grind (arith, publish_encoded-session, publish_encoded-refused)

  -- A publish of an NDEATH that succeeds adds one publication, of the encoded death with the
  -- session's `bdSeq` on its topic. The birth, `seq` and `bdSeq` are kept.
  pub publish_death_ok :
      is_ok (publish_death env m).0 ≡ true
      → (is_ok (death_result.0) ≡ true)
        × (published env (publish_death env m).1.trace
            ≡ (m.session.topic_ndeath, encoded_bytes env (death_result.1)) ∷ published env m.trace)
        × (wire (publish_death env m).1.session ≡ wire m.session)
  unfolding publish_death refresh_status set_last_message now_ms
  publish_death_ok h =
      grind (arith, publish_encoded-session, publish_encoded-published, published-notify)

  pub publish_death_failed :
      is_ok (publish_death env m).0 ≡ false
      → ((publish_death env m).1.session ≡ m.session)
        × (published env (publish_death env m).1.trace ≡ published env m.trace)
  unfolding publish_death refresh_status set_last_message now_ms
  publish_death_failed h = grind (arith, publish_encoded-session, publish_encoded-refused)

  -- A publish that fails, of whichever kind, leaves the session as it was and adds no publication.
  pub publish_failed :
      (is_ok (publish_birth env m).0 ≡ false
        → ((publish_birth env m).1.session ≡ m.session)
          × (published env (publish_birth env m).1.trace ≡ published env m.trace))
      × (is_ok (publish_data env m).0 ≡ false
          → ((publish_data env m).1.session ≡ m.session)
            × (published env (publish_data env m).1.trace ≡ published env m.trace))
      × (is_ok (publish_death env m).0 ≡ false
          → ((publish_death env m).1.session ≡ m.session)
            × (published env (publish_death env m).1.trace ≡ published env m.trace))
  publish_failed = (publish_birth_failed, publish_data_failed, publish_death_failed)
