-- ===== src/Session/Protocol.antt =====
-- components/sparkplug_node/sparkplug_session.c: the Sparkplug protocol as the session has to follow
-- it, stated on what the host sees: whether the node is born, its `seq` and `bdSeq`, and what the
-- broker hears.
use esp32_sparkplug.Prelude.{
  ℕ, ◌+◌, ◌%◌, ◌≡◌, refl, ap, true, false, Option, some, ◌∷◌, Bytes, Bool-cases, inl, inr, CString,
}
use esp32_sparkplug.Esp.{EspErr, is_ok, Pointer}
use esp32_sparkplug.Node.Payloads.{
  BirthPayload, DataPayload, DeathPayload, encode_nbirth, encode_ndata, encode_ndeath,
}
use esp32_sparkplug.Session.State.{payload_max_len}
use esp32_sparkplug.Session.Publish.{
  encoded_bytes, birth_payload, data_payload, death_payload, publish_birth, publish_data,
  publish_death,
}
use esp32_sparkplug.Session.Heard.{
  Heard, heard, publish_birth-heard, publish_birth-unheard, publish_data-heard,
  publish_data-unheard, publish_death-heard, publish_death-unheard,
}
use esp32_sparkplug.Session.Publications.{
  Wire, wire, stamp, data_stamp, publish_birth_ok, publish_birth_failed, publish_data_ok,
  publish_data_failed, publish_death_ok, publish_death_failed,
}
use esp32_sparkplug.Platform.{Env, Machine}

-- The number of the connection that follows: the first has 0, and then each has one more modulo 256.
abbrev pub IsNext : Wire → ℕ → Type 0
IsNext w b = (w.numbered ≡ false → b ≡ 0) × (w.numbered ≡ true → b ≡ (w.bdseq + 1) % 256)

module _ (env : Env) where
  abbrev pub nbirth : BirthPayload → EspErr × Option Bytes
  nbirth p = encode_nbirth env.nanopb (some p) Pointer.valid payload_max_len Pointer.valid

  abbrev pub ndata : DataPayload → EspErr × Option Bytes
  ndata p = encode_ndata env.nanopb (some p) Pointer.valid payload_max_len Pointer.valid

  abbrev pub ndeath : DeathPayload → EspErr × Option Bytes
  ndeath p = encode_ndeath env.nanopb (some p) Pointer.valid payload_max_len Pointer.valid

  -- Between `m` and `n` the broker hears one message, an encoded payload.
  pub record Sends (topic : CString) (encoded : EspErr × Option Bytes) (m n : Machine)
      : Type 0 where
    pub encodes : is_ok (encoded.0) ≡ true
    pub sends :
        heard env n.trace ≡ Heard.message topic (encoded_bytes env (encoded.1)) ∷ heard env m.trace

  abbrev pub Silent : Machine → Machine → Type 0
  Silent m n = heard env n.trace ≡ heard env m.trace

  -- The moves of the protocol, and their sequences.
  pub data Move (m n : Machine) : Type 0 where
    -- Nothing that the host sees.
    quiet : wire n.session ≡ wire m.session → Silent m n → Move m n
    -- NBIRTH carries the session's `bdSeq` and restarts `seq` at 0.
    born :
        (p : BirthPayload)
        → p.bdseq ≡ m.session.bdseq
        → Sends m.session.topic_nbirth (nbirth p) m n
        → wire n.session ≡ record (wire m.session) { alive = true; seq = 0 }
        → Move m n
    -- NDATA only from a born node, with the next `seq`.
    reports :
        (p : DataPayload)
        → m.session.birth_complete ≡ true
        → p.seq ≡ (m.session.seq + 1) % 256
        → Sends m.session.topic_ndata (ndata p) m n
        → wire n.session ≡ record (wire m.session) { seq = (m.session.seq + 1) % 256 }
        → Move m n
    -- NDEATH carries the session's `bdSeq`.
    dies :
        (p : DeathPayload)
        → p.bdseq ≡ m.session.bdseq
        → Sends m.session.topic_ndeath (ndeath p) m n
        → wire n.session ≡ wire m.session
        → Move m n
    -- The connection is gone.
    drops : wire n.session ≡ record (wire m.session) { alive = false } → Silent m n → Move m n
    -- A connection is being opened.
    resets :
        wire n.session ≡ record (wire m.session) { alive = false; seq = 0 } → Silent m n → Move m n
    -- The client starts a connection, under the next `bdSeq`.
    opens :
        (c b : ℕ)
        → heard env n.trace ≡ Heard.connection c ∷ heard env m.trace
        → m.session.birth_complete ≡ false
        → m.session.seq ≡ 0
        → IsNext (wire m.session) b
        → wire n.session ≡ record (wire m.session) { bdseq = b; numbered = true }
        → Move m n

  -- Sequences of moves.
  pub data Moves : Machine → Machine → Type 0 where
    one : {m n : Machine} → Move m n → Moves m n
    then : {m k n : Machine} → Moves m k → Moves k n → Moves m n

  pub publish_birth-Move : (m : Machine) → Move m (publish_birth env m).1
  publish_birth-Move m = elim (Bool-cases (is_ok (publish_birth env m).0)) [
    | inl good ↦
        let r = publish_birth_ok env m good in
        born (birth_payload env m.session (stamp env m)) refl
          (record { encodes = r.0; sends = publish_birth-heard env m good }) (r.2)
    | inr bad ↦
        let r = publish_birth_failed env m bad in
        quiet (ap wire (r.0)) (publish_birth-unheard env m bad)
  ]

  pub publish_data-Move :
      (m : Machine) → m.session.birth_complete ≡ true → Move m (publish_data env m).1
  publish_data-Move m alive = elim (Bool-cases (is_ok (publish_data env m).0)) [
    | inl good ↦
        let r = publish_data_ok env m good in
        reports (data_payload env m.session (data_stamp env m)) alive refl
          (record { encodes = r.0; sends = publish_data-heard env m good }) (r.2)
    | inr bad ↦
        let r = publish_data_failed env m bad in
        quiet (ap wire (r.0)) (publish_data-unheard env m bad)
  ]

  pub publish_death-Move : (m : Machine) → Move m (publish_death env m).1
  publish_death-Move m = elim (Bool-cases (is_ok (publish_death env m).0)) [
    | inl good ↦
        let r = publish_death_ok env m good in
        dies (death_payload env m.session.bdseq (stamp env m)) refl
          (record { encodes = r.0; sends = publish_death-heard env m good }) (r.2)
    | inr bad ↦
        let r = publish_death_failed env m bad in
        quiet (ap wire (r.0)) (publish_death-unheard env m bad)
  ]
