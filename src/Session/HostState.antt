-- ===== src/Session/HostState.antt =====
-- components/sparkplug_node/sparkplug_session.c: what a STATE message of the primary host says, and
-- when it is believed.
use esp32_sparkplug.Prelude.{
  ℕ, zero, suc, ◌+◌, ◌/◌, ◌%◌, ◌^◌, ◌<◌, ◌≤◌, ◌++◌, ◌≡◌, refl, ap, ◌∙◌, ℤ, pos, ◌≤ℤ◌, ◌<ℤ◌, ◌⊎◌,
  none, if◌then◌else◌, Bool, true, false, some, [], ◌∷◌, Bytes, codes, length, starts_with, arith,
}
use esp32_sparkplug.Prelude.Decimal.{decimal_onto}
use esp32_sparkplug.Session.Json.{
  key_pattern, value_after, clamp_pos, begins_with_digit, digits_from, strtoll, skip_spaces,
  find_json_key, after_pattern, skip_separators,
}
use esp32_sparkplug.Session.State.{primary_host_online, primary_host_offline}
use esp32_sparkplug.Session.Events.{state_fields, read_online, read_timestamp, parse_state_message}
use esp32_sparkplug.Platform.{Machine}

-- Reading the digits of `n` back.
digits_from-decimal_onto :
    (fuel n : ℕ) (rest : Bytes)
    → n ≤ fuel
    → digits_from 0 (decimal_onto fuel n rest) ≡ digits_from n rest
unfolding digits_from decimal_onto
digits_from-decimal_onto zero n rest h = ground arith
digits_from-decimal_onto (suc fuel) n rest h =
    grind (arith, digits_from-decimal_onto fuel (n / 10) ((48 + n % 10) ∷ rest))

decimal_onto-append :
    (fuel n : ℕ) (rest beyond : Bytes)
    → decimal_onto fuel n rest ++ beyond ≡ decimal_onto fuel n (rest ++ beyond)
unfolding decimal_onto
decimal_onto-append zero n rest beyond = refl
decimal_onto-append (suc fuel) n rest beyond =
    grind (arith, decimal_onto-append fuel (n / 10) ((48 + n % 10) ∷ rest))

-- It begins with a digit.
begins : (fuel n : ℕ) (rest : Bytes) → begins_with_digit (decimal_onto fuel n rest) ≡ true
unfolding decimal_onto
begins zero n rest = ground arith
begins (suc fuel) n rest = grind (arith, begins (fuel))

skip_separators-digit : (text : Bytes) → begins_with_digit text ≡ true → skip_separators text ≡ text
unfolding skip_separators
skip_separators-digit [] h = refl
skip_separators-digit (c ∷ cs) h = ground arith

strtoll-digit :
    (text : Bytes)
    → begins_with_digit text ≡ true
    → strtoll text ≡ some (clamp_pos (digits_from 0 text))
unfolding strtoll skip_spaces
strtoll-digit [] h = ground arith
strtoll-digit (c ∷ cs) h = ground arith

-- The payload that a Sparkplug host publishes, with `online` before `timestamp`.
unfoldable pub state_payload : Bool → ℕ → Bytes
unfolding decimal_onto
state_payload true n = codes "{\"online\":true,\"timestamp\":" ++ decimal_onto n n (codes "}")
state_payload false n = codes "{\"online\":false,\"timestamp\":" ++ decimal_onto n n (codes "}")

find_json_key-value :
    (json key : Bytes)
    → length (key_pattern key) < 64
    → length (key_pattern key) ≤ length json
    → find_json_key json key ≡ value_after (after_pattern (key_pattern key) json)
unfolding find_json_key
find_json_key-value json key h k = ground arith

length-decimal_onto : (fuel n : ℕ) (rest : Bytes) → length rest < length (decimal_onto fuel n rest)
unfolding decimal_onto
length-decimal_onto zero n rest = omega arith
length-decimal_onto (suc fuel) n rest =
    grind (arith, length-decimal_onto fuel (n / 10) ((48 + n % 10) ∷ rest))

-- What `strtoll` reads in the digits of `n`, whatever follows the closing brace.
read_digits :
    (n : ℕ) (beyond : Bytes)
    → n < 2 ^ 63
    → strtoll (decimal_onto n n (codes "}") ++ beyond) ≡ some (pos n)
unfolding digits_from
read_digits n beyond h =
    rw
      (
        decimal_onto-append n n (codes "}") beyond,
        strtoll-digit (decimal_onto n n (codes "}" ++ beyond)) (begins n n (codes "}" ++ beyond)),
        digits_from-decimal_onto n n (codes "}" ++ beyond) (omega arith),
      )
      (ground arith)

at_value-digit :
    (text : Bytes) → begins_with_digit text ≡ true → value_after (some (b':' ∷ text)) ≡ some text
unfolding skip_separators
at_value-digit [] h = ground arith
at_value-digit (c ∷ cs) h = ground arith

-- The timestamp's value is found where the host wrote it.
found_timestamp :
    (online : Bool) (n : ℕ)
    → find_json_key (state_payload online n) (codes "timestamp")
      ≡ some (decimal_onto n n (codes "}"))
unfolding state_payload after_pattern starts_with
found_timestamp true n =
    find_json_key-value (state_payload true n) (codes "timestamp") (omega arith) (omega arith)
    ∙ at_value-digit (decimal_onto n n (codes "}")) (begins n n (codes "}"))
found_timestamp false n =
    find_json_key-value (state_payload false n) (codes "timestamp") (omega arith) (omega arith)
    ∙ at_value-digit (decimal_onto n n (codes "}")) (begins n n (codes "}"))

read_written_online :
    (online : Bool) (n : ℕ) (beyond : Bytes)
    → read_online (find_json_key (state_payload online n) (codes "online")) beyond ≡ some online
unfolding state_payload after_pattern skip_separators read_online starts_with
read_written_online true n beyond =
    ap (λ v. read_online v beyond)
      (find_json_key-value (state_payload true n) (codes "online") (omega arith) (omega arith))
read_written_online false n beyond =
    ap (λ v. read_online v beyond)
      (find_json_key-value (state_payload false n) (codes "online") (omega arith) (omega arith))

state_fields-parts :
    (payload beyond : Bytes) (online : Bool) (timestamp : ℤ)
    → read_online (find_json_key payload (codes "online")) beyond ≡ some online
    → read_timestamp (find_json_key payload (codes "timestamp")) beyond ≡ some timestamp
    → state_fields payload beyond ≡ some (online, timestamp)
state_fields-parts payload beyond online timestamp h k = ground arith

state_payload_there : (online : Bool) (n : ℕ) → 0 < length (state_payload online n)
unfolding state_payload
state_payload_there true n = omega arith
state_payload_there false n = omega arith

-- The reader gets back what the host wrote, for a timestamp below 2^63 and whatever lies in memory
-- behind the payload.
pub state_fields-state_payload :
    (online : Bool) (n : ℕ) (beyond : Bytes)
    → n < 2 ^ 63
    → state_fields (state_payload online n) beyond ≡ some (online, pos n)
unfolding read_timestamp
state_fields-state_payload online n beyond h =
    state_fields-parts (state_payload online n) beyond online (pos n)
      (read_written_online online n beyond)
      (ap (λ v. read_timestamp v beyond) (found_timestamp online n) ∙ read_digits n beyond h)

-- A STATE message that a host wrote, with a timestamp below 2^63 and whatever lies in memory behind
-- it. If a timestamp that is not negative was accepted before and is later than the message's, the
-- message changes nothing and makes no command. Otherwise its timestamp becomes the last one, and
-- nothing else, and the command is the one for a host that is online or offline as it says.
pub parse_state_message_written :
    (online : Bool) (n : ℕ) (beyond : Bytes) (m : Machine)
    → n < 2 ^ 63
    → (pos 0 ≤ℤ m.session.primary_host_last_timestamp
        → pos n <ℤ m.session.primary_host_last_timestamp
        → parse_state_message (some (state_payload online n)) beyond m ≡ (none, m))
      × ((m.session.primary_host_last_timestamp <ℤ pos 0)
            ⊎ (m.session.primary_host_last_timestamp ≤ℤ pos n)
          → parse_state_message (some (state_payload online n)) beyond m ≡ (
            some (if online then primary_host_online else primary_host_offline),
            record m { session = record m.session { primary_host_last_timestamp = pos n } },
          ))
unfolding parse_state_message
parse_state_message_written online n beyond m h =
    let fields = state_fields-state_payload online n beyond h in
    let some_text = state_payload_there online n in grind arith
