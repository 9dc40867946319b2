-- ===== src/TimeSync/Invariant.antt =====
-- components/time_sync/time_sync.c: the service as a transition system.
use esp32_sparkplug.Prelude.{
  ℕ, ◌-◌, ◌^◌, ◌<◌, ◌≡◌, ◌∙◌, ℤ, pos, ◌<ℤ◌, true, false, Option, none, some, is_some, [], length,
  length-snprintf_text, snprintf_text_fits, arith,
}
use esp32_sparkplug.Esp.{Pointer}
use esp32_sparkplug.TimeSync.{now_ms}
use esp32_sparkplug.TimeSync.State.{TimeState, TimeSyncConfig, max_server_name_len}
use esp32_sparkplug.TimeSync.Service.{
  name_or_default, bad_config, lock, notification_cb, is_valid, create_mutex, create_group,
  run_sntp, lock_and_run, run_if_created, set_up, start, get_status, stop,
}
use esp32_sparkplug.TimeSync.Lock.{
  held, lock-time, unlock-time, is_valid-time, lock-held, unlock-held, is_valid-held,
}
use esp32_sparkplug.Board.{Devices, Board}

-- The context before any code has run.
abbrev pub zero_time : TimeState
zero_time = record {
  started = false;
  sync_count = 0;
  minimum_valid_epoch_sec = pos 0;
  last_sync_ms = pos 0;
  server_name = [];
  event_group = none;
  lock = none;
}

-- A service that runs has its lock, its event group, a positive bound on valid times and a name.
pub record TimeInv (s : TimeState) : Type 0 where
  pub locked : s.started ≡ true → is_some s.lock ≡ true
  pub grouped : s.started ≡ true → is_some s.event_group ≡ true
  pub bounded : s.started ≡ true → pos 0 <ℤ s.minimum_valid_epoch_sec
  pub named : s.started ≡ true → 0 < length s.server_name
  pub fits : length s.server_name < max_server_name_len
  pub counted : s.sync_count < 2 ^ 32

module _ (dev : Devices) where
  stop-TimeInv :
      (b : Board)
      → TimeInv b.time
      → TimeInv (stop dev b).1.time × (held dev (stop dev b).1.node.trace ≡ held dev b.node.trace)
  unfolding stop held
  stop-TimeInv b v = grind (arith, lock-held, unlock-held, lock-time, unlock-time)

  notification_cb-TimeInv :
      (tv : Option (ℤ × ℤ)) (b : Board)
      → TimeInv b.time
      → TimeInv (notification_cb dev tv b).1.time
        × (held dev (notification_cb dev tv b).1.node.trace ≡ held dev b.node.trace)
  unfolding notification_cb held
  notification_cb-TimeInv tv b v = grind (arith, lock-held, unlock-held, lock-time, unlock-time)

  get_status-TimeInv :
      (b : Board)
      → TimeInv b.time
      → TimeInv (get_status dev Pointer.valid b).1.time
        × (held dev (get_status dev Pointer.valid b).1.node.trace ≡ held dev b.node.trace)
  unfolding get_status now_ms held
  get_status-TimeInv b v =
      grind (arith, lock-held, unlock-held, lock-time, unlock-time, is_valid-time, is_valid-held)

  -- Behind the lock, with a configuration that was not refused.
  run_sntp-TimeInv :
      (c : TimeSyncConfig) (b : Board)
      → bad_config c ≡ false
      → is_some b.time.lock ≡ true
      → is_some b.time.event_group ≡ true
      → TimeInv (run_sntp dev c b).1.time
        × (held dev (run_sntp dev c b).1.node.trace ≡ held dev b.node.trace - 1)
  unfolding held
  run_sntp-TimeInv c b good l g =
      let fits = length-snprintf_text max_server_name_len (name_or_default c.server_name) in
      let whole = snprintf_text_fits max_server_name_len (name_or_default c.server_name) in
      grind (arith, unlock-held, unlock-time, is_valid-time, is_valid-held)

  lock_and_run-TimeInv :
      (c : TimeSyncConfig) (b : Board)
      → bad_config c ≡ false
      → TimeInv b.time
      → is_some b.time.event_group ≡ true
      → TimeInv (lock_and_run dev c b).1.time
        × (held dev (lock_and_run dev c b).1.node.trace ≡ held dev b.node.trace)
  unfolding lock_and_run
  lock_and_run-TimeInv c b good v g =
      let l = lock-held dev b in
      let same = lock-time dev b in let run = run_sntp-TimeInv c (lock dev b).1 good in grind arith

  -- Before the service is started, its handles change freely.
  create_mutex-TimeInv :
      (o : Option ℕ) (b : Board)
      → b.time.started ≡ false
      → TimeInv b.time
      → (TimeInv (create_mutex dev o b).1.time)
        × ((create_mutex dev o b).1.time.started ≡ false)
        × (held dev (create_mutex dev o b).1.node.trace ≡ held dev b.node.trace)
  unfolding held
  create_mutex-TimeInv none b off v = ground arith
  create_mutex-TimeInv (some m) b off v = ground arith

  create_group-TimeInv :
      (o : Option ℕ) (b : Board)
      → b.time.started ≡ false
      → TimeInv b.time
      → (TimeInv (create_group dev o b).1.time)
        × ((create_group dev o b).1.time.started ≡ false)
        × (held dev (create_group dev o b).1.node.trace ≡ held dev b.node.trace)
  unfolding held
  create_group-TimeInv none b off v = ground arith
  create_group-TimeInv (some g) b off v = ground arith

  run_if_created-TimeInv :
      (c : TimeSyncConfig) (b : Board)
      → bad_config c ≡ false
      → TimeInv b.time
      → TimeInv (run_if_created dev c b).1.time
        × (held dev (run_if_created dev c b).1.node.trace ≡ held dev b.node.trace)
  run_if_created-TimeInv c b good v = let run = lock_and_run-TimeInv c b good v in ground arith

  set_up-TimeInv :
      (c : TimeSyncConfig) (b : Board)
      → bad_config c ≡ false
      → b.time.started ≡ false
      → TimeInv b.time
      → TimeInv (set_up dev c b).1.time
        × (held dev (set_up dev c b).1.node.trace ≡ held dev b.node.trace)
  set_up-TimeInv c b good off v =
      let m = create_mutex-TimeInv b.time.lock b off v in
      let g = create_group-TimeInv locked.time.event_group locked m.1 m.0 in
      let r = run_if_created-TimeInv c ready good g.0 in (r.0, r.1 ∙ g.2 ∙ m.2)
    where
      locked : Board
      locked = (create_mutex dev b.time.lock b).1

      ready : Board
      ready = (create_group dev locked.time.event_group locked).1

  start-TimeInv :
      (c : Option TimeSyncConfig) (b : Board)
      → TimeInv b.time
      → TimeInv (start dev c b).1.time
        × (held dev (start dev c b).1.node.trace ≡ held dev b.node.trace)
  unfolding start
  start-TimeInv none b v = ground arith
  start-TimeInv (some c) b v = let up = set_up-TimeInv c b in ground arith

  is_valid-TimeInv :
      (b : Board)
      → TimeInv b.time
      → TimeInv (is_valid dev b).1.time
        × (held dev (is_valid dev b).1.node.trace ≡ held dev b.node.trace)
  is_valid-TimeInv b v = (rw (is_valid-time dev b) v, is_valid-held dev b)

  -- What keeps the invariant and the lock goes on from a lock that is not held.
  keeps :
      (b c : Board)
      → TimeInv b.time × (held dev b.node.trace ≡ 0)
      → (TimeInv b.time → TimeInv c.time × (held dev c.node.trace ≡ held dev b.node.trace))
      → TimeInv c.time × (held dev c.node.trace ≡ 0)
  keeps b c v step = ((step (v.0)).0, (step (v.0)).1 ∙ v.1)

  -- The turns of the service: its operations, the callback of SNTP, and what leaves it alone.
  pub data TimeReach : Board → Type 0 where
    boot : (b : Board) → b.time ≡ zero_time → held dev b.node.trace ≡ 0 → TimeReach b
    start_turn : (c : Option TimeSyncConfig) (b : Board) → TimeReach b → TimeReach (start dev c b).1
    stop_turn : (b : Board) → TimeReach b → TimeReach (stop dev b).1
    status_turn : (b : Board) → TimeReach b → TimeReach (get_status dev Pointer.valid b).1
    valid_turn : (b : Board) → TimeReach b → TimeReach (is_valid dev b).1
    callback_turn :
        (tv : Option (ℤ × ℤ)) (b : Board) → TimeReach b → TimeReach (notification_cb dev tv b).1
    elsewhere :
        (b c : Board)
        → TimeReach b
        → c.time ≡ b.time
        → held dev c.node.trace ≡ held dev b.node.trace
        → TimeReach c

  -- However `time_sync_start`, `time_sync_stop`, `time_sync_get_status`, `time_sync_is_valid` and
  -- SNTP's callback follow each other, with other code between them that leaves the service alone, and
  -- whatever their calls answer: between them the lock is not
  -- held, so that every branch that took it has given it back; and a service that runs has its lock
  -- and its event group, a positive lower bound on valid times and a server name that is not empty.
  -- The name always fits its buffer, and the counter of synchronisations its 32 bits.
  pub TimeReach-TimeInv : {b : Board} → TimeReach b → TimeInv b.time × (held dev b.node.trace ≡ 0)
  TimeReach-TimeInv (boot b z h) = ground arith
  TimeReach-TimeInv (start_turn c b r) =
      keeps b (start dev c b).1 (TimeReach-TimeInv r) (start-TimeInv c b)
  TimeReach-TimeInv (stop_turn b r) = keeps b (stop dev b).1 (TimeReach-TimeInv r) (stop-TimeInv b)
  TimeReach-TimeInv (status_turn b r) =
      keeps b (get_status dev Pointer.valid b).1 (TimeReach-TimeInv r) (get_status-TimeInv b)
  TimeReach-TimeInv (valid_turn b r) =
      keeps b (is_valid dev b).1 (TimeReach-TimeInv r) (is_valid-TimeInv b)
  TimeReach-TimeInv (callback_turn tv b r) =
      keeps b (notification_cb dev tv b).1 (TimeReach-TimeInv r) (notification_cb-TimeInv tv b)
  TimeReach-TimeInv (elsewhere b c r e h) = let v = TimeReach-TimeInv r in (rw e (v.0), h ∙ v.1)
