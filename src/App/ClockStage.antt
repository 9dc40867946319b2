-- ===== src/App/ClockStage.antt =====
-- components/time_sync/time_sync.c: what starting the service and waiting for the time leave alone,
-- and that both end with a service that is started.
use esp32_sparkplug.Prelude.{ℕ, zero, suc, ◌-◌, ◌≡◌, Bool, true, Option, none, some, arith}
use esp32_sparkplug.Esp.{EspErr, is_ok}
use esp32_sparkplug.TimeSync.State.{TimeSyncConfig}
use esp32_sparkplug.TimeSync.Service
use esp32_sparkplug.TimeSync.Service.{
  create_mutex, create_group, run_sntp, lock_and_run, run_if_created, set_up,
}
use esp32_sparkplug.TimeSync.Wait.{
  finished, elapsed_since, sooner, wait_bit, settle, wait_then, poll, poll_rounds, wait_ready,
}
use esp32_sparkplug.TimeSync.Lock.{unlock-time, is_valid-time}
use esp32_sparkplug.Board.{Devices, Board, log}
use esp32_sparkplug.Device.{DeviceCall}
use esp32_sparkplug.App.Stages.{Ensures, Linked, Timed, Kept, Kept-trans}

module _ (dev : Devices) where
  lock-Kept : (b : Board) → Kept b (Service.lock dev b).1
  unfolding Service.lock
  lock-Kept b = ground arith

  unlock-Kept : (b : Board) → Kept b (Service.unlock dev b).1
  unfolding Service.unlock
  unlock-Kept b = ground arith

  is_valid-Kept : (b : Board) → Kept b (Service.is_valid dev b).1
  unfolding Service.is_valid
  is_valid-Kept b = grind (arith, lock-Kept, unlock-Kept)

  run_sntp-Kept :
      (c : TimeSyncConfig) (b : Board)
      → Kept b (run_sntp dev c b).1 × ((run_sntp dev c b).1.time.started ≡ true)
  run_sntp-Kept c b = grind (arith, unlock-Kept, unlock-time, is_valid-Kept, is_valid-time)

  lock_and_run-Kept :
      (c : TimeSyncConfig) (b : Board)
      → is_ok (lock_and_run dev c b).0 ≡ true
      → Kept b (lock_and_run dev c b).1 × ((lock_and_run dev c b).1.time.started ≡ true)
  unfolding lock_and_run
  lock_and_run-Kept c b ok =
      let l = lock-Kept b in let r = run_sntp-Kept c (Service.lock dev b).1 in ground arith

  create_mutex-Kept : (o : Option ℕ) (b : Board) → Kept b (create_mutex dev o b).1
  create_mutex-Kept none b = ground arith
  create_mutex-Kept (some m) b = ground arith

  create_group-Kept : (o : Option ℕ) (b : Board) → Kept b (create_group dev o b).1
  create_group-Kept none b = ground arith
  create_group-Kept (some g) b = ground arith

  run_if_created-Kept :
      (c : TimeSyncConfig) (b : Board)
      → is_ok (run_if_created dev c b).0 ≡ true
      → Kept b (run_if_created dev c b).1 × ((run_if_created dev c b).1.time.started ≡ true)
  run_if_created-Kept c b ok = let run = lock_and_run-Kept c b in ground arith

  set_up-Kept :
      (c : TimeSyncConfig) (b : Board)
      → is_ok (set_up dev c b).0 ≡ true
      → Kept b (set_up dev c b).1 × ((set_up dev c b).1.time.started ≡ true)
  set_up-Kept c b ok =
      let m = create_mutex-Kept b.time.lock b in
      let g = create_group-Kept locked.time.event_group locked in
      let r = run_if_created-Kept c ready ok in
      (Kept-trans b ready (run_if_created dev c ready).1 (Kept-trans b locked ready m g) (r.0), r.1)
    where
      locked : Board
      locked = (create_mutex dev b.time.lock b).1

      ready : Board
      ready = (create_group dev locked.time.event_group locked).1

  pub Service_start-Timed : (c : TimeSyncConfig) → Ensures Linked Timed (Service.start dev (some c))
  unfolding Service.start
  Service_start-Timed c b p ok = let up = set_up-Kept c b in ground arith

  -- A round of the wait that ends it with ESP_OK has seen the service started.
  settle-Kept :
      (ready : Bool) (b : Board)
      → Kept b (settle dev ready b).1
        × ((err : EspErr)
            → (settle dev ready b).0 ≡ finished err
            → is_ok err ≡ true
            → (settle dev ready b).1.time.started ≡ true)
  unfolding settle
  settle-Kept ready b = grind (arith, is_valid-Kept b, is_valid-time dev b)

  wait_bit-Kept : (w : ℕ) (o : Option ℕ) (b : Board) → Kept b (wait_bit dev w o b).1
  wait_bit-Kept w none b = ground arith
  wait_bit-Kept w (some g) b = ground arith

  wait_then-Kept :
      (w : ℕ) (b : Board)
      → Kept b (wait_then dev w b).1
        × ((err : EspErr)
            → (wait_then dev w b).0 ≡ finished err
            → is_ok err ≡ true
            → (wait_then dev w b).1.time.started ≡ true)
  unfolding wait_then
  wait_then-Kept w b =
      let s = settle-Kept waited.0 waited.1 in
      (
        Kept-trans b waited.1 (settle dev waited.0 waited.1).1
            (wait_bit-Kept w b.time.event_group b) (s.0),
        s.1,
      )
    where
      waited : Bool × Board
      waited = wait_bit dev w b.time.event_group b

  poll-Kept :
      (timeout start : ℕ) (b : Board)
      → Kept b (poll dev timeout start b).1
        × ((err : EspErr)
            → (poll dev timeout start b).0 ≡ finished err
            → is_ok err ≡ true
            → (poll dev timeout start b).1.time.started ≡ true)
  unfolding poll
  poll-Kept timeout start b =
      let for_ever = wait_then-Kept (dev.env.pd_ms_to_ticks 250) b in
      let bounded =
        wait_then-Kept
          (sooner dev (timeout - elapsed_since dev start (dev.tick_count b.node.trace))
            (dev.env.pd_ms_to_ticks 250))
          (log DeviceCall.tick_count b) in
      ground arith

  poll_rounds-Kept :
      (rounds timeout start : ℕ) (err : EspErr) (b : Board)
      → (poll_rounds dev rounds timeout start b).0 ≡ some err
      → is_ok err ≡ true
      → Kept b (poll_rounds dev rounds timeout start b).1
        × ((poll_rounds dev rounds timeout start b).1.time.started ≡ true)
  unfolding poll_rounds
  poll_rounds-Kept zero timeout start err b h ok = ground arith
  poll_rounds-Kept (suc rounds) timeout start err b h ok =
      let p = poll-Kept timeout start b in
      let done = p.1 err in
      let rest = poll_rounds-Kept rounds timeout start err (poll dev timeout start b).1 in
      ground arith

  -- The wait for the time.
  pub wait_ready-Timed :
      (rounds timeout_ms : ℕ) (err : EspErr) (b : Board)
      → Timed b
      → (wait_ready dev rounds timeout_ms b).0 ≡ some err
      → is_ok err ≡ true
      → Timed (wait_ready dev rounds timeout_ms b).1
  unfolding wait_ready
  wait_ready-Timed rounds timeout_ms err b p h ok =
      grind (arith, poll_rounds-Kept, is_valid-Kept, is_valid-time)
