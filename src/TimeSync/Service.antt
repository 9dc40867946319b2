-- ===== src/TimeSync/Service.antt =====
-- components/time_sync/time_sync.c: the SNTP service. The semaphore and the event group are
-- FreeRTOS's; a blocked call ends with its answer.
use esp32_sparkplug.Prelude.{
  ℕ, ◌+◌, ◌%◌, ◌^◌, ◌==◌, leb, ℤ, pos, ◌+ℤ◌, scale_ℤ, div_ℤ, leb_ℤ, Bool, true, false, not, ◌||◌,
  ◌∷◌, Option, none, some, CString, codes, length, is_some, snprintf_text, if◌then◌else◌,
}
use esp32_sparkplug.Esp.{
  EspErr, esp_ok, err_no_mem, err_invalid_arg, err_invalid_state, err_timeout, is_ok, Pointer,
}
use esp32_sparkplug.Device.{DeviceCall}
use esp32_sparkplug.TimeSync.{now_ms}
use esp32_sparkplug.TimeSync.State.{TimeState, TimeSyncConfig, TimeStatus, max_server_name_len}
use esp32_sparkplug.Platform.{Call}
use esp32_sparkplug.Board.{
  Devices, BoardAct, ◌>>=◌, ◌>>◌, pure, get, perform, modify_time, when, on_node, bit_of, handle_of,
}

-- `TIME_SYNC_DEFAULT_SERVER_NAME`.
abbrev pub default_server_name : CString
default_server_name = codes "pool.ntp.org"

-- `time_sync_is_valid_epoch_locked`.
unfoldable pub is_valid_epoch : TimeState → ℤ → Bool
is_valid_epoch s now_sec = leb_ℤ s.minimum_valid_epoch_sec now_sec

-- The seconds of `tv`, 0 where it is NULL, and its milliseconds.
abbrev pub seconds_of : Option (ℤ × ℤ) → ℤ
seconds_of none = pos 0
seconds_of (some tv) = tv.0

abbrev pub millis_of : Option (ℤ × ℤ) → ℤ
millis_of none = pos 0
millis_of (some tv) = scale_ℤ (tv.0) 1000 +ℤ div_ℤ (tv.1) 1000

-- `strnlen` against the bound, and the lower bound of the epoch.
abbrev pub name_or_default : Option CString → CString
name_or_default none = default_server_name
name_or_default (some name) = name

abbrev pub bad_config : TimeSyncConfig → Bool
bad_config c =
    (length (name_or_default c.server_name) == 0)
    || leb max_server_name_len (length (name_or_default c.server_name))
    || leb_ℤ c.minimum_valid_epoch_sec (pos 0)

module _ (dev : Devices) where
  -- `time_sync_lock` and `time_sync_unlock`.
  abbrev pub take_mutex : Option ℕ → BoardAct EspErr
  take_mutex none = pure err_invalid_state
  take_mutex (some m) = do
    taken ← bit_of dev (DeviceCall.mutex_take m)
    pure (if taken then esp_ok else err_timeout)

  unfoldable pub lock : BoardAct EspErr
  lock = do s ← get (λ b. b.time); take_mutex s.lock

  abbrev pub give_mutex : Option ℕ → BoardAct (Unit {0})
  give_mutex none = pure tt
  give_mutex (some m) = perform (DeviceCall.mutex_give m)

  unfoldable pub unlock : BoardAct (Unit {0})
  unlock = do s ← get (λ b. b.time); give_mutex s.lock

  abbrev pub with_group : (ℕ → DeviceCall) → Option ℕ → BoardAct (Unit {0})
  with_group c none = pure tt
  with_group c (some group) = perform (c group)

  abbrev pub set_ready : BoardAct (Unit {0})
  set_ready = do s ← get (λ b. b.time); with_group DeviceCall.set_ready_bit s.event_group

  abbrev pub clear_ready : BoardAct (Unit {0})
  clear_ready = do s ← get (λ b. b.time); with_group DeviceCall.clear_ready_bit s.event_group

  abbrev pub note_sync : Option (ℤ × ℤ) → BoardAct (Unit {0})
  note_sync tv = do
    modify_time
        (λ s. record s { sync_count = (s.sync_count + 1) % 2 ^ 32; last_sync_ms = millis_of tv })
    s ← get (λ b. b.time)
    when (is_valid_epoch s (seconds_of tv)) set_ready

  -- The callback of SNTP. The text that it formats is only logged.
  unfoldable pub notification_cb : Option (ℤ × ℤ) → BoardAct (Unit {0})
  notification_cb tv = do
    err ← lock
    if is_ok err then (do s ← get (λ b. b.time); when s.started (note_sync tv); unlock) else pure tt

  unfoldable pub is_valid : BoardAct Bool
  unfolding lock unlock is_valid_epoch
  is_valid = do
    now ←
        on_node
          (λ m. (dev.env.gettimeofday m.trace, record m { trace = Call.gettimeofday ∷ m.trace }))
    err ← lock
    if is_ok err
        then (do s ← get (λ b. b.time); unlock; pure (is_valid_epoch s (now.0)))
        else pure false

  abbrev pub create_mutex : Option ℕ → BoardAct (Unit {0})
  create_mutex (some m) = pure tt
  create_mutex none = do
    m ← handle_of dev DeviceCall.mutex_create
    modify_time (λ s. record s { lock = m })

  abbrev pub create_group : Option ℕ → BoardAct (Unit {0})
  create_group (some g) = pure tt
  create_group none = do
    g ← handle_of dev DeviceCall.ready_group_create
    modify_time (λ s. record s { event_group = g })

  -- The part of `time_sync_start` behind the lock.
  abbrev pub run_sntp : TimeSyncConfig → BoardAct EspErr
  run_sntp c = do
    modify_time (λ s. record s {
      server_name = snprintf_text max_server_name_len (name_or_default c.server_name);
      minimum_valid_epoch_sec = c.minimum_valid_epoch_sec;
      last_sync_ms = pos 0;
      sync_count = 0;
      started = true;
    })
    clear_ready
    unlock
    perform DeviceCall.sntp_set_callback
    perform DeviceCall.sntp_set_mode
    s ← get (λ b. b.time)
    perform (DeviceCall.sntp_set_server s.server_name)
    perform DeviceCall.sntp_init
    valid ← is_valid
    when valid set_ready
    pure esp_ok

  unfoldable pub lock_and_run : TimeSyncConfig → BoardAct EspErr
  lock_and_run c = do err ← lock; if is_ok err then run_sntp c else pure err_invalid_state

  abbrev pub run_if_created : TimeSyncConfig → BoardAct EspErr
  run_if_created c = do
    s ← get (λ b. b.time)
    if not (is_some s.lock) || not (is_some s.event_group) then pure err_no_mem else lock_and_run c

  abbrev pub set_up : TimeSyncConfig → BoardAct EspErr
  set_up c = do
    s ← get (λ b. b.time)
    create_mutex s.lock
    s ← get (λ b. b.time)
    create_group s.event_group
    run_if_created c

  unfoldable pub start : Option TimeSyncConfig → BoardAct EspErr
  start none = pure err_invalid_arg
  start (some c) =
      if bad_config c
      then pure err_invalid_arg
      else (do s ← get (λ b. b.time); if s.started then pure err_invalid_state else set_up c)

  -- The status is copied under the lock; the clock and the validity are read behind it.
  abbrev pub read_status : BoardAct (EspErr × Option TimeStatus)
  read_status = do
    s ← get (λ b. b.time)
    unlock
    now ← on_node (now_ms dev.env)
    valid ← is_valid
    busy ← bit_of dev DeviceCall.sntp_sync_status
    pure (
      esp_ok,
      some (record {
        started = s.started;
        valid = valid;
        sync_in_progress = busy;
        sync_count = s.sync_count;
        now_ms = now;
        last_sync_ms = s.last_sync_ms;
        server_name = snprintf_text max_server_name_len s.server_name;
      }),
    )

  unfoldable pub get_status : Pointer → BoardAct (EspErr × Option TimeStatus)
  get_status Pointer.null = pure (err_invalid_arg, none)
  get_status Pointer.valid = do
    err ← lock
    if is_ok err then read_status else pure (err_invalid_state, none)

  abbrev pub shut_down : BoardAct EspErr
  shut_down = do
    modify_time (λ s. record s { started = false })
    clear_ready
    unlock
    perform DeviceCall.sntp_stop
    pure esp_ok

  unfoldable pub stop : BoardAct EspErr
  stop = do
    s ← get (λ b. b.time)
    if s.started
        then (do err ← lock; if is_ok err then shut_down else pure err_invalid_state)
        else pure esp_ok
