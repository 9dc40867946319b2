-- ===== src/TimeSync/Lock.antt =====
-- components/time_sync/time_sync.c: the lock is given back.
use esp32_sparkplug.Prelude.{ℕ, suc, ◌-◌, ◌≡◌, true, false, is_some, [], ◌∷◌, if◌then◌else◌, arith}
use esp32_sparkplug.Esp.{is_ok}
use esp32_sparkplug.Device.{DeviceCall}
use esp32_sparkplug.TimeSync.Service.{lock, unlock, is_valid}
use esp32_sparkplug.Platform.{Trace, Call}
use esp32_sparkplug.Board.{Devices, Board}

module _ (dev : Devices) where
  -- How often the lock is taken and not given back.
  unfoldable pub held : Trace → ℕ
  held [] = 0
  held (Call.device_call (DeviceCall.mutex_take m) ∷ t) =
      if dev.bit t (DeviceCall.mutex_take m) then suc (held t) else held t
  held (Call.device_call (DeviceCall.mutex_give m) ∷ t) = held t - 1
  held (_ ∷ t) = held t

  pub lock-time : (b : Board) → (lock dev b).1.time ≡ b.time
  unfolding lock
  lock-time b = ground arith

  pub unlock-time : (b : Board) → (unlock dev b).1.time ≡ b.time
  unfolding unlock
  unlock-time b = ground arith

  pub is_valid-time : (b : Board) → (is_valid dev b).1.time ≡ b.time
  unfolding is_valid
  is_valid-time b = grind (arith, lock-time, unlock-time)

  -- A lock that is taken is there, and it is taken once more; a refused one is as it was.
  pub lock-held :
      (b : Board)
      → (is_ok (lock dev b).0 ≡ true
          → (held (lock dev b).1.node.trace ≡ suc (held b.node.trace))
            × (is_some b.time.lock ≡ true))
        × (is_ok (lock dev b).0 ≡ false → held (lock dev b).1.node.trace ≡ held b.node.trace)
  unfolding lock held
  lock-held b = ground arith

  pub unlock-held :
      (b : Board)
      → is_some b.time.lock ≡ true
      → held (unlock dev b).1.node.trace ≡ held b.node.trace - 1
  unfolding unlock held
  unlock-held b h = ground arith

  pub is_valid-held : (b : Board) → held (is_valid dev b).1.node.trace ≡ held b.node.trace
  unfolding is_valid held
  is_valid-held b = grind (arith, lock-held, unlock-held, lock-time)
