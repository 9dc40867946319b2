-- ===== src/TimeSync/Examples.antt =====
-- The theorems about the time service at concrete inputs.
use esp32_sparkplug.Prelude.{ℕ, ◌+◌, ◌≤◌, ◌≡◌, ◌≢◌, refl, true, pos, none, some, ◌∷◌, codes, arith}
use esp32_sparkplug.Device.{DeviceCall}
use esp32_sparkplug.TimeSync.State.{TimeSyncConfig}
use esp32_sparkplug.TimeSync.Service.{start, notification_cb}
use esp32_sparkplug.TimeSync.Wait.{wait_ready}
use esp32_sparkplug.TimeSync.Lock.{held}
use esp32_sparkplug.TimeSync.Clock.{Ticking, time_of}
use esp32_sparkplug.TimeSync.Termination.{wait_ready_ends}
use esp32_sparkplug.TimeSync.Invariant.{zero_time, TimeInv, TimeReach, TimeReach-TimeInv}
use esp32_sparkplug.Testbed.Boards.{test_ticks, test_devices, test_board}
use esp32_sparkplug.Platform.{Trace, Call}
use esp32_sparkplug.Board.{Board}

-- A service that waits for a time that never comes.
abbrev waiting : Board
waiting = record test_board {
  time = record zero_time {
    started = true;
    minimum_valid_epoch_sec = pos 1704067200;
    server_name = codes "pool";
    event_group = some 3;
    lock = some 4;
  };
}

test_ticks-advances : (c : Call) (t : Trace) → test_ticks t ≤ test_ticks (c ∷ t)
unfolding test_ticks
test_ticks-advances c t = ground arith

test_ticks-prompt : (c : Call) (t : Trace) → test_ticks (c ∷ t) ≤ test_ticks t + time_of c + 0
unfolding test_ticks
test_ticks-prompt c t = ground arith

test_ticks-waits :
    (g w : ℕ) (t : Trace)
    → test_ticks t + w ≤ test_ticks (Call.device_call (DeviceCall.wait_ready_bit g w) ∷ t)
unfolding test_ticks
test_ticks-waits g w t = omega arith

test_ticks-Ticking : Ticking test_devices test_ticks 0
test_ticks-Ticking = record {
  counts = λ t. refl;
  advances = test_ticks-advances;
  prompt = test_ticks-prompt;
  waits = λ g w t unset. test_ticks-waits g w t;
  keeps = λ t s. refl;
}

wait_ready_ends_example : (wait_ready test_devices 1001 1000 waiting).0 ≢ none
wait_ready_ends_example =
    wait_ready_ends test_devices test_ticks 0 test_ticks-Ticking 1001 1000 3 waiting refl
      (omega arith) (omega arith) (omega arith) (omega arith) (omega arith)

abbrev pool : TimeSyncConfig
pool = record { server_name = some (codes "pool"); minimum_valid_epoch_sec = pos 1704067200 }

abbrev after_start : Board
after_start = (start test_devices (some pool) test_board).1

abbrev after_sync : Board
after_sync = (notification_cb test_devices (some (pos 1800000000, pos 0)) after_start).1

nothing_held : held test_devices test_board.node.trace ≡ 0
unfolding held
nothing_held = refl

TimeReach-TimeInv_example : TimeInv after_sync.time × (held test_devices after_sync.node.trace ≡ 0)
TimeReach-TimeInv_example = TimeReach-TimeInv test_devices (
    TimeReach.callback_turn (some (pos 1800000000, pos 0)) after_start
      (TimeReach.start_turn (some pool) test_board (TimeReach.boot test_board refl nothing_held)))
