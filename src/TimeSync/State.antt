-- ===== src/TimeSync/State.antt =====
-- components/time_sync/time_sync.c: the context, and the records of time_sync.h.
use esp32_sparkplug.Prelude.{ℕ, ℤ, Bool, Option, CString}

abbrev pub max_server_name_len : ℕ
max_server_name_len = 64

-- `TIME_SYNC_DEFAULT_VALID_EPOCH_SEC`.
abbrev pub default_valid_epoch_sec : ℕ
default_valid_epoch_sec = 1704067200

-- `time_sync_context_t`.
pub record TimeState : Type 0 where
  pub started : Bool
  pub sync_count : ℕ
  pub minimum_valid_epoch_sec : ℤ
  pub last_sync_ms : ℤ
  pub server_name : CString
  pub event_group : Option ℕ
  pub lock : Option ℕ

pub record TimeSyncConfig : Type 0 where
  pub server_name : Option CString
  pub minimum_valid_epoch_sec : ℤ

pub record TimeStatus : Type 0 where
  pub started : Bool
  pub valid : Bool
  pub sync_in_progress : Bool
  pub sync_count : ℕ
  pub now_ms : ℤ
  pub last_sync_ms : ℤ
  pub server_name : CString
