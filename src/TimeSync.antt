-- ===== src/TimeSync.antt =====
-- components/time_sync/time_sync.c: the wall clock in milliseconds.
pub mod State
pub mod Clock
pub mod Termination
pub mod Lock
pub mod Invariant
pub mod Service
pub mod Wait
mod Examples
use esp32_sparkplug.Prelude.{ℤ, ◌+ℤ◌, scale_ℤ, div_ℤ}
use esp32_sparkplug.Platform.{Env, Act, Call, ◌>>=◌, pure, ask}

module _ (env : Env) where
  unfoldable pub now_ms : Act ℤ
  unfolding scale_ℤ div_ℤ
  now_ms = do
    now ← ask Call.gettimeofday env.gettimeofday
    pure (scale_ℤ (now.0) 1000 +ℤ div_ℤ (now.1) 1000)
