-- ===== src/Session/Subscriptions.antt =====
-- components/sparkplug_node/sparkplug_session.c: when a node is born, by subscriptions, samples and
-- requests for a rebirth.
use esp32_sparkplug.Prelude.{◌⊎◌, ◌<ℤ◌, ◌≡◌, ℤ, pos, Bool, true, false, ◌-ℤ◌, ◌≤ℤ◌}
use esp32_sparkplug.Session.State.{Session}
use esp32_sparkplug.Session.Status.{refresh_status}
use esp32_sparkplug.Platform.{Env, Machine}

-- The machine as a rebirth is tried.
abbrev pub wanting : Machine → Machine
wanting m = (refresh_status (record m { session = record m.session { rebirth_pending = true } })).1

module _ (env : Env) where
  -- Whether a rebirth is pending.
  abbrev Pending : Bool → Machine → Type 0
  Pending b n = n.session.rebirth_pending ≡ b

  -- Why a report is due.
  abbrev pub IsDue : Session → Bool → ℤ → Type 0
  IsDue s force now =
      (force ≡ true)
      ⊎ (s.last_publish_ms <ℤ s.last_sample_ms)
      ⊎ (s.has_last_published_temperature ≡ false)
      ⊎ (env.float.ge
            (env.float.fabsf (env.float.sub s.last_temperature_c s.last_published_temperature_c))
            env.config.temperature.publish_deadband_c
          ≡ true)
      ⊎ (pos env.config.temperature.max_publish_interval_ms ≤ℤ (now -ℤ s.last_publish_ms))

  -- The node may report.
  pub record MayReport (s : Session) : Type 0 where
    pub born : s.birth_complete ≡ true
    pub connected : s.mqtt_connected ≡ true
    pub subscribed : s.ncmd_subscribed ≡ true
    pub sampled : s.has_temperature ≡ true
