-- ===== src/Sensor/Lifetime.antt =====
-- components/sensor_tmp36/sensor_tmp36.c: what the sensor holds of ESP-IDF, and that it gives it back.
use esp32_sparkplug.Prelude.{
  ℕ, ◌≡◌, ◌⊎◌, refl, ◌∙◌, Bool, true, false, not, Option, none, some, [], ◌∷◌, ◌==◌, if◌then◌else◌,
  arith,
}
use esp32_sparkplug.Esp.{EspErr, esp_ok, is_ok}
use esp32_sparkplug.Device.{DeviceCall}
use esp32_sparkplug.Sensor.State.{SensorState, curve_fitting, line_fitting}
use esp32_sparkplug.Sensor.Tmp36.{
  zero_sensor, raw_handle, set_up_unit, delete_unit, delete_calibration, delete_adc,
  create_calibration, init, deinit,
}
use esp32_sparkplug.Platform.{Trace, Call}
use esp32_sparkplug.Board.{Devices, Board, BoardAct, log, on_ok, modify_sensor, ◌>>◌, pure}

-- Giving a handle back releases that handle and no other.
abbrev pub released : ℕ → Option ℕ → Option ℕ
released handle none = none
released handle (some held) = if held == handle then none else some held

module _ (dev : Devices) where
  -- What a call changes of the ADC unit that is held, by its answer.
  abbrev pub unit_after : DeviceCall → Trace → Option ℕ → Option ℕ
  unit_after DeviceCall.adc_new_unit t h =
      if is_ok (dev.result t DeviceCall.adc_new_unit)
      then dev.handle t DeviceCall.adc_new_unit
      else h
  unit_after (DeviceCall.adc_del_unit adc) t h =
      if is_ok (dev.result t (DeviceCall.adc_del_unit adc)) then released adc h else h
  unit_after _ t h = h

  -- The same for the calibration scheme.
  abbrev pub scheme_after : DeviceCall → Trace → Option ℕ → Option ℕ
  scheme_after DeviceCall.create_curve_fitting t h =
      if is_ok (dev.result t DeviceCall.create_curve_fitting)
      then dev.handle t DeviceCall.create_curve_fitting
      else h
  scheme_after DeviceCall.create_line_fitting t h =
      if is_ok (dev.result t DeviceCall.create_line_fitting)
      then dev.handle t DeviceCall.create_line_fitting
      else h
  scheme_after (DeviceCall.delete_curve_fitting c) t h =
      if is_ok (dev.result t (DeviceCall.delete_curve_fitting c)) then released c h else h
  scheme_after (DeviceCall.delete_line_fitting c) t h =
      if is_ok (dev.result t (DeviceCall.delete_line_fitting c)) then released c h else h
  scheme_after _ t h = h

  unfoldable pub held_unit : Trace → Option ℕ
  held_unit [] = none
  held_unit (Call.device_call c ∷ t) = unit_after c t (held_unit t)
  held_unit (_ ∷ t) = held_unit t

  unfoldable pub held_scheme : Trace → Option ℕ
  held_scheme [] = none
  held_scheme (Call.device_call c ∷ t) = scheme_after c t (held_scheme t)
  held_scheme (_ ∷ t) = held_scheme t

  -- The latest call was a deletion of an ADC unit, and ESP-IDF refused it.
  abbrev pub refused_deletion : Trace → Bool
  refused_deletion (Call.device_call (DeviceCall.adc_del_unit adc) ∷ t) =
      not (is_ok (dev.result t (DeviceCall.adc_del_unit adc)))
  refused_deletion _ = false

  -- Nothing is held.
  pub record HoldsNothing (b : Board) : Type 0 where
    pub unit : held_unit b.node.trace ≡ none
    pub scheme : held_scheme b.node.trace ≡ none

  -- The sensor's handles are those that are held, and its scheme is one of the chip's.
  pub record Owns (b : Board) : Type 0 where
    pub unit : held_unit b.node.trace ≡ b.sensor.adc_handle
    pub scheme : held_scheme b.node.trace ≡ b.sensor.cali_handle
    pub supported :
        ((b.sensor.cali_scheme ≡ curve_fitting) × (dev.curve_fitting_supported ≡ true))
        ⊎ ((b.sensor.cali_scheme ≡ line_fitting) × (dev.line_fitting_supported ≡ true))

  create_calibration-holds :
      (b : Board)
      → held_scheme b.node.trace ≡ none
      → (held_unit (create_calibration dev b).1.node.trace ≡ held_unit b.node.trace)
        × ((create_calibration dev b).1.sensor ≡ b.sensor)
        × (is_ok (create_calibration dev b).0.0 ≡ false
            → held_scheme (create_calibration dev b).1.node.trace ≡ none)
        × (is_ok (create_calibration dev b).0.0 ≡ true
            → (held_scheme (create_calibration dev b).1.node.trace ≡ (create_calibration dev b).0.1)
              × (((create_calibration dev b).0.2 ≡ curve_fitting)
                    × (dev.curve_fitting_supported ≡ true)
                  ⊎ ((create_calibration dev b).0.2 ≡ line_fitting)
                    × (dev.line_fitting_supported ≡ true)))
  unfolding create_calibration held_unit held_scheme
  create_calibration-holds b h = ground arith

  -- The set-up of a unit that was made: owned, or given back unless that is refused.
  abbrev Outcome : Board → Board → Type 0
  Outcome b c =
      (c.sensor.initialized ≡ true → Owns c)
      × (c.sensor.initialized ≡ false
          → (c.sensor ≡ b.sensor)
            × (held_scheme c.node.trace ≡ none)
            × ((held_unit c.node.trace ≡ none) ⊎ (refused_deletion c.node.trace ≡ true)))

  delete_unit-Outcome :
      (unit : Option ℕ) (err : _) (b : Board)
      → b.sensor.initialized ≡ false
      → held_unit b.node.trace ≡ unit
      → held_scheme b.node.trace ≡ none
      → Outcome b (delete_unit dev unit err b).1
  unfolding held_unit held_scheme
  delete_unit-Outcome none err b i u s = ground arith
  delete_unit-Outcome (some h) err b i u s = ground arith

  set_up_unit-Outcome :
      (unit : Option ℕ) (b : Board)
      → b.sensor.initialized ≡ false
      → held_unit b.node.trace ≡ unit
      → held_scheme b.node.trace ≡ none
      → Outcome b (set_up_unit dev unit b).1
  unfolding held_unit held_scheme
  set_up_unit-Outcome unit b i u s = grind (
    arith,
    delete_unit-Outcome,
    create_calibration-holds (log (DeviceCall.adc_config_channel (raw_handle unit)) b),
  )

  init-Outcome :
      (b : Board) → b.sensor.initialized ≡ false → HoldsNothing b → Outcome b (init dev b).1
  unfolding init held_unit held_scheme
  init-Outcome b i h = grind (
    arith,
    set_up_unit-Outcome (dev.handle b.node.trace DeviceCall.adc_new_unit)
        (log DeviceCall.adc_new_unit b),
  )

  delete_calibration-holds :
      (b : Board) (handle : Option ℕ)
      → held_scheme b.node.trace ≡ handle
      → ((b.sensor.cali_scheme ≡ curve_fitting) × (dev.curve_fitting_supported ≡ true))
        ⊎ ((b.sensor.cali_scheme ≡ line_fitting) × (dev.line_fitting_supported ≡ true))
      → is_ok (delete_calibration dev handle b.sensor.cali_scheme b).0 ≡ true
      → (held_scheme (delete_calibration dev handle b.sensor.cali_scheme b).1.node.trace ≡ none)
        × (held_unit (delete_calibration dev handle b.sensor.cali_scheme b).1.node.trace
            ≡ held_unit b.node.trace)
  unfolding delete_calibration held_unit held_scheme
  delete_calibration-holds b none e k ok = ground arith
  delete_calibration-holds b (some h) e k ok = ground arith

  delete_adc-holds :
      (b : Board) (handle : Option ℕ)
      → held_unit b.node.trace ≡ handle
      → is_ok (delete_adc dev handle b).0 ≡ true
      → (held_unit (delete_adc dev handle b).1.node.trace ≡ none)
        × (held_scheme (delete_adc dev handle b).1.node.trace ≡ held_scheme b.node.trace)
  unfolding held_unit held_scheme
  delete_adc-holds b none e ok = ground arith
  delete_adc-holds b (some h) e ok = ground arith

  -- A chain that succeeds ran each of its calls, and each succeeded.
  on_ok_success :
      (first next : BoardAct EspErr) (b : Board)
      → is_ok (on_ok first next b).0 ≡ true
      → (is_ok (first b).0 ≡ true)
        × (is_ok (next (first b).1).0 ≡ true)
        × ((on_ok first next b).1 ≡ (next (first b).1).1)
  on_ok_success first next b h = ground arith

  -- What `sensor_tmp36_deinit` does to an initialised sensor.
  delete_all : SensorState → BoardAct EspErr
  delete_all s =
      on_ok (delete_calibration dev s.cali_handle s.cali_scheme)
        (on_ok (delete_adc dev s.adc_handle) (modify_sensor (λ _. zero_sensor) >> pure esp_ok))

  deinit-delete_all :
      (b : Board) → b.sensor.initialized ≡ true → deinit dev b ≡ delete_all b.sensor b
  unfolding deinit delete_all
  deinit-delete_all b i = rw i refl

  delete_all-HoldsNothing :
      (b : Board)
      → Owns b
      → is_ok (delete_all b.sensor b).0 ≡ true
      → HoldsNothing (delete_all b.sensor b).1
  unfolding delete_all
  delete_all-HoldsNothing b o ok =
      let parts = on_ok_success calibration rest b ok in
      let last = on_ok_success adc clear (calibration b).1 (parts.1) in
      let first = delete_calibration-holds b b.sensor.cali_handle o.scheme o.supported (parts.0) in
      let second =
        delete_adc-holds (calibration b).1 b.sensor.adc_handle (first.1 ∙ o.unit) (last.0) in
      let same = parts.2 ∙ last.2 in
      rw same (record { unit = second.0; scheme = second.1 ∙ first.0 })
    where
      clear : BoardAct EspErr
      clear = modify_sensor (λ _. zero_sensor) >> pure esp_ok

      calibration : BoardAct EspErr
      calibration = delete_calibration dev b.sensor.cali_handle b.sensor.cali_scheme

      adc : BoardAct EspErr
      adc = delete_adc dev b.sensor.adc_handle

      rest : BoardAct EspErr
      rest = on_ok adc clear

  deinit-HoldsNothing :
      (b : Board)
      → b.sensor.initialized ≡ true
      → Owns b
      → is_ok (deinit dev b).0 ≡ true
      → HoldsNothing (deinit dev b).1
  deinit-HoldsNothing b i o = rw (deinit-delete_all b i) (delete_all-HoldsNothing b o)

  -- A sensor that is off and holds nothing of ESP-IDF, and `sensor_tmp36_init`, whatever its calls
  -- answer. Where the sensor is on afterwards, its ADC unit and calibration scheme are the ones that
  -- are held, and a `sensor_tmp36_deinit` that succeeds next gives both back. Where it is not, its
  -- state is as it was, no scheme is held, and no unit either, unless ESP-IDF refused to delete it.
  pub init_gives_back :
      (b : Board)
      → b.sensor.initialized ≡ false
      → HoldsNothing b
      → ((init dev b).1.sensor.initialized ≡ true
          → Owns (init dev b).1
            × (is_ok (deinit dev (init dev b).1).0 ≡ true
                → HoldsNothing (deinit dev (init dev b).1).1))
        × ((init dev b).1.sensor.initialized ≡ false
            → ((init dev b).1.sensor ≡ b.sensor)
              × (held_scheme (init dev b).1.node.trace ≡ none)
              × ((held_unit (init dev b).1.node.trace ≡ none)
                  ⊎ (refused_deletion (init dev b).1.node.trace ≡ true)))
  init_gives_back b i h =
      let out = init-Outcome b i h in
      (λ on. (out.0 on, λ ok. deinit-HoldsNothing (init dev b).1 on (out.0 on) ok), out.1)
