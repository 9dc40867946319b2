-- ===== src/Sensor/Tmp36.antt =====
-- components/sensor_tmp36/sensor_tmp36.c: every operation of the sensor. Its critical sections are
-- single steps; out-parameters are results, `none` where the call does not write.
use esp32_sparkplug.Prelude.{
  ℕ, zero, suc, ◌==◌, ℤ, pos, ◌+ℤ◌, div_ℤ, Bool, true, false, not, ◌||◌, Option, none, some,
  if◌then◌else◌,
}
use esp32_sparkplug.Esp.{
  EspErr, esp_ok, err_invalid_arg, err_invalid_state, err_not_found, err_not_supported, is_ok,
  Pointer,
}
use esp32_sparkplug.AppConfig.{SensorConfig}
use esp32_sparkplug.Device.{DeviceCall}
use esp32_sparkplug.Sensor.{SensorReading}
use esp32_sparkplug.Sensor.State.{SensorState, CaliScheme, scheme_none, curve_fitting, line_fitting}
use esp32_sparkplug.Platform.{FloatUnit}
use esp32_sparkplug.Board.{
  Devices, BoardAct, ◌>>=◌, ◌>>◌, pure, ask, get, modify_sensor, ignore, on_ok, call,
}

-- A reading and a state with every byte zero.
abbrev pub zero_reading : SensorReading
zero_reading = record {
  valid = false;
  sample_count = 0;
  raw_average = pos 0;
  calibrated_mv = pos 0;
  temperature_c = 0;
}

abbrev pub zero_sensor : SensorState
zero_sensor = record {
  initialized = false;
  has_last_reading = false;
  adc_handle = none;
  cali_handle = none;
  cali_scheme = scheme_none;
  last_reading = zero_reading;
}

-- 0x43fa0000 and 0x41200000 are 500.0f and 10.0f.
unfoldable pub mv_to_celsius : FloatUnit → ℤ → ℕ
mv_to_celsius float millivolts =
    float.div (float.sub (float.of_int millivolts) 0x43fa0000) 0x41200000

-- A handle as a number, 0 for NULL.
abbrev pub raw_handle : Option ℕ → ℕ
raw_handle none = 0
raw_handle (some h) = h

module _ (dev : Devices) where
  abbrev pub config : SensorConfig
  config = dev.env.config.sensor

  abbrev pub delete_scheme : CaliScheme → ℕ → BoardAct EspErr
  delete_scheme scheme_none handle = pure esp_ok
  delete_scheme curve_fitting handle =
      if dev.curve_fitting_supported
      then call dev (DeviceCall.delete_curve_fitting handle)
      else pure err_not_supported
  delete_scheme line_fitting handle =
      if dev.line_fitting_supported
      then call dev (DeviceCall.delete_line_fitting handle)
      else pure err_not_supported

  unfoldable pub delete_calibration : Option ℕ → CaliScheme → BoardAct EspErr
  delete_calibration none scheme = pure esp_ok
  delete_calibration (some handle) scheme = delete_scheme scheme handle

  -- A scheme that is tried: its code, and the handle that it sets.
  abbrev pub Calibration : Type 0
  Calibration = EspErr × Option ℕ × CaliScheme

  abbrev pub try_scheme :
      DeviceCall → CaliScheme → (EspErr → Option ℕ → BoardAct Calibration) → BoardAct Calibration
  try_scheme c scheme otherwise = do
    made ← ask {A = EspErr × Option ℕ} c (λ t. (dev.result t c, dev.handle t c))
    if is_ok (made.0) then pure (esp_ok, made.1, scheme) else otherwise (made.0) (made.1)

  abbrev pub try_line_fitting : EspErr → Option ℕ → BoardAct Calibration
  try_line_fitting err handle =
      if dev.line_fitting_supported
      then try_scheme DeviceCall.create_line_fitting line_fitting (λ e h. pure (e, h, scheme_none))
      else pure (err, handle, scheme_none)

  -- `sensor_tmp36_create_calibration`, with out-pointers that are not NULL.
  unfoldable pub create_calibration : BoardAct Calibration
  create_calibration =
      if dev.curve_fitting_supported
      then try_scheme DeviceCall.create_curve_fitting curve_fitting try_line_fitting
      else try_line_fitting err_not_supported none

  -- `n` rounds of the sampling loop from `raw_sum`; the first failure ends it.
  unfoldable pub sum_samples : ℕ → Option ℕ → ℤ → BoardAct (EspErr × ℤ)
  sum_samples zero adc raw_sum b = ((esp_ok, raw_sum), b)
  sum_samples (suc n) adc raw_sum b =
      let read = DeviceCall.adc_read (raw_handle adc) in
      let next = ask {A = Unit {0}} read (λ t. tt) b in
      let rest = sum_samples n adc (raw_sum +ℤ dev.number b.node.trace read) (next.1) in
      if is_ok (dev.result b.node.trace read)
      then rest
      else ((dev.result b.node.trace read, raw_sum), next.1)

  -- The average, `none` where the call does not write it. The cast to `int` keeps it.
  unfoldable pub read_average_raw : BoardAct (EspErr × Option ℤ)
  unfolding div_ℤ
  read_average_raw = do
    s ← get (λ b. b.sensor)
    if not s.initialized || config.multisample_count == 0
        then pure (err_invalid_state, none)
        else (do
          sum ← sum_samples config.multisample_count s.adc_handle (pos 0)
          pure (
              if is_ok (sum.0)
              then (esp_ok, some (div_ℤ (sum.1) config.multisample_count))
              else (sum.0, none)))

  abbrev pub delete_unit : Option ℕ → EspErr → BoardAct EspErr
  delete_unit adc err = do ignore (call dev (DeviceCall.adc_del_unit (raw_handle adc))); pure err

  abbrev pub adopt : Option ℕ → Calibration → BoardAct EspErr
  adopt adc cali = do
    modify_sensor (λ s. record {
      initialized = true;
      has_last_reading = false;
      adc_handle = adc;
      cali_handle = cali.1;
      cali_scheme = cali.2;
      last_reading = zero_reading;
    })
    pure esp_ok

  -- The part of `sensor_tmp36_init` behind `adc_oneshot_new_unit`.
  abbrev pub set_up_unit : Option ℕ → BoardAct EspErr
  set_up_unit adc = do
    err ← call dev (DeviceCall.adc_config_channel (raw_handle adc))
    if is_ok err
        then (do
          cali ← create_calibration
          if is_ok (cali.0) then adopt adc cali else delete_unit adc (cali.0))
        else delete_unit adc err

  unfoldable pub init : BoardAct EspErr
  init = do
    s ← get (λ b. b.sensor)
    if s.initialized
        then pure esp_ok
        else if not (config.unit == 0) || config.multisample_count == 0
        then pure err_invalid_arg
        else (do
          made ←
              ask {A = EspErr × Option ℕ} DeviceCall.adc_new_unit
                (λ t. (dev.result t DeviceCall.adc_new_unit, dev.handle t DeviceCall.adc_new_unit))
          if is_ok (made.0) then set_up_unit (made.1) else pure (made.0))

  abbrev pub delete_adc : Option ℕ → BoardAct EspErr
  delete_adc none = pure esp_ok
  delete_adc (some adc) = call dev (DeviceCall.adc_del_unit adc)

  unfoldable pub deinit : BoardAct EspErr
  deinit = do
    s ← get (λ b. b.sensor)
    if s.initialized
        then on_ok (delete_calibration s.cali_handle s.cali_scheme)
            (on_ok (delete_adc s.adc_handle) (modify_sensor (λ _. zero_sensor) >> pure esp_ok))
        else pure esp_ok

  unfoldable pub is_initialized : BoardAct Bool
  is_initialized = get (λ b. b.sensor.initialized)

  abbrev pub reading_of : ℤ → ℤ → SensorReading
  reading_of raw_average calibrated_mv = record {
    valid = true;
    sample_count = config.multisample_count;
    raw_average = raw_average;
    calibrated_mv = calibrated_mv;
    temperature_c = mv_to_celsius dev.env.float calibrated_mv;
  }

  abbrev pub keep_reading : SensorReading → BoardAct (EspErr × Option SensorReading)
  keep_reading reading = do
    modify_sensor (λ s. record s { last_reading = reading; has_last_reading = true })
    pure (esp_ok, some reading)

  abbrev pub convert : ℕ → EspErr → Option ℤ → BoardAct (EspErr × Option SensorReading)
  convert cali err none = pure (err, none)
  convert cali err (some raw) = do
    mv ← ask {A = EspErr × ℤ} (DeviceCall.raw_to_voltage cali raw) (λ t. (
      dev.result t (DeviceCall.raw_to_voltage cali raw),
      dev.number t (DeviceCall.raw_to_voltage cali raw),
    ))
    if is_ok (mv.0) then keep_reading (reading_of raw (mv.1)) else pure (mv.0, none)

  abbrev pub read_with : Bool → Option ℕ → BoardAct (EspErr × Option SensorReading)
  read_with initialized none = pure (err_invalid_state, none)
  read_with initialized (some cali) =
      if initialized
      then (do raw ← read_average_raw; convert cali (raw.0) (raw.1))
      else pure (err_invalid_state, none)

  unfoldable pub read : Pointer → BoardAct (EspErr × Option SensorReading)
  read Pointer.null = pure (err_invalid_arg, none)
  read Pointer.valid = do s ← get (λ b. b.sensor); read_with s.initialized s.cali_handle

  unfoldable pub get_last_reading : Pointer → BoardAct (EspErr × Option SensorReading)
  get_last_reading Pointer.null = pure (err_invalid_arg, none)
  get_last_reading Pointer.valid = do
    s ← get (λ b. b.sensor)
    pure (if s.has_last_reading then (esp_ok, some s.last_reading) else (err_not_found, none))

  abbrev pub field_of :
      {A : Type 0} → (SensorReading → A) → EspErr × Option SensorReading → EspErr × Option A
  field_of f (err, none) = (err, none)
  field_of f (err, some reading) = (err, some (f reading))

  unfoldable pub read_mv : Pointer → BoardAct (EspErr × Option ℤ)
  read_mv Pointer.null = pure (err_invalid_arg, none)
  read_mv Pointer.valid = do r ← read Pointer.valid; pure (field_of (λ x. x.calibrated_mv) r)

  unfoldable pub read_celsius : Pointer → BoardAct (EspErr × Option ℕ)
  read_celsius Pointer.null = pure (err_invalid_arg, none)
  read_celsius Pointer.valid = do r ← read Pointer.valid; pure (field_of (λ x. x.temperature_c) r)
