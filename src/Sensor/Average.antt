-- ===== src/Sensor/Average.antt =====
-- components/sensor_tmp36/sensor_tmp36.c: the average of the samples, and the reading that is kept.
use esp32_sparkplug.Prelude.{
  ℕ, zero, suc, ◌+◌, ◌*◌, ◌/◌, ◌≤◌, ◌<◌, ◌≡◌, refl, ℤ, pos, pos_part, ◌≤ℤ◌, ◌+ℤ◌, div_ℤ, true,
  Option, none, some, arith,
}
use native.Mathlib.Nat.{le-div_iff_mul-le, div-lt_iff_lt-mul}
use esp32_sparkplug.Esp.{esp_ok, is_ok, Pointer}
use esp32_sparkplug.Device.{DeviceCall}
use esp32_sparkplug.Sensor.{SensorReading}
use esp32_sparkplug.Sensor.Tmp36.{
  raw_handle, config, sum_samples, read_average_raw, mv_to_celsius, read, get_last_reading,
}
use esp32_sparkplug.Platform.{Trace}
use esp32_sparkplug.Board.{Devices, Board, log}

-- Every sample of the ADC is a number from `lo` to `hi`.
pub record Samples (dev : Devices) (lo hi : ℕ) : Type 0 where
  pub sample : Trace → ℕ → ℕ
  pub reads : (t : Trace) (adc : ℕ) → dev.number t (DeviceCall.adc_read adc) ≡ pos (sample t adc)
  pub above : (t : Trace) (adc : ℕ) → lo ≤ sample t adc
  pub below : (t : Trace) (adc : ℕ) → sample t adc ≤ hi

pos+ℤpos : (a b : ℕ) → pos a +ℤ pos b ≡ pos (a + b)
unfolding ◌+ℤ◌
pos+ℤpos a b = ground arith

-- The quotient of what lies between two multiples.
between_multiples : (n lo hi r : ℕ) → 0 < n → n * lo ≤ r → r ≤ n * hi → (lo ≤ r / n) × (r / n ≤ hi)
between_multiples n lo hi r k h g = (
  (le-div_iff_mul-le k).1 (omega arith),
  let less = (div-lt_iff_lt-mul {k = n} {x = r} {y = suc hi} k).1 (omega arith) in omega arith,
)

module _ (dev : Devices) where
  pub sum_samples-sensor :
      (n : ℕ) (adc : Option ℕ) (s : ℤ) (b : Board) → (sum_samples dev n adc s b).1.sensor ≡ b.sensor
  unfolding sum_samples
  sum_samples-sensor zero adc s b = ground arith
  sum_samples-sensor (suc n) adc s b = grind (arith, sum_samples-sensor n adc)

  pub read_average_raw-sensor : (b : Board) → (read_average_raw dev b).1.sensor ≡ b.sensor
  unfolding read_average_raw
  read_average_raw-sensor b = grind (arith, sum_samples-sensor)

  -- A reading that is handed out is kept, and a read that fails changes nothing.
  read-get_last_reading :
      (b : Board)
      → ((reading : SensorReading)
          → (read dev Pointer.valid b).0.1 ≡ some reading
          → ((read dev Pointer.valid b).0.0 ≡ esp_ok)
            × ((get_last_reading dev Pointer.valid (read dev Pointer.valid b).1).0
                ≡ (esp_ok, some reading)))
        × ((read dev Pointer.valid b).0.1 ≡ none → (read dev Pointer.valid b).1.sensor ≡ b.sensor)
  unfolding read get_last_reading
  read-get_last_reading b = grind (arith, read_average_raw-sensor)

  module _ (lo hi : ℕ) (samples : Samples dev lo hi) where
    open samples use {sample, reads, above, below}

    sum_samples-bounds :
        (n : ℕ) (adc : Option ℕ) (s : ℕ) (b : Board)
        → is_ok (sum_samples dev n adc (pos s) b).0.0 ≡ true
        → (s + n * lo ≤ pos_part (sum_samples dev n adc (pos s) b).0.1)
          × (pos_part (sum_samples dev n adc (pos s) b).0.1 ≤ s + n * hi)
          × ((sum_samples dev n adc (pos s) b).0.1
              ≡ pos (pos_part (sum_samples dev n adc (pos s) b).0.1))
    unfolding sum_samples
    sum_samples-bounds zero adc s b = λ h. (omega arith, omega arith, refl)
    sum_samples-bounds (suc n) adc s b =
        rw (reads b.node.trace (raw_handle adc), pos+ℤpos s (sample b.node.trace (raw_handle adc)))
          (λ h.
            let rest =
              sum_samples-bounds n adc (s + sample b.node.trace (raw_handle adc))
                (log (DeviceCall.adc_read (raw_handle adc)) b) in
            let lo_ok = above b.node.trace (raw_handle adc) in
            let hi_ok = below b.node.trace (raw_handle adc) in ground arith)

    -- The average is that of at least one sample, and all samples were read.
    read_average_raw-sum :
        (raw : ℤ) (b : Board)
        → (read_average_raw dev b).0.1 ≡ some raw
        → (0 < (config dev).multisample_count)
          × (is_ok
                (sum_samples dev (config dev).multisample_count b.sensor.adc_handle (pos 0) b).0.0
              ≡ true)
          × (raw
              ≡ div_ℤ
                  (sum_samples dev (config dev).multisample_count b.sensor.adc_handle (pos 0) b).0.1
                  (config dev).multisample_count)
    unfolding read_average_raw
    read_average_raw-sum raw b h = ground arith

    read_average_raw-bounds :
        (raw : ℤ) (b : Board)
        → (read_average_raw dev b).0.1 ≡ some raw
        → (pos lo ≤ℤ raw) × (raw ≤ℤ pos hi)
    unfolding div_ℤ
    read_average_raw-bounds raw b h =
        let r = read_average_raw-sum raw b h in
        let sum = sum_samples-bounds (config dev).multisample_count b.sensor.adc_handle 0 b r.1 in
        let between =
          between_multiples (config dev).multisample_count lo hi
            (pos_part
              (sum_samples dev (config dev).multisample_count b.sensor.adc_handle (pos 0) b).0.1)
            r.0 (omega (arith, sum.0)) (omega (arith, sum.1)) in
        rw (r.2, sum.2) (omega (arith, between.0), omega (arith, between.1))

    read-parts :
        (reading : SensorReading) (b : Board)
        → (read dev Pointer.valid b).0.1 ≡ some reading
        → (pos lo ≤ℤ reading.raw_average)
          × (reading.raw_average ≤ℤ pos hi)
          × (reading.valid ≡ true)
          × (reading.sample_count ≡ (config dev).multisample_count)
          × (reading.temperature_c ≡ mv_to_celsius dev.env.float reading.calibrated_mv)
    unfolding read
    read-parts reading b h = grind (arith, read_average_raw-bounds)

    -- Where every sample lies from `lo` to `hi`, so does the average of a reading that
    -- `sensor_tmp36_read` hands out, whatever the number of samples. The reading is marked valid, has
    -- the configured number of samples, and its temperature is that of its own voltage; and from then
    -- on `sensor_tmp36_get_last_reading` gives it. A read that hands out none leaves the sensor's state
    -- as it was.
    pub read-bounds :
        (b : Board)
        → ((reading : SensorReading)
            → (read dev Pointer.valid b).0.1 ≡ some reading
            → (pos lo ≤ℤ reading.raw_average)
              × (reading.raw_average ≤ℤ pos hi)
              × (reading.valid ≡ true)
              × (reading.sample_count ≡ (config dev).multisample_count)
              × (reading.temperature_c ≡ mv_to_celsius dev.env.float reading.calibrated_mv)
              × ((get_last_reading dev Pointer.valid (read dev Pointer.valid b).1).0
                  ≡ (esp_ok, some reading)))
          × ((read dev Pointer.valid b).0.1 ≡ none → (read dev Pointer.valid b).1.sensor ≡ b.sensor)
    read-bounds b =
        let kept = read-get_last_reading b in
        (
          λ reading h.
              let r = read-parts reading b h in (r.0, r.1, r.2, r.3, r.4, (kept.0 reading h).1),
          kept.1,
        )
