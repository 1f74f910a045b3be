-- ===== src/Manager/Sensors/Flags.antt =====
-- What activate, changef and turnoff do to the fields of a sensor, on every branch.
use ze_sense_server.Prelude.{ℕ, ◌<◌, ◌≡◌, ◌≢◌, ◌==◌, ◌⊎◌, true, false, [], none, some, arith}
use ze_sense_server.Prelude.Result.{Returns}
use ze_sense_server.Codes.{location, sm_error}
use ze_sense_server.Manager.{Sensor, Platform, Done, responses}
use ze_sense_server.Manager.Sensors.{
  android_sensor_activate, android_sensor_changef, android_sensor_turnoff,
}

-- Android knows the sensor, and the GPS manager can be started.
pub record Works (p : Platform) (sensor : ℕ) : Type 0 where
  pub gps : p.gps_started ≡ true
  pub handle : ℕ
  pub known : p.default_sensor sensor ≡ some handle

-- An active sensor of Android's own has a handle.
abbrev pub Handled : ℕ → Sensor → Type 0
Handled sensor s = s.is_active ≡ true → (sensor == location) ≡ false → s.android_handle ≢ none

-- The fields that the three functions leave alone.
pub record Keeps {ℓ} {R : Type ℓ} (s : Sensor) (d : Done R) : Type 0 where
  pub streams : d.sensor.streams ≡ s.streams
  pub oneshots : d.sensor.oneshots ≡ s.oneshots
  pub freq : d.sensor.freq ≡ s.freq
  pub sensor : d.sensor.sensor ≡ s.sensor
  pub event_cache : d.sensor.event_cache ≡ s.event_cache
  pub quiet : responses d.effects ≡ []

module _ (p : Platform) (sensor : ℕ) where
  -- A sensor that can be turned on is active afterwards, with a handle unless it is the GPS.
  pub activate-Returns :
      (s : Sensor) (freq : ℕ)
      → Works p sensor
      → 0 < freq
      → Returns
          (λ d.
            Keeps s d
            × (d.sensor.is_active ≡ true)
            × Handled sensor d.sensor
            × (d.sensor.cache_valid ≡ s.cache_valid))
          (android_sensor_activate p sensor s freq)
  unfolding android_sensor_activate responses
  activate-Returns s freq w h = ground arith

  pub changef-Returns :
      (s : Sensor) (freq : ℕ)
      → 0 < freq
      → Returns
          (λ d. (d.sensor ≡ s) × (responses d.effects ≡ []))
          (android_sensor_changef p sensor s freq)
  unfolding android_sensor_changef responses
  changef-Returns s freq h = ground arith

  -- A turnoff either clears the flags and the handle, or fails and leaves the sensor as it was.
  pub turnoff_cases :
      (s : Sensor)
      → let d = android_sensor_turnoff p sensor s in
        Keeps s d
        × (((d.result ≡ 0) × (d.sensor.is_active ≡ false) × (d.sensor.cache_valid ≡ false))
            ⊎ ((d.result ≡ sm_error) × (d.sensor ≡ s)))
  unfolding android_sensor_turnoff responses
  turnoff_cases s = ground arith
