-- ===== src/Manager/Sensors.antt =====
-- android_sensor_activate, android_sensor_changef and android_sensor_turnoff of
-- ze_streaming_manager.c, for the sensor of type `sensor` in the state `s`.
pub mod Flags
use ze_sense_server.Prelude.{
  ℕ, zero, suc, ◌+◌, ◌*◌, ◌/◌, ◌==◌, ◌||◌, ◌&&◌, not, Bool, true, false, if◌then◌else◌, List, [],
  ◌∷◌, ◌++◌, Option, none, some,
}
use ze_sense_server.Prelude.Result.{Result, ok, fault, division_by_zero, ◌>>=◌}
use ze_sense_server.Codes.{location, proximity, orientation, sm_error}
use ze_sense_server.Manager.{
  Sensor, Platform, Done, Effect, enable_sensor, set_event_rate, disable_sensor, gps_start,
  gps_change, gps_stop, start_carrier,
}

-- `(1000L/freq)*1000`, the period in microseconds.
pub period_us : ℕ → Result ℕ
period_us freq = if freq == 0 then fault division_by_zero else ok (1000 / freq * 1000)

-- The sensors whose stream is made by a carrier thread.
abbrev pub has_carrier : ℕ → Bool
has_carrier sensor = sensor == proximity || sensor == orientation

module _ (p : Platform) (sensor : ℕ) where
  -- The start of the carrier thread, once the sensor is flagged as active.
  pub start_carrier_thread : Sensor → List Effect → Done ℕ
  start_carrier_thread s done =
      if has_carrier sensor && not s.carrier_thread_started
      then if p.thread_created sensor
        then record {
          sensor = record s { carrier_thread_started = true };
          effects = done ++ start_carrier sensor ∷ [];
          result = 0;
        }
        else record { sensor = s; effects = done; result = sm_error }
      else record { sensor = s; effects = done; result = 0 }

  -- The branch for Android's own sensors, by the handle that Android gives.
  activate_handle : Option ℕ → Sensor → ℕ → Result (Done ℕ)
  unfolding start_carrier_thread period_us
  activate_handle none s freq =
      ok (record { sensor = record s { android_handle = none }; effects = []; result = sm_error })
  activate_handle (some h) s freq = do
    us ← period_us freq
    ok (
        start_carrier_thread (record s { android_handle = some h; is_active = true })
          (enable_sensor h ∷ set_event_rate (some h) us ∷ []))

  unfoldable pub android_sensor_activate : Sensor → ℕ → Result (Done ℕ)
  unfolding activate_handle
  android_sensor_activate s freq =
      if sensor == location
      then if p.gps_started
        then ok (record {
          sensor = record s { is_active = true };
          effects = gps_start ∷ [];
          result = 0;
        })
        else ok (record { sensor = s; effects = gps_start ∷ []; result = sm_error })
      else activate_handle (p.default_sensor sensor) s freq

  unfoldable pub android_sensor_changef : Sensor → ℕ → Result (Done ℕ)
  unfolding period_us
  android_sensor_changef s freq =
      if sensor == location
      then ok (record {
        sensor = s;
        effects = gps_change ∷ [];
        result = if p.gps_changed then 0 else sm_error;
      })
      else (do
        us ← period_us freq
        ok (record {
          sensor = s;
          effects = set_event_rate s.android_handle us ∷ [];
          result = if p.rate_fails s.android_handle us then sm_error else 0;
        }))

  -- The two flags that a successful turnoff clears.
  abbrev pub inactive : Sensor → Sensor
  inactive s = record s { is_active = false; cache_valid = false }

  unfoldable pub android_sensor_turnoff : Sensor → Done ℕ
  android_sensor_turnoff s =
      if sensor == location
      then if p.gps_stopped
        then record { sensor = inactive s; effects = gps_stop ∷ []; result = 0 }
        else record { sensor = s; effects = gps_stop ∷ []; result = sm_error }
      else if p.disable_fails s.android_handle
      then record { sensor = s; effects = disable_sensor s.android_handle ∷ []; result = sm_error }
      else record {
        sensor = inactive (record s { android_handle = none });
        effects = disable_sensor s.android_handle ∷ [];
        result = 0;
      }
