-- ===== src/Carrier/Lost.antt =====
-- The carrier thread beside the Streaming Manager's oneshots and starts.
use ze_sense_server.Prelude.{
  ℕ, suc, ◌<◌, ◌≡◌, ◌≢◌, not, refl, ◌==◌, Bool, true, false, List, [], ◌∷◌, Option, none, some, ◌∙◌,
  arith,
}
use ze_sense_server.Prelude.Utlist.{Utlist}
use ze_sense_server.Prelude.Result.{fault, bad_conversion, Returns, Returns-if, Returns->>=, deref}
use ze_sense_server.Codes.{location, default_freq}
use ze_sense_server.Event.{Event}
use ze_sense_server.ReqBuf.{Request}
use ze_sense_server.Carriers.{CarriersQueue}
use ze_sense_server.Carrier.{Tick, carrier_loop, carrier_exit}
use ze_sense_server.Carrier.Period.{Timespec, sleep_time}
use ze_sense_server.Manager.{
  Sensor, Stream, Platform, Done, Effect, start_carrier, a_stream, a_oneshot,
}
use ze_sense_server.Manager.Sensors.{android_sensor_activate, has_carrier}
use ze_sense_server.Manager.Sensors.Flags.{Works}
use ze_sense_server.Manager.Streams.{raise_sensor, sm_start_stream, sm_new_stream}
use ze_sense_server.Manager.Requests.{serve_oneshot}
use ze_sense_server.Manager.Streams.{
  insert_stream, start_with, sm_new_oneshot, sm_find_stream, fresh_stream,
}

-- How many carrier threads some effects start.
pub carriers_started : List Effect → ℕ
carriers_started [] = 0
carriers_started (start_carrier i ∷ es) = suc (carriers_started es)
carriers_started (_ ∷ es) = carriers_started es

-- A sensor with a carrier, and surroundings in which it can be turned on.
pub record HasCarrier (p : Platform) (sensor : ℕ) : Type 0 where
  pub works : Works p sensor
  pub based : has_carrier sensor ≡ true
  pub created : p.thread_created sensor ≡ true
  pub memory : (p.malloc a_stream ≡ true) × (p.malloc a_oneshot ≡ true)

-- What an activation leaves where no carrier was running, and where one is about to end.
abbrev Fresh : Sensor → Done ℕ → Type 0
Fresh s d =
    (d.sensor.is_active ≡ true) × (d.sensor.freq ≡ s.freq) × (carriers_started d.effects ≡ 1)

abbrev Leaving : Done ℕ → Type 0
Leaving d =
    (d.sensor.is_active ≡ true)
    × (d.sensor.carrier_thread_started ≡ true)
    × (carriers_started d.effects ≡ 0)

-- A first round on a sensor, with no exit asked for.
abbrev pub first_tick : Sensor → Timespec → Bool → Tick
first_tick sensor clock malloc = record {
  globalexit = false;
  sensor = sensor;
  clock = clock;
  malloc = malloc;
}

-- One carrier thread is started, and its first round faults whatever follows.
abbrev pub Doomed : Utlist Event → Done (Unit {0}) → Type 0
Doomed ll d =
    (carriers_started d.effects ≡ 1)
    × ((clock : Timespec) (malloc : Bool) (ts : List Tick) (carrq : CarriersQueue)
        → carrier_loop ll (first_tick d.sensor clock malloc ∷ ts) carrq ≡ fault bad_conversion)

-- No carrier thread is started, and once the old one has ended the sensor is active without one.
abbrev pub Lost : Done (Option Stream) → Type 0
Lost d =
    (carriers_started d.effects ≡ 0)
    × ((carrier_exit d.sensor).is_active ≡ true)
    × ((carrier_exit d.sensor).carrier_thread_started ≡ false)

module _ (p : Platform) (sensor : ℕ) (c : HasCarrier p sensor) where
  not_gps : (sensor == location) ≡ false
  not_gps = let b = c.based in ground arith

  activate-Fresh :
      (s : Sensor) (freq : ℕ)
      → s.carrier_thread_started ≡ false
      → 0 < freq
      → Returns (Fresh s) (android_sensor_activate p sensor s freq)
  unfolding android_sensor_activate carriers_started
  activate-Fresh s freq off h = ground (arith, c.based, c.created, c.works.known, not_gps)

  activate-Leaving :
      (s : Sensor) (freq : ℕ)
      → s.carrier_thread_started ≡ true
      → 0 < freq
      → Returns Leaving (android_sensor_activate p sensor s freq)
  unfolding android_sensor_activate carriers_started
  activate-Leaving s freq off h = ground (arith, c.based, c.created, c.works.known, not_gps)

  infinite_period :
      (ll : Utlist Event) (t : Tick) (ts : List Tick) (carrq : CarriersQueue)
      → t.globalexit ≡ false
      → t.sensor.is_active ≡ true
      → t.sensor.freq ≡ 0
      → carrier_loop ll (t ∷ ts) carrq ≡ fault bad_conversion
  unfolding carrier_loop sleep_time
  infinite_period ll t ts carrq g on zero_freq = ground arith

  -- On a sensor that has a carrier, is idle and has no sample and no frequency yet, a oneshot starts
  -- the carrier thread and leaves the frequency at zero: the first round of that thread, whatever
  -- follows, casts an infinite period to an int.
  pub oneshot_carrier_faults :
      (ll : Utlist Event) (s : Sensor) (req : Request)
      → s.carrier_thread_started ≡ false
      → s.cache_valid ≡ false
      → s.freq ≡ 0
      → Returns
          (λ d.
            (carriers_started d.effects ≡ 1)
            × ((clock : Timespec) (malloc : Bool) (ts : List Tick) (carrq : CarriersQueue)
                → carrier_loop ll (first_tick d.sensor clock malloc ∷ ts) carrq
                  ≡ fault bad_conversion))
          (serve_oneshot p sensor s req)
  unfolding serve_oneshot sm_new_oneshot
  oneshot_carrier_faults ll s req off empty zero_freq =
      Returns-if (Doomed ll) s.cache_valid _ _ (λ hit. absurd (cc))
        (λ _.
          Returns->>= (Fresh s) (Doomed ll) (android_sensor_activate p sensor s default_freq) _
            (activate-Fresh s default_freq off (omega arith))
            (λ d pd.
              Returns->>= (λ (one : ℕ). Unit {0}) (Doomed ll)
                (deref (sm_new_oneshot (p.malloc a_oneshot) req.ticket)) _ registered
                (λ one _. (
                  pd.2,
                  λ clock malloc ts carrq.
                      infinite_period ll
                        (first_tick
                          (record (d.sensor) {
                            oneshots = p.oneshot_list.ll_append d.sensor.oneshots one;
                          })
                          clock malloc)
                        ts carrq refl pd.0 (pd.1 ∙ zero_freq),
                ))))
    where
      registered :
          Returns (λ (one : ℕ). Unit {0}) (deref (sm_new_oneshot (p.malloc a_oneshot) req.ticket))
      registered = ground (arith, c.memory.1)

  inserted-Lost :
      (d : Done ℕ) (at : Option ℕ) (t : Stream) → Leaving d → Lost (insert_stream p sensor d at t)
  unfolding insert_stream carrier_exit
  inserted-Lost d none t h = ground arith
  inserted-Lost d (some sub) t h = ground arith

  with_stream :
      (o : Option Stream) (s : Sensor) (reg freq : ℕ)
      → o ≢ none
      → s.carrier_thread_started ≡ true
      → s.is_active ≡ false
      → 0 < freq
      → Returns Lost (start_with p sensor o s reg freq)
  unfolding start_with raise_sensor
  with_stream none s reg freq made on idle h = absurd (made refl)
  with_stream (some t) s reg freq made on idle h =
      Returns->>= Leaving Lost (raise_sensor p sensor s freq) _
        (Returns-if Leaving (not s.is_active) _ _
          (λ _. activate-Leaving (record s { freq = freq }) freq on h)
          (λ busy. absurd (ground arith)))
        (λ d pd.
          inserted-Lost d (sm_find_stream d.sensor reg) (fresh_stream p sensor t reg freq) pd)

  -- If a stream is started after the carrier thread of a stopped sensor has left its loop, and
  -- before it says so, no carrier thread is started: once the old one has ended, the sensor is
  -- active and has none.
  pub start_loses_carrier :
      (s : Sensor) (reg freq : ℕ)
      → s.carrier_thread_started ≡ true
      → s.is_active ≡ false
      → 0 < freq
      → Returns Lost (sm_start_stream p sensor s reg freq)
  unfolding sm_start_stream sm_new_stream
  start_loses_carrier s reg freq on idle h =
      with_stream (sm_new_stream (p.malloc a_stream)) s reg freq stream_made on idle h
    where
      stream_made : sm_new_stream (p.malloc a_stream) ≢ none
      stream_made = ground (arith, c.memory.0)
