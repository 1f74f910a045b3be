-- ===== src/Manager/Loop.antt =====
-- The part of the thread loop of ze_streaming_manager.c that takes events from the two queues in
-- turn, logs them for the statistics, and dispatches them.
pub mod Known
pub mod Phase
use ze_sense_server.Prelude.{
  ℕ, zero, suc, ◌+◌, ◌==◌, ltb, ◌||◌, if◌then◌else◌, not, Bool, true, false, List, [], ◌∷◌, ◌++◌,
  Option, none, some, set, replicate,
}
use ze_sense_server.Prelude.Result.{Result, ok, fault, ◌>>=◌, read, store}
use ze_sense_server.Codes.{
  accelerometer, proximity, light, orientation, gyroscope, queue_req_ratio, num_samples,
}
use ze_sense_server.Event.{Event, zero_event}
use ze_sense_server.Carriers.{CarriersQueue, get_carrier_event}
use ze_sense_server.Manager.{Sensor, Platform, Done, Effect}
use ze_sense_server.Manager.Dispatch.{cache_event, dispatch_event}

-- An array of generation and collection times with the index of its next place.
pub record Log : Type 0 where
  pub entries : List (ℕ × ℕ)
  pub counter : ℕ

-- An array of NUM_SAMPLES places, as the program starts with it.
abbrev pub empty_log : Log
empty_log = record { entries = replicate num_samples (0, 0); counter = 0 }

-- The state of this part: the events that Android holds ready, the carriers queue, the sensors,
-- the logs by sensor type, and what has been done so far.
pub record Queues : Type 0 where
  pub samples : List Event
  pub carrq : CarriersQueue
  pub sensors : List Sensor
  pub accel : Log
  pub prox : Log
  pub lights : Log
  pub orient : Log
  pub gyro : Log
  pub effects : List Effect

-- The sensors whose real samples are only cached, since a carrier makes their stream.
abbrev pub event_based : ℕ → Bool
event_based kind = kind == proximity || kind == orientation

unfoldable pub log_event : ℕ → Event → Log → Result Log
log_event ntp event l = do
  entries ← store l.entries l.counter (event.timestamp, ntp)
  ok (record { entries = entries; counter = l.counter + 1 })

module _ (p : Platform) where
  -- Real samples of the event based sensors go into the caches until another sample is found.
  unfoldable pub skip_cached :
      List Event → List Sensor → Result (Option Event × List Event × List Sensor)
  skip_cached [] sensors = ok (none, [], sensors)
  skip_cached (e ∷ es) sensors =
      if event_based e.kind
      then (do
        s ← read sensors e.kind
        skip_cached es (set sensors e.kind (record s { event_cache = e; cache_valid = true })))
      else ok (some e, es, sensors)

  -- The next event of the selected queue, if there is one.
  unfoldable pub poll : (from_samples : Bool) → Queues → Result (Option Event × Queues)
  poll true q = do
    (e, samples, sensors) ← skip_cached q.samples q.sensors
    ok (e, record q { samples = samples; sensors = sensors })
  poll false q =
      let (have_events, e, carrq) = get_carrier_event q.carrq zero_event in
      ok (if ltb 0 have_events then some e else none, record q { carrq = carrq })

  -- The log of the sensor type, where it has one.
  unfoldable pub log_sample : Event → Queues → Result Queues
  log_sample e q =
      if e.kind == accelerometer
      then (do l ← log_event p.ntp e q.accel; ok (record q { accel = l }))
      else if e.kind == proximity
      then (do l ← log_event p.ntp e q.prox; ok (record q { prox = l }))
      else if e.kind == light
      then (do l ← log_event p.ntp e q.lights; ok (record q { lights = l }))
      else if e.kind == orientation
      then (do l ← log_event p.ntp e q.orient; ok (record q { orient = l }))
      else if e.kind == gyroscope
      then (do l ← log_event p.ntp e q.gyro; ok (record q { gyro = l }))
      else ok q

  unfoldable pub send_event : (from_samples : Bool) → Option Event → Queues → Result Queues
  send_event from_samples none q = ok q
  send_event from_samples (some e) q = do
    q' ← log_sample e q
    s ← read q'.sensors e.kind
    d ← dispatch_event p e.kind from_samples e s
    ok (record q' { sensors = set q'.sensors e.kind d.sensor; effects = q'.effects ++ d.effects })

  -- What the other threads have added to the two queues before a round.
  abbrev pub arrive : List Event × List Event → Queues → Queues
  arrive (samples, carried) q = record q {
    samples = q.samples ++ samples;
    carrq = record (q.carrq) { head = q.carrq.head ++ carried };
  }

  -- `n` rounds, from the queue selected on, which changes from round to round.
  unfoldable pub rounds :
      (ℕ → List Event × List Event) → (n : ℕ) → (from_samples : Bool) → Queues → Result Queues
  rounds new zero from_samples q = ok q
  rounds new (suc n) from_samples q = do
    (e, q') ← poll from_samples (arrive (new n) q)
    q'' ← send_event from_samples e q'
    rounds new n (not from_samples) q''

  -- The rounds between two requests.
  unfoldable pub queue_phase : (ℕ → List Event × List Event) → Queues → Result Queues
  queue_phase new q = rounds new queue_req_ratio true q
