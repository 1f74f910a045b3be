-- ===== src/Carrier.antt =====
-- ze_carrier.c: the thread that makes the stream of an event based sensor out of its cache, and
-- ze_timing.c.
pub mod Period
pub mod Sleep
pub mod Rounds
pub mod Lost
use ze_sense_server.Prelude.{Bool, true, false, if◌then◌else◌, not, ◌&&◌, List, [], ◌∷◌}
use ze_sense_server.Prelude.Utlist.{Utlist}
use ze_sense_server.Prelude.Result.{Result, ok, ◌>>=◌}
use ze_sense_server.Event.{Event}
use ze_sense_server.Carriers.{CarriersQueue, put_carrier_event}
use ze_sense_server.Carrier.Period.{Timespec, get_ntp, sleep_time}
use ze_sense_server.Manager.{Sensor}

-- What the thread finds in one round: the flag, the sensor as the Streaming Manager has left it,
-- the time, and whether the queue's allocation succeeds.
pub record Tick : Type 0 where
  pub globalexit : Bool
  pub sensor : Sensor
  pub clock : Timespec
  pub malloc : Bool

-- The test of the loop.
abbrev pub goes_on : Tick → Bool
goes_on t = not t.globalexit && t.sensor.is_active

-- The cached event, at the time of the round.
abbrev pub stamped : Tick → Event
stamped t = record (t.sensor.event_cache) { timestamp = get_ntp t.clock }

-- The queue and the sleeps after some rounds, and whether the loop has been left.
pub record Carried : Type 0 where
  pub carrq : CarriersQueue
  pub sleeps : List Timespec
  pub left : Bool

abbrev pub then_sleep : Timespec → Carried → Carried
then_sleep s c = record c { sleeps = s ∷ c.sleeps }

module _ (ll : Utlist Event) where
  -- The body of the loop up to the sleep: the queue, whose result is ignored.
  unfoldable pub put_cached : Tick → CarriersQueue → CarriersQueue
  put_cached t carrq =
      if t.sensor.cache_valid
      then (let (result, carrq') = put_carrier_event ll t.malloc carrq (stamped t) in carrq')
      else carrq

  unfoldable pub carrier_loop : List Tick → CarriersQueue → Result Carried
  carrier_loop [] carrq = ok (record { carrq = carrq; sleeps = []; left = false })
  carrier_loop (t ∷ ts) carrq =
      if goes_on t
      then (do
        s ← sleep_time t.sensor.freq
        c ← carrier_loop ts (put_cached t carrq)
        ok (then_sleep s c))
      else ok (record { carrq = carrq; sleeps = []; left = true })

-- What the thread does once it has left the loop.
unfoldable pub carrier_exit : Sensor → Sensor
carrier_exit sensor = record sensor { carrier_thread_started = false }
