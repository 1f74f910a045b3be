-- ===== src/Carrier/Rounds.antt =====
-- What a carrier thread puts into the queue.
use mathlib.Core.List.{append_assoc, append-nil}
use ze_sense_server.Prelude.{
  ℕ, not, ◌+◌, ◌*◌, ◌||◌, ◌<◌, ◌^◌, ◌≡◌, refl, ap, sym, ◌∙◌, Bool, true, false, if◌then◌else◌, ◌&&◌,
  List, [], ◌∷◌, ◌++◌, arith,
}
use mathlib.Core.Path.{subst}
use ze_sense_server.Prelude.Utlist.{Utlist}
use ze_sense_server.Prelude.Result.{Returns, Returns-if, Returns->>=}
use ze_sense_server.Event.{Event}
use ze_sense_server.Carriers.{CarriersQueue, put_carrier_event}
use ze_sense_server.Carrier.{Tick, Carried, goes_on, stamped, then_sleep, put_cached, carrier_loop}
use ze_sense_server.Carrier.Period.{get_ntp, Timespec}
use ze_sense_server.Carrier.Sleep.{IsPeriod, sleep_time-IsPeriod}

-- The rounds before the first one whose test fails.
unfoldable pub running : List Tick → List Tick
running [] = []
running (t ∷ ts) = if not t.globalexit && t.sensor.is_active then t ∷ running ts else []

-- The cached sample of a round, at the time of the round in nanoseconds.
abbrev pub sample_at : Tick → Event
sample_at t = record (t.sensor.event_cache) {
  timestamp = t.clock.tv_sec * 1_000_000_000 + t.clock.tv_nsec;
}

-- The events of rounds: of those whose cache is valid and whose allocation succeeds.
pub events : List Tick → List Event
events [] = []
events (t ∷ ts) = if t.sensor.cache_valid && t.malloc then sample_at t ∷ events ts else events ts

-- A time of the monotonic clock of a device with 32 bits.
abbrev pub IsTime : Timespec → Type 0
IsTime c = (c.tv_sec < 2 ^ 31) × (c.tv_nsec < 1_000_000_000)

-- A frequency that has been set, and a time, in every round.
abbrev pub IsSound : List Tick → Type 0
IsSound [] = Unit
IsSound (t ∷ ts) = ((0 < t.sensor.freq) × (t.sensor.freq < 2 ^ 31) × IsTime t.clock) × IsSound ts

-- A sleep for each round, of the period of the round's frequency.
abbrev pub InTime : List Tick → List Timespec → Type 0
InTime [] [] = Unit
InTime [] (s ∷ ss) = ⊥
InTime (t ∷ ts) [] = ⊥
InTime (t ∷ ts) (s ∷ ss) = IsPeriod t.sensor.freq s × InTime ts ss

pub any_stops : List Tick → Bool
any_stops [] = false
any_stops (t ∷ ts) = (t.globalexit || not t.sensor.is_active) || any_stops ts

-- What the thread leaves of a queue.
pub record Carries (ts : List Tick) (carrq : CarriersQueue) (c : Carried) : Type 0 where
  pub queued : c.carrq.head ≡ carrq.head ++ events (running ts)
  pub in_time : InTime (running ts) c.sleeps
  pub left : c.left ≡ any_stops ts

module _ (ll : Utlist Event) where
  stamped_lem : (t : Tick) → IsTime t.clock → stamped t ≡ sample_at t
  unfolding get_ntp
  stamped_lem t h =
      let e : get_ntp t.clock ≡ t.clock.tv_sec * 1_000_000_000 + t.clock.tv_nsec =
        omega (arith, h) in
      ap (λ (n : ℕ). record (t.sensor.event_cache) { timestamp = n }) e

  put_cached_lem :
      (t : Tick) (carrq : CarriersQueue)
      → IsTime t.clock
      → (put_cached ll t carrq).head ≡ carrq.head ++ events (t ∷ [])
  unfolding put_cached put_carrier_event events
  put_cached_lem t carrq h =
      ground (arith, stamped_lem t h, ll.append_lem carrq.head (sample_at t), append-nil carrq.head)

  events-cons : (t : Tick) (ts : List Tick) → events (t ∷ ts) ≡ events (t ∷ []) ++ events ts
  unfolding events
  events-cons t ts = ground arith

  one_more :
      (t : Tick) (ts : List Tick) (carrq : CarriersQueue) (s : Timespec) (c : Carried)
      → goes_on t ≡ true
      → IsTime t.clock
      → running (t ∷ ts) ≡ t ∷ running ts
      → IsPeriod t.sensor.freq s
      → Carries ts (put_cached ll t carrq) c
      → Carries (t ∷ ts) carrq (then_sleep s c)
  unfolding any_stops
  one_more t ts carrq s c on time e ps pc = record {
    queued =
        pc.queued
        ∙ ap (λ l. l ++ events (running ts)) (put_cached_lem t carrq time)
        ∙ append_assoc carrq.head (events (t ∷ [])) _
        ∙ ap (λ l. carrq.head ++ l) (sym (events-cons t (running ts)) ∙ ap events (sym e));
    in_time = subst (λ l. InTime l (s ∷ c.sleeps)) (sym e) (ps, pc.in_time);
    left = pc.left ∙ ground arith;
  }

  -- With a frequency and a time of the clock in every round that is made, the thread does not fault.
  -- Until the first round at which an exit is asked for or the sensor is inactive, it puts the cached
  -- event of each round with a valid cache behind the queue, in order and with the time of the
  -- round, unless the queue finds no memory. It sleeps in each round for the period of that round's
  -- frequency, and it leaves the loop exactly if there is such a first round.
  pub carrier_loop-Carries :
      (ts : List Tick) (carrq : CarriersQueue)
      → IsSound (running ts)
      → Returns (Carries ts carrq) (carrier_loop ll ts carrq)
  unfolding carrier_loop running any_stops events
  carrier_loop-Carries [] carrq h = record {
    queued = sym (append-nil carrq.head);
    in_time = tt;
    left = refl;
  }
  carrier_loop-Carries (t ∷ ts) carrq h =
      Returns-if (Carries (t ∷ ts) carrq) (goes_on t) _ _
        (λ on.
          let e : running (t ∷ ts) ≡ t ∷ running ts = rw on refl in
          let hs : IsSound (t ∷ running ts) = subst IsSound e h in
          Returns->>= (IsPeriod t.sensor.freq) (Carries (t ∷ ts) carrq) _ _
            (sleep_time-IsPeriod t.sensor.freq hs.0.0 hs.0.1)
            (λ s ps.
              Returns->>= (Carries ts (put_cached ll t carrq)) (Carries (t ∷ ts) carrq) _ _
                (carrier_loop-Carries ts (put_cached ll t carrq) hs.1)
                (λ c pc. one_more t ts carrq s c on hs.0.2 e ps pc)))
        (λ off. record {
          queued = rw off (sym (append-nil carrq.head));
          in_time = rw off tt;
          left = ground arith;
        })
