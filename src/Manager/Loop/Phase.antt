-- ===== src/Manager/Loop/Phase.antt =====
-- The rounds over the two event queues of ze_streaming_manager.c, on all sensors.
use ze_sense_server.Prelude.{
  ℕ, zero, suc, ◌+◌, ◌≡◌, refl, sym, ◌∙◌, ◌==◌, ltb, ◌⊎◌, inl, inr, Bool, true, false, not,
  if◌then◌else◌, List, [], ◌∷◌, length, set, length-set, Option, none, some, arith,
}
use mathlib.Core.Path.{subst}
use ze_sense_server.Prelude.Result.{
  ok, fault, out_of_bounds, ◌>>=◌, fault->>=, read, Returns, Returns->>=, Returns-if,
}
use ze_sense_server.Codes.{
  ze_numsensors, accelerometer, proximity, light, orientation, gyroscope, queue_req_ratio,
}
use ze_sense_server.Event.{Event, zero_event}
use ze_sense_server.Encode.Writes.{Fits}
use ze_sense_server.Carriers.{CarriersQueue}
use ze_sense_server.Carriers.Fifo.{get_cases}
use ze_sense_server.Manager.{Sensor, Platform, Alloc}
use ze_sense_server.Manager.Invariant.{IsValid}
use ze_sense_server.Manager.Dispatch.{cache_event, dispatch_event}
use ze_sense_server.Manager.Dispatch.Sent.{Sent, dispatch_event-Sent}
use ze_sense_server.Manager.Loop.{
  Log, Queues, event_based, log_event, skip_cached, poll, log_sample, send_event, arrive, rounds,
  queue_phase,
}
use ze_sense_server.Manager.Loop.Known.{
  AllValid, Kinds, KindOf, Room, IsSafe, less_room, read-IsValid, set-IsValid, Kinds-append,
  cached-IsValid, logged, KnownKinds,
}

module _ (p : Platform) (memory : (a : Alloc) → p.malloc a ≡ true) (fits : Fits p.print_e) where
  abbrev Skipped : Option Event × List Event × List Sensor → Type 0
  Skipped (e, es, ss) = KindOf e × Kinds es × AllValid 0 ss × (length ss ≡ ze_numsensors)

  skip_cached-Skipped :
      (es : List Event) (ss : List Sensor)
      → Kinds es
      → AllValid 0 ss
      → length ss ≡ ze_numsensors
      → Returns Skipped (skip_cached p es ss)
  unfolding skip_cached
  skip_cached-Skipped [] ss h v l = (tt, tt, v, l)
  skip_cached-Skipped (e ∷ es) ss h v l =
      Returns-if Skipped (event_based e.kind) _ _
        (λ cached.
          Returns->>= (IsValid e.kind) Skipped (read ss e.kind) _
            (read-IsValid ss e.kind v (omega (arith, l, h.0)))
            (λ s w.
              skip_cached-Skipped es (set ss e.kind _) h.1
                (set-IsValid ss e.kind _ v (cached-IsValid e.kind e s w))
                (length-set ss e.kind _ ∙ l)))
        (λ other. (h.0, h.1, v, l))

  abbrev Polled : ℕ → Option Event × Queues → Type 0
  Polled n (e, q) = KindOf e × IsSafe n q

  -- A carrier's event, or none, is taken from the queue.
  poll_carried :
      (n : ℕ) (q : Queues) (done : ℕ) (e : Event) (carrq : CarriersQueue)
      → ((done ≡ 0) × (carrq ≡ q.carrq)) ⊎ ((done ≡ 1) × (q.carrq.head ≡ e ∷ carrq.head))
      → IsSafe n q
      → Polled n (if ltb 0 done then some e else none, record q { carrq = carrq })
  poll_carried n q done e carrq (inl (z, same)) h = rw z (
    tt,
    record {
      valid = h.valid;
      all = h.all;
      samples = h.samples;
      carried = subst (λ (c : CarriersQueue). Kinds c.head) (sym same) h.carried;
      room = h.room;
    },
  )
  poll_carried n q done e carrq (inr (one, split)) h =
      let ks = subst Kinds split h.carried in
      rw one (
        ks.0,
        record { valid = h.valid; all = h.all; samples = h.samples; carried = ks.1; room = h.room },
      )

  poll-Polled : (n : ℕ) (b : Bool) (q : Queues) → IsSafe n q → Returns (Polled n) (poll p b q)
  unfolding poll
  poll-Polled n true q h =
      Returns->>= Skipped (Polled n) (skip_cached p q.samples q.sensors) _
        (skip_cached-Skipped q.samples q.sensors h.samples h.valid h.all)
        (λ (e, es, ss) (ke, kes, v, l).
          (ke, record { valid = v; all = l; samples = kes; carried = h.carried; room = h.room }))
  poll-Polled n false q h = poll_carried n q _ _ _ (get_cases q.carrq zero_event) h

  log_event-Room :
      (ntp n : ℕ) (e : Event) (l : Log) → Room (suc n) l → Returns (Room n) (log_event ntp e l)
  unfolding log_event
  log_event-Room ntp n e l h = ground (arith, length-set l.entries l.counter (e.timestamp, ntp))

  -- An entry in a log that has room; `put` places the log it leaves.
  logged_in :
      (n : ℕ) (e : Event) (l : Log) (put : Log → Queues)
      → Room (suc n) l
      → ((k : Log) → Room n k → IsSafe n (put k))
      → Returns (IsSafe n) (log_event p.ntp e l >>= λ k. ok (put k))
  logged_in n e l put r safe =
      Returns->>= (Room n) (IsSafe n) (log_event p.ntp e l) _ (log_event-Room p.ntp n e l r) safe

  -- The log of one event takes one place, and nothing else changes.
  log_sample-IsSafe :
      (n : ℕ) (e : Event) (q : Queues) → IsSafe (suc n) q → Returns (IsSafe n) (log_sample p e q)
  unfolding log_sample
  log_sample-IsSafe n e q h =
      let r = less_room (suc n) n q (omega arith) h.room in
      Returns-if (IsSafe n) (e.kind == accelerometer) _ _
        (λ _.
          logged_in n e q.accel (λ l. record q { accel = l }) h.room.0
            (λ l k. logged n h (k, r.1, r.2, r.3, r.4) (refl, refl, refl)))
        (λ _.
          Returns-if (IsSafe n) (e.kind == proximity) _ _
            (λ _.
              logged_in n e q.prox (λ l. record q { prox = l }) h.room.1
                (λ l k. logged n h (r.0, k, r.2, r.3, r.4) (refl, refl, refl)))
            (λ _.
              Returns-if (IsSafe n) (e.kind == light) _ _
                (λ _.
                  logged_in n e q.lights (λ l. record q { lights = l }) h.room.2
                    (λ l k. logged n h (r.0, r.1, k, r.3, r.4) (refl, refl, refl)))
                (λ _.
                  Returns-if (IsSafe n) (e.kind == orientation) _ _
                    (λ _.
                      logged_in n e q.orient (λ l. record q { orient = l }) h.room.3
                        (λ l k. logged n h (r.0, r.1, r.2, k, r.4) (refl, refl, refl)))
                    (λ _.
                      Returns-if (IsSafe n) (e.kind == gyroscope) _ _
                        (λ _.
                          logged_in n e q.gyro (λ l. record q { gyro = l }) h.room.4
                            (λ l k. logged n h (r.0, r.1, r.2, r.3, k) (refl, refl, refl)))
                        (λ _. logged n h r (refl, refl, refl))))))

  send_event-IsSafe :
      (n : ℕ) (b : Bool) (e : Option Event) (q : Queues)
      → KindOf e
      → IsSafe (suc n) q
      → Returns (IsSafe n) (send_event p b e q)
  unfolding send_event
  send_event-IsSafe n b none q k h =
      logged n h (less_room (suc n) n q (omega arith) h.room) (refl, refl, refl)
  send_event-IsSafe n b (some e) q k h =
      Returns->>= (IsSafe n) (IsSafe n) (log_sample p e q) _ (log_sample-IsSafe n e q h) (λ q' h'.
        Returns->>= (IsValid e.kind) (IsSafe n) (read q'.sensors e.kind) _
          (read-IsValid q'.sensors e.kind h'.valid (omega (arith, h'.all, k)))
          (λ s v.
            Returns->>= (Sent e.kind e (cache_event p e.kind b e s)) (IsSafe n)
              (dispatch_event p e.kind b e s) _ (dispatch_event-Sent p e.kind memory fits b e s v)
              (λ d w. record {
                valid = set-IsValid q'.sensors e.kind d.sensor h'.valid w.valid;
                all = length-set q'.sensors e.kind d.sensor ∙ h'.all;
                samples = h'.samples;
                carried = h'.carried;
                room = h'.room;
              })))

  rounds-IsSafe :
      (new : ℕ → List Event × List Event) (m n : ℕ) (b : Bool) (q : Queues)
      → KnownKinds new
      → IsSafe (m + n) q
      → Returns (IsSafe n) (rounds p new m b q)
  unfolding rounds
  rounds-IsSafe new zero n b q k h = subst (λ x. IsSafe x q) (omega arith) h
  rounds-IsSafe new (suc m) n b q k h =
      let q1 = arrive p (new m) q in
      let h1 : IsSafe (suc (m + n)) q1 = record {
        valid = h.valid;
        all = h.all;
        samples = Kinds-append q.samples (new m).0 h.samples (k m).0;
        carried = Kinds-append q.carrq.head (new m).1 h.carried (k m).1;
        room = less_room (suc m + n) (suc (m + n)) q (omega arith) h.room;
      } in
      Returns->>= (Polled (suc (m + n))) (IsSafe n) (poll p b q1) _
        (poll-Polled (suc (m + n)) b q1 h1)
        (λ (e, q2) (ke, h2).
          Returns->>= (IsSafe (m + n)) (IsSafe n) (send_event p b e q2) _
            (send_event-IsSafe (m + n) b e q2 ke h2)
            (λ q3 h3. rounds-IsSafe new m n (not b) q3 k h3))

  -- The rounds between two requests do not fault, whatever arrives in the two queues from sensors
  -- that the manager has, while each log has room for as many entries as there are rounds; all
  -- sensors are valid afterwards.
  pub queue_phase-IsSafe :
      (new : ℕ → List Event × List Event) (n : ℕ) (q : Queues)
      → KnownKinds new
      → IsSafe (queue_req_ratio + n) q
      → Returns (IsSafe n) (queue_phase p new q)
  unfolding queue_phase
  queue_phase-IsSafe new n q k h = rounds-IsSafe new queue_req_ratio n true q k h

  full_log :
      (ntp : ℕ) (e : Event) (l : Log)
      → l.counter ≡ length l.entries
      → log_event ntp e l ≡ fault out_of_bounds
  unfolding log_event
  full_log ntp e l h = ground arith

  accel_log :
      (e : Event) (q : Queues)
      → e.kind ≡ accelerometer
      → log_sample p e q ≡ (log_event p.ntp e q.accel >>= λ l. ok (record q { accel = l }))
  unfolding log_sample
  accel_log e q h = ground arith

  -- Once the log of the accelerometer is full its next event is written out of bounds, before
  -- anything is sent.
  pub send_event_overflows :
      (b : Bool) (e : Event) (q : Queues)
      → e.kind ≡ accelerometer
      → q.accel.counter ≡ length q.accel.entries
      → send_event p b (some e) q ≡ fault out_of_bounds
  unfolding send_event
  send_event_overflows b e q k h = fault->>= (log_sample p e q) _ out_of_bounds (
      accel_log e q k
      ∙ fault->>= (log_event p.ntp e q.accel) _ out_of_bounds (full_log p.ntp e q.accel h))
