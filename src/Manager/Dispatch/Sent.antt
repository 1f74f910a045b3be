-- ===== src/Manager/Dispatch/Sent.antt =====
-- One event on one sensor, in the thread loop of ze_streaming_manager.c.
use mathlib.Core.List.{append-nil}
use mathlib.Core.Path.{subst}
use ze_sense_server.Prelude.{
  ℕ, ◌≡◌, ◌≢◌, refl, sym, ap, ◌∙◌, ◌⊎◌, inl, inr, Bool, true, false, List, [], ◌∷◌, ◌++◌, arith,
}
use ze_sense_server.Prelude.Result.{Result, ok, ◌>>=◌, Returns, Returns->>=}
use ze_sense_server.Codes.{sm_error}
use ze_sense_server.Event.{Event}
use ze_sense_server.Encode.{Packet}
use ze_sense_server.Encode.Writes.{Fits}
use ze_sense_server.ResBuf.{Response}
use ze_sense_server.Manager.{Stream, Sensor, Platform, Done, Alloc, responses}
use ze_sense_server.Manager.Ledger.{responses-append}
use ze_sense_server.Manager.Invariant.{IsReady, IsValid}
use ze_sense_server.Manager.Sensors.{android_sensor_turnoff}
use ze_sense_server.Manager.Sensors.Flags.{Handled, turnoff_cases}
use ze_sense_server.Manager.Streams.Lists.{All}
use ze_sense_server.Manager.Dispatch.Updates.{
  Answers, Updates, Updates-Distinct, AllRenewed, answer_oneshots-Answers,
  update_streams-AllRenewed,
}
use ze_sense_server.Manager.Dispatch.{
  update_streams, answer_oneshots, clear_oneshots, cache_event, dispatch_event,
}

-- The sensor stays on or off as it was, unless oneshots alone have kept it on.
abbrev pub Activity : Sensor → Done (Unit {0}) → Type 0
Activity s d =
    (((s.oneshots ≡ []) ⊎ (s.streams ≢ [])) × (d.sensor.is_active ≡ s.is_active))
    ⊎ ((s.streams ≡ [])
        × (s.oneshots ≢ [])
        × ((d.sensor.is_active ≡ false) ⊎ (d.sensor.is_active ≡ s.is_active)))

-- What an event has done to the sensor `s`, once its cache is written.
pub record Sent (sensor : ℕ) (event : Event) (s : Sensor) (d : Done (Unit {0})) : Type 0 where
  pub valid : IsValid sensor d.sensor
  pub cleared : d.sensor.oneshots ≡ []
  pub answers : List (Response Packet)
  pub updates : List (Response Packet)
  pub in_order : responses d.effects ≡ answers ++ updates
  pub answered : Answers event s.oneshots answers
  pub updated : Updates event s.streams d.sensor.streams updates
  pub frequency : d.sensor.freq ≡ s.freq
  pub event_cache : d.sensor.event_cache ≡ s.event_cache
  pub activity : Activity s d

-- After the oneshots: the streams are untouched.
record Cleared (sensor : ℕ) (event : Event) (s : Sensor) (d : Done (Unit {0})) : Type 0 where
  pub cleared : d.sensor.oneshots ≡ []
  pub answered : Answers event s.oneshots (responses d.effects)
  pub streams : d.sensor.streams ≡ s.streams
  pub frequency : d.sensor.freq ≡ s.freq
  pub event_cache : d.sensor.event_cache ≡ s.event_cache
  pub handled : Handled sensor s → Handled sensor d.sensor
  pub activity : Activity s d

module _ (p : Platform) (sensor : ℕ) (memory : (a : Alloc) → p.malloc a ≡ true)
    (fits : Fits p.print_e) where
  -- What a turnoff of `s` may leave.
  abbrev Turned : Sensor → Done ℕ → Type 0
  Turned s d =
      ((d.result ≡ 0) × (d.sensor.is_active ≡ false) × (d.sensor.cache_valid ≡ false))
      ⊎ ((d.result ≡ sm_error) × (d.sensor ≡ s))

  turned :
      {s : Sensor} (d : Done ℕ)
      → Turned s d
      → (d.sensor.is_active ≡ false) ⊎ (d.sensor.is_active ≡ s.is_active)
  turned d (inl (_, off, _)) = inl off
  turned d (inr (_, same)) = inr (ap (λ x. x.is_active) same)

  Turned-Handled :
      {s : Sensor} (d : Done ℕ) → Turned s d → Handled sensor s → Handled sensor d.sensor
  Turned-Handled d (inl (_, off, _)) h = λ on. absurd (ground arith)
  Turned-Handled d (inr (_, same)) h = subst (Handled sensor) (sym same) h

  abbrev off_of : Sensor → Done ℕ
  off_of s = android_sensor_turnoff p sensor (record s { oneshots = [] })

  clear_oneshots-Cleared :
      (ones : List ℕ) (ts : List Stream) (event : Event) (s : Sensor)
      → s.oneshots ≡ ones
      → s.streams ≡ ts
      → Returns (Cleared sensor event s) (clear_oneshots p sensor ones ts event s)
  unfolding clear_oneshots responses
  clear_oneshots-Cleared [] ts event s eo es = record {
    cleared = eo;
    answered = rw eo tt;
    streams = refl;
    frequency = refl;
    event_cache = refl;
    handled = λ h. h;
    activity = inl (inl eo, refl);
  }
  clear_oneshots-Cleared (one ∷ ones) (t ∷ ts) event s eo es =
      Returns->>= _ (Cleared sensor event s) (answer_oneshots p event (one ∷ ones)) _
        (answer_oneshots-Answers p memory fits event (one ∷ ones))
        (λ sent k. record {
          cleared = refl;
          answered = subst (λ l. Answers event l (responses sent)) (sym eo) k;
          streams = refl;
          frequency = refl;
          event_cache = refl;
          handled = λ h. h;
          activity = inl (inr (λ e. ground arith), refl);
        })
  clear_oneshots-Cleared (one ∷ ones) [] event s eo es =
      let (k, c) = turnoff_cases p sensor (record s { oneshots = [] }) in
      Returns->>= _ (Cleared sensor event s) (answer_oneshots p event (one ∷ ones)) _
        (answer_oneshots-Answers p memory fits event (one ∷ ones))
        (λ sent a. record {
          cleared = k.oneshots;
          answered =
              subst
                (λ l. Answers event l (
                  responses (
                    sent
                    ++ (android_sensor_turnoff p sensor (record s { oneshots = [] })).effects)))
                (sym eo)
                (subst (Answers event (one ∷ ones))
                  (sym (
                    responses-append sent _ ∙ ap (λ l. responses sent ++ l) k.quiet ∙ append-nil _))
                  a);
          streams = k.streams;
          frequency = k.freq;
          event_cache = k.event_cache;
          handled = λ h. Turned-Handled (off_of s) c h;
          activity = inr (es, (λ e. ground arith), turned (off_of s) c);
        })

  -- The invariant, from what the two parts have done.
  sent-IsValid :
      (event : Event) (s : Sensor) (d : Done (Unit {0})) (ts' : List Stream)
      (rs : List (Response Packet))
      → IsValid sensor s
      → Cleared sensor event s d
      → All (IsReady d.sensor.freq) ts'
      → Updates event s.streams ts' rs
      → IsValid sensor (record (d.sensor) { streams = ts' })
  sent-IsValid event s d ts' rs v c r u = record {
    distinct = Updates-Distinct event s.streams ts' rs u v.distinct;
    ready = r;
    idle = λ off. (
      no_update ts' (subst (λ l. Updates event l ts' rs) (had_none c.activity off) u),
      c.cleared,
    );
    handled = c.handled v.handled;
  }
    where
      no_update : (ts' : List Stream) → Updates event [] ts' rs → ts' ≡ []
      no_update [] u = refl
      no_update (t ∷ ts') u = absurd u

      had_none : Activity s d → d.sensor.is_active ≡ false → s.streams ≡ []
      had_none (inl (_, same)) off = (v.idle (sym same ∙ off)).0
      had_none (inr (no_streams, _, _)) off = no_streams

  -- Everything after the cache has been written.
  abbrev after_cache : Event → Sensor → Result (Done (Unit {0}))
  after_cache event s = do
    d ← clear_oneshots p sensor s.oneshots s.streams event s
    (streams, sent) ← update_streams p event d.sensor.streams
    ok (record {
      sensor = record (d.sensor) { streams = streams };
      effects = d.effects ++ sent;
      result = tt;
    })

  after_cache-Sent :
      (event : Event) (s : Sensor)
      → IsValid sensor s
      → Returns (Sent sensor event s) (after_cache event s)
  after_cache-Sent event s v =
      Returns->>= (Cleared sensor event s) (Sent sensor event s)
        (clear_oneshots p sensor s.oneshots s.streams event s) _
        (clear_oneshots-Cleared s.oneshots s.streams event s refl refl)
        (λ d c.
          Returns->>= (AllRenewed p memory fits d.sensor.freq event d.sensor.streams)
            (Sent sensor event s) (update_streams p event d.sensor.streams) _
            (update_streams-AllRenewed p memory fits event d.sensor.freq d.sensor.streams
              (ready_again d c))
            (λ (ts', sent) (r, u).
              let u' : Updates event s.streams ts' (responses sent) =
                subst (λ l. Updates event l ts' (responses sent)) c.streams u in
              record {
                valid = sent-IsValid event s d ts' (responses sent) v c r u';
                cleared = c.cleared;
                answers = responses d.effects;
                updates = responses sent;
                in_order = responses-append d.effects sent;
                answered = c.answered;
                updated = u';
                frequency = c.frequency;
                event_cache = c.event_cache;
                activity = c.activity;
              }))
    where
      ready_again :
          (d : Done (Unit {0}))
          → Cleared sensor event s d
          → All (IsReady d.sensor.freq) d.sensor.streams
      ready_again d c =
          subst (λ n. All (IsReady n) d.sensor.streams) (sym c.frequency)
            (subst (All (IsReady s.freq)) (sym c.streams) v.ready)

  cached-IsValid :
      (from_samples : Bool) (event : Event) (s : Sensor)
      → IsValid sensor s
      → IsValid sensor (cache_event p sensor from_samples event s)
  unfolding cache_event
  cached-IsValid true event s v = record {
    distinct = v.distinct;
    ready = v.ready;
    idle = v.idle;
    handled = v.handled;
  }
  cached-IsValid false event s v = v

  pub cache_event-keeps :
      (from_samples : Bool) (event : Event) (s : Sensor)
      → ((cache_event p sensor from_samples event s).streams ≡ s.streams)
        × ((cache_event p sensor from_samples event s).oneshots ≡ s.oneshots)
  unfolding cache_event
  cache_event-keeps true event s = (refl, refl)
  cache_event-keeps false event s = (refl, refl)

  pub dispatch_event-Sent :
      (from_samples : Bool) (event : Event) (s : Sensor)
      → IsValid sensor s
      → Returns
          (Sent sensor event (cache_event p sensor from_samples event s))
          (dispatch_event p sensor from_samples event s)
  unfolding dispatch_event
  dispatch_event-Sent from_samples event s v =
      after_cache-Sent event (cache_event p sensor from_samples event s)
        (cached-IsValid from_samples event s v)
