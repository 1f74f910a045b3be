-- ===== src/Manager/Streams/Stop.antt =====
-- sm_stop_stream of ze_streaming_manager.c: what it removes, and what it does to the sensor.
use mathlib.Core.Path.{subst}
use ze_sense_server.Prelude.{
  ℕ, ◌<◌, ◌≤◌, ◌≡◌, refl, sym, ap, ◌∙◌, ltb, ◌≢◌, ◌⊎◌, inl, inr, not, Bool, false, ◌==◌,
  if◌then◌else◌, List, [], ◌∷◌, Option, none, some, arith,
}
use ze_sense_server.Prelude.Result.{fault, null_pointer, Returns, Returns->>=, Returns-mono}
use ze_sense_server.Codes.{sm_error, location}
use ze_sense_server.Manager.{
  Stream, Sensor, Platform, Done, Effect, gps_stop, disable_sensor, responses,
}
use ze_sense_server.Manager.Sensors.{android_sensor_changef, android_sensor_turnoff}
use ze_sense_server.Manager.Sensors.Flags.{Handled, changef-Returns, turnoff_cases}
use ze_sense_server.Manager.Streams.{
  find_stream, sm_find_stream, max_freq, settle, stop_at, sm_stop_stream,
}
use ze_sense_server.Manager.Streams.Lists.{
  remove, Distinct, All, ll_delete-remove, remove-Distinct, All-remove, All-map,
}
use ze_sense_server.Manager.Invariant.{IsReady, IsValid}

-- Some stream of the list has the frequency.
abbrev pub Attains : ℕ → List Stream → Type 0
Attains n [] = ⊥
Attains n (t ∷ ts) = (t.freq ≡ n) ⊎ Attains n ts

-- The largest frequency of the streams.
abbrev pub IsMax : ℕ → List Stream → Type 0
IsMax n l = All (λ t. t.freq ≤ n) l × Attains n l

max_freq-Attains : (n : ℕ) (l : List Stream) → (max_freq n l ≡ n) ⊎ Attains (max_freq n l) l
unfolding max_freq
max_freq-Attains n [] = inl refl
max_freq-Attains n (t ∷ ts) =
    ground (arith, max_freq-Attains (if ltb n t.freq then t.freq else n) ts)

le-max_freq : (n : ℕ) (l : List Stream) → n ≤ max_freq n l
unfolding max_freq
le-max_freq n [] = omega arith
le-max_freq n (t ∷ ts) = ground (arith, le-max_freq (if ltb n t.freq then t.freq else n) ts)

max_freq-All : (n : ℕ) (l : List Stream) → All (λ t. t.freq ≤ max_freq n l) l
unfolding max_freq
max_freq-All n [] = tt
max_freq-All n (t ∷ ts) = (
  ground (arith, le-max_freq (if ltb n t.freq then t.freq else n) ts),
  max_freq-All (if ltb n t.freq then t.freq else n) ts,
)

max_freq-IsMax : (t : Stream) (ts : List Stream) → IsMax (max_freq t.freq (t ∷ ts)) (t ∷ ts)
max_freq-IsMax t ts =
    (max_freq-All t.freq (t ∷ ts), ground (arith, max_freq-Attains t.freq (t ∷ ts)))

-- With no stream left the sensor is turned off, or the turnoff has failed, and its frequency is 0;
-- otherwise it stays as it is, at the largest frequency of the streams that are left.
abbrev pub Outcome : List Stream → Sensor → Done ℕ → Type 0
Outcome left s d =
    ((left ≡ [])
      × (d.sensor.freq ≡ 0)
      × (((d.sensor.is_active ≡ false) × (d.sensor.cache_valid ≡ false))
          ⊎ (d.sensor.is_active ≡ s.is_active)))
    ⊎ (IsMax d.sensor.freq left × (d.sensor.is_active ≡ s.is_active))

-- The one call that turns a sensor off, and whether it succeeds.
abbrev pub turnoff_call : ℕ → Sensor → Effect
turnoff_call sensor s = if sensor == location then gps_stop else disable_sensor s.android_handle

abbrev pub turns_off : Platform → ℕ → Sensor → Bool
turns_off p sensor s =
    if sensor == location then p.gps_stopped else not (p.disable_fails s.android_handle)

-- The streams that are left, and either the sensor turned off (or the turnoff failed) at frequency
-- 0, or the sensor left on at the largest frequency of those streams.
pub record Settled (p : Platform) (sensor : ℕ) (left : List Stream) (s : Sensor) (d : Done ℕ)
    : Type 0 where
  pub result : d.result ≡ 0
  pub streams : d.sensor.streams ≡ left
  pub oneshots : d.sensor.oneshots ≡ s.oneshots
  pub handled : Handled sensor s → Handled sensor d.sensor
  pub outcome : Outcome left s d
  pub quiet : responses d.effects ≡ []
  pub turned :
      left ≡ []
      → (d.effects ≡ turnoff_call sensor s ∷ [])
        × (d.sensor.is_active ≡ (if turns_off p sensor s then false else s.is_active))

-- An unknown ticket changes nothing; a known one is removed and the sensor settled.
pub record Stopped (p : Platform) (sensor : ℕ) (s : Sensor) (reg : ℕ) (d : Done ℕ) : Type 0 where
  pub valid : IsValid sensor d.sensor
  pub cases :
      ((find_stream s.streams reg ≡ none)
        × (d ≡ record { sensor = s; effects = []; result = sm_error }))
      ⊎ ((i : ℕ) × (find_stream s.streams reg ≡ some i)
          × Settled p sensor (remove reg s.streams) s d)

module _ (p : Platform) (sensor : ℕ) where
  turnoff_lem :
      (s : Sensor)
      → let d = android_sensor_turnoff p sensor s in
        (d.effects ≡ turnoff_call sensor s ∷ [])
        × (d.sensor.is_active ≡ (if turns_off p sensor s then false else s.is_active))
  unfolding android_sensor_turnoff
  turnoff_lem s = ground arith

  -- What a turnoff may leave.
  abbrev Off : Sensor → Done ℕ → Type 0
  Off s d =
      ((d.result ≡ 0) × (d.sensor.is_active ≡ false) × (d.sensor.cache_valid ≡ false))
      ⊎ ((d.result ≡ sm_error) × (d.sensor ≡ s))

  turnoff_keeps :
      (s : Sensor)
      → Off s (android_sensor_turnoff p sensor s)
      → Handled sensor s
      → Handled sensor (record ((android_sensor_turnoff p sensor s).sensor) { freq = 0 })
  turnoff_keeps s (inl (_, off, _)) h = λ on. absurd (ground arith)
  turnoff_keeps s (inr (_, same)) h =
      subst (λ (x : Sensor). Handled sensor (record x { freq = 0 })) (sym same) h

  turnoff_outcome :
      (s : Sensor)
      → Off s (android_sensor_turnoff p sensor s)
      → let d = android_sensor_turnoff p sensor s in
        ((d.sensor.is_active ≡ false) × (d.sensor.cache_valid ≡ false))
        ⊎ (d.sensor.is_active ≡ s.is_active)
  turnoff_outcome s (inl (_, off, empty)) = inl (off, empty)
  turnoff_outcome s (inr (_, same)) = inr (ap (λ (x : Sensor). x.is_active) same)

  settle-Settled :
      (l : List Stream) (ones : List ℕ) (s : Sensor)
      → s.streams ≡ l
      → s.oneshots ≡ ones
      → All (λ t. 0 < t.freq) l
      → ((l ≢ []) ⊎ (ones ≡ []))
      → Returns (Settled p sensor l s) (settle p sensor l ones s)
  unfolding settle
  settle-Settled [] [] s e f pos h =
      let (k, c) = turnoff_cases p sensor s in
      record {
        result = refl;
        streams = k.streams ∙ e;
        oneshots = k.oneshots;
        handled = λ hs. turnoff_keeps s c hs;
        outcome = inl (refl, refl, turnoff_outcome s c);
        quiet = k.quiet;
        turned = λ none_left. turnoff_lem s;
      }
  settle-Settled [] (one ∷ ones) s e f pos (inl h) = absurd (h refl)
  settle-Settled [] (one ∷ ones) s e f pos (inr h) = cc
  settle-Settled (t ∷ ts) ones s e f pos h =
      let freq = max_freq t.freq (t ∷ ts) in
      Returns->>= (λ d. (d.sensor ≡ record s { freq = freq }) × (responses d.effects ≡ []))
        (Settled p sensor (t ∷ ts) s)
        (android_sensor_changef p sensor (record s { freq = freq }) freq) _
        (changef-Returns p sensor (record s { freq = freq }) freq
          (omega (arith, pos.0, le-max_freq t.freq (t ∷ ts))))
        (λ d (k, q). record {
          result = refl;
          quiet = q;
          streams = ap (λ x. x.streams) k ∙ e;
          oneshots = ap (λ x. x.oneshots) k;
          handled = λ hs. subst (Handled sensor) (sym k) hs;
          outcome = inr (
            subst (λ n. IsMax n (t ∷ ts)) (sym (ap (λ x. x.freq) k)) (max_freq-IsMax t ts),
            ap (λ x. x.is_active) k,
          );
          turned = λ none_left. absurd (cc);
        })

  All-IsReady_covered :
      (m n : ℕ) (l : List Stream) → All (IsReady m) l → All (λ t. t.freq ≤ n) l → All (IsReady n) l
  All-IsReady_covered m n [] h k = tt
  All-IsReady_covered m n (t ∷ ts) h k = (
    record {
      positive = h.0.positive;
      covered = k.0;
      single = h.0.single;
      level = h.0.level;
      slots = h.0.slots;
      rtp_slots = h.0.rtp_slots;
    },
    All-IsReady_covered m n ts h.1 k.1,
  )

  Settled-IsValid :
      (s : Sensor) (reg : ℕ) (d : Done ℕ)
      → IsValid sensor s
      → ((remove reg s.streams ≢ []) ⊎ (s.oneshots ≡ []))
      → Settled p sensor (remove reg s.streams) s d
      → IsValid sensor d.sensor
  unfolding remove
  Settled-IsValid s reg d v h k = record {
    distinct = subst Distinct (sym k.streams) (remove-Distinct s.streams reg v.distinct);
    ready = subst (All (IsReady d.sensor.freq)) (sym k.streams) (ready_left k.outcome);
    idle = idle_left k.outcome;
    handled = k.handled v.handled;
  }
    where
      left : List Stream
      left = remove reg s.streams

      ready_left : Outcome left s d → All (IsReady d.sensor.freq) left
      ready_left (inl (none_left, _, _)) = subst (All (IsReady d.sensor.freq)) (sym none_left) tt
      ready_left (inr (m, _)) =
          All-IsReady_covered s.freq d.sensor.freq left
            (All-remove (IsReady s.freq) s.streams reg v.ready) m.0

      idle_left :
          Outcome left s d
          → d.sensor.is_active ≡ false
          → (d.sensor.streams ≡ []) × (d.sensor.oneshots ≡ [])
      idle_left (inl (none_left, _, _)) off = (
        k.streams ∙ none_left,
        k.oneshots ∙ (elim h [ inl some_left ↦ absurd (some_left none_left) | inr z ↦ z ]),
      )
      idle_left (inr (_, same)) off =
          let (no_streams, no_oneshots) = v.idle (sym same ∙ off) in
          (k.streams ∙ ap (remove reg) no_streams, k.oneshots ∙ no_oneshots)

  stop_at-Stopped :
      (s : Sensor) (reg : ℕ) (i : Option ℕ)
      → find_stream s.streams reg ≡ i
      → IsValid sensor s
      → ((remove reg s.streams ≢ []) ⊎ (s.oneshots ≡ []))
      → Returns (Stopped p sensor s reg) (stop_at p sensor i s)
  unfolding stop_at
  stop_at-Stopped s reg none e v h = record { valid = v; cases = inl (e, refl) }
  stop_at-Stopped s reg (some i) e v h = rw (ll_delete-remove p.stream_list reg s.streams i e) (
      Returns-mono (Settled p sensor left s') (Stopped p sensor s reg) _
        (settle-Settled left s.oneshots s' refl refl
          (All-map (IsReady s.freq) _ left (λ t r. r.positive)
            (All-remove (IsReady s.freq) s.streams reg v.ready))
          h)
        (λ d k.
          let k' : Settled p sensor left s d = record {
            result = k.result;
            streams = k.streams;
            oneshots = k.oneshots;
            handled = k.handled;
            outcome = k.outcome;
            quiet = k.quiet;
            turned = k.turned;
          } in
          record { valid = Settled-IsValid s reg d v h k'; cases = inr (i, e, k') }))
    where
      left : List Stream
      left = remove reg s.streams

      s' : Sensor
      s' = record s { streams = left }

  -- On a valid sensor a stop does not fault, unless it would remove the last stream while a
  -- oneshot is pending. An unknown ticket is answered by SM_ERROR, and nothing is changed or done.
  -- A known one is removed, the others keep their order; if none is left exactly one call turns the
  -- sensor off, and it is inactive then if that succeeds and as it was if it fails, at frequency 0;
  -- otherwise it is left at the largest frequency of those that remain. The sensor stays valid.
  pub stop_stream-Stopped :
      (s : Sensor) (reg : ℕ)
      → IsValid sensor s
      → ((remove reg s.streams ≢ []) ⊎ (s.oneshots ≡ []))
      → Returns (Stopped p sensor s reg) (sm_stop_stream p sensor s reg)
  unfolding sm_stop_stream sm_find_stream
  stop_stream-Stopped s reg v h = stop_at-Stopped s reg _ refl v h

  settle_pending :
      (ones : List ℕ) (s : Sensor) → ones ≢ [] → settle p sensor [] ones s ≡ fault null_pointer
  unfolding settle
  settle_pending [] s h = absurd (h refl)
  settle_pending (one ∷ ones) s h = refl

  only_stream : (t : Stream) → (find_stream (t ∷ []) t.reg ≡ some 0) × (remove t.reg (t ∷ []) ≡ [])
  unfolding find_stream remove
  only_stream t = (ground arith, ground arith)

  -- A stop of the last stream of a sensor on which a oneshot is pending follows a NULL pointer.
  pub stop_stream_pending_faults :
      (s : Sensor) (t : Stream)
      → s.streams ≡ t ∷ []
      → s.oneshots ≢ []
      → sm_stop_stream p sensor s t.reg ≡ fault null_pointer
  unfolding sm_stop_stream sm_find_stream stop_at
  stop_stream_pending_faults s t e h =
      let found : find_stream s.streams t.reg ≡ some 0 =
        ap (λ l. find_stream l t.reg) e ∙ (only_stream t).0 in
      let none_left : p.stream_list.ll_delete s.streams 0 ≡ [] =
        ll_delete-remove p.stream_list t.reg s.streams 0 found
        ∙ ap (remove t.reg) e
        ∙ (only_stream t).1 in
      ap (λ i. stop_at p sensor i s) found
      ∙ ap (λ l. settle p sensor l s.oneshots (record s { streams = l })) none_left
      ∙ settle_pending s.oneshots _ h
