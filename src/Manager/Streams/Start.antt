-- ===== src/Manager/Streams/Start.antt =====
-- sm_start_stream of ze_streaming_manager.c: what it leaves of the sensor and returns.
use mathlib.Core.Path.{subst}
use ze_sense_server.Prelude.{
  ℕ, ◌<◌, ◌≤◌, ◌≡◌, refl, sym, ap, ◌∙◌, ltb, ◌⊎◌, inl, inr, true, false, Bool-cases, if◌then◌else◌,
  [], ◌∷◌, ◌++◌, Option, none, some, arith,
}
use ze_sense_server.Prelude.Result.{ok, Returns, Returns->>=, Returns-mono}
use ze_sense_server.Codes.{con}
use ze_sense_server.Manager.{Stream, Sensor, Platform, Done, responses, a_stream}
use ze_sense_server.Manager.Sensors.{android_sensor_activate, android_sensor_changef}
use ze_sense_server.Manager.Sensors.Flags.{Works, Handled, activate-Returns, changef-Returns}
use ze_sense_server.Manager.Streams.{
  sm_new_stream, find_stream, sm_find_stream, fresh_stream, raise_sensor, insert_stream, start_with,
  sm_start_stream,
}
use ze_sense_server.Manager.Streams.Lists.{
  remove, All, remove_absent, ll_delete-remove, find_stream-remove_self, remove-Distinct,
  append-Distinct, All-remove, All-append,
}
use ze_sense_server.Manager.Invariant.{IsReady, IsValid, All-IsReady-mono}

-- The sensor is on and fast enough, and its streams have not been touched.
pub record Raised (sensor : ℕ) (s : Sensor) (freq : ℕ) (d : Done ℕ) : Type 0 where
  pub streams : d.sensor.streams ≡ s.streams
  pub oneshots : d.sensor.oneshots ≡ s.oneshots
  pub active : d.sensor.is_active ≡ true
  pub handled : Handled sensor d.sensor
  pub frequency :
      d.sensor.freq ≡ (if s.is_active then (if ltb s.freq freq then freq else s.freq) else freq)
  pub cache : d.sensor.cache_valid ≡ s.cache_valid
  pub quiet : responses d.effects ≡ []

module _ (p : Platform) (sensor : ℕ) where
  raise_sensor_off :
      (s : Sensor) (freq : ℕ)
      → s.is_active ≡ false
      → raise_sensor p sensor s freq
        ≡ android_sensor_activate p sensor (record s { freq = freq }) freq
  unfolding raise_sensor
  raise_sensor_off s freq off = ground arith

  raise_sensor_on :
      (s : Sensor) (freq : ℕ)
      → s.is_active ≡ true
      → raise_sensor p sensor s freq ≡ (
          if ltb s.freq freq
          then android_sensor_changef p sensor (record s { freq = freq }) freq
          else ok (record { sensor = s; effects = []; result = 0 }))
  unfolding raise_sensor
  raise_sensor_on s freq on = ground arith

  quiet_nil : responses [] ≡ []
  unfolding responses
  quiet_nil = refl

  -- The sensor is on and fast enough afterwards; nothing is lost.
  pub raise_sensor-Returns :
      (s : Sensor) (freq : ℕ)
      → Works p sensor
      → Handled sensor s
      → 0 < freq
      → Returns (Raised sensor s freq) (raise_sensor p sensor s freq)
  raise_sensor-Returns s freq w v h = elim (Bool-cases s.is_active) [
    | inr off ↦ rw (raise_sensor_off s freq off) (
        Returns-mono _ (Raised sensor s freq) _
          (activate-Returns p sensor (record s { freq = freq }) freq w h)
          (λ d k. record {
            streams = k.0.streams;
            oneshots = k.0.oneshots;
            active = k.1;
            handled = k.2;
            frequency = ground (arith, k.0.freq);
            cache = k.3;
            quiet = k.0.quiet;
          }))
    | inl on ↦ elim (Bool-cases (ltb s.freq freq)) [
      | inl faster ↦
          rw (raise_sensor_on s freq on, faster)
            (Returns-mono _ (Raised sensor s freq) _
              (changef-Returns p sensor (record s { freq = freq }) freq h) (λ d k. ground arith))
      | inr enough ↦ rw (raise_sensor_on s freq on, enough) (ground (arith, quiet_nil))
    ]
  ]

  insert_stream_effects :
      (d : Done ℕ) (t : Stream) (i : Option ℕ) → (insert_stream p sensor d i t).effects ≡ d.effects
  unfolding insert_stream
  insert_stream_effects d t none = refl
  insert_stream_effects d t (some i) = refl

  -- The list with the new stream in it, whether or not the ticket was there.
  insert_stream_lem :
      (d : Done ℕ) (t : Stream) (i : Option ℕ)
      → find_stream d.sensor.streams t.reg ≡ i
      → (insert_stream p sensor d i t).sensor
        ≡ record (d.sensor) { streams = remove t.reg d.sensor.streams ++ t ∷ [] }
  unfolding insert_stream
  insert_stream_lem d t none e =
      ap (λ l. record (d.sensor) { streams = l })
        (p.stream_list.append_lem _ t
          ∙ ap (λ l. l ++ t ∷ []) (sym (remove_absent d.sensor.streams t.reg e)))
  insert_stream_lem d t (some i) e =
      ap (λ l. record (d.sensor) { streams = l })
        (p.stream_list.append_lem _ t
          ∙ ap (λ l. l ++ t ∷ []) (ll_delete-remove p.stream_list t.reg d.sensor.streams i e))

-- What a start has done to the sensor `s`: its streams are those with another ticket, in their
-- order, and then the new one; it is on, at a frequency that covers all of them.
pub record Started (sensor : ℕ) (s : Sensor) (reg freq : ℕ) (d : Done (Option Stream))
    : Type 0 where
  pub stream : Stream
  pub ticket : stream.reg ≡ reg
  pub requested : stream.freq ≡ freq
  pub reliable : stream.retransmit ≡ con
  pub streams : d.sensor.streams ≡ remove reg s.streams ++ stream ∷ []
  pub oneshots : d.sensor.oneshots ≡ s.oneshots
  pub active : d.sensor.is_active ≡ true
  pub frequency :
      d.sensor.freq ≡ (if s.is_active then (if ltb s.freq freq then freq else s.freq) else freq)
  pub result :
      ((find_stream s.streams reg ≡ none) × (d.result ≡ some stream))
      ⊎ ((i : ℕ) × (find_stream s.streams reg ≡ some i) × (d.result ≡ none))
  pub valid : IsValid sensor d.sensor
  pub cache : d.sensor.cache_valid ≡ s.cache_valid
  pub quiet : responses d.effects ≡ []

module _ (p : Platform) (sensor : ℕ) where
  fresh_stream-IsReady :
      (t : Stream) (reg freq n : ℕ)
      → sm_new_stream true ≡ some t
      → 0 < freq
      → freq ≤ n
      → IsReady n (fresh_stream p sensor t reg freq)
  unfolding sm_new_stream fresh_stream
  fresh_stream-IsReady t reg freq n e h k = ground arith

  fresh_stream_fields :
      (t : Stream) (reg freq : ℕ)
      → let t' = fresh_stream p sensor t reg freq in
        (t'.reg ≡ reg) × (t'.freq ≡ freq) × (t'.retransmit ≡ con)
  unfolding fresh_stream
  fresh_stream_fields t reg freq = (refl, refl, refl)

  -- The streams that were there are covered by the frequency that the sensor has now.
  streams-IsReady :
      (s : Sensor) (freq : ℕ) (d : Done ℕ)
      → IsValid sensor s
      → Raised sensor s freq d
      → All (IsReady d.sensor.freq) s.streams
  streams-IsReady s freq d v r = elim (Bool-cases s.is_active) [
    | inl on ↦ All-IsReady-mono s.streams (ground (arith, r.frequency)) v.ready
    | inr off ↦ subst (All (IsReady d.sensor.freq)) (sym (v.idle off).0) tt
  ]

  insert_stream_result :
      (d : Done ℕ) (t : Stream) (i : Option ℕ)
      → ((i ≡ none) × ((insert_stream p sensor d i t).result ≡ some t))
        ⊎ ((j : ℕ) × (i ≡ some j) × ((insert_stream p sensor d i t).result ≡ none))
  unfolding insert_stream
  insert_stream_result d t none = inl (refl, refl)
  insert_stream_result d t (some j) = inr (j, refl, refl)

  inserted-IsValid :
      (s : Sensor) (freq : ℕ) (t : Stream) (d : Done ℕ)
      → IsValid sensor s
      → IsReady d.sensor.freq t
      → Raised sensor s freq d
      → IsValid sensor (record (d.sensor) { streams = remove t.reg s.streams ++ t ∷ [] })
  inserted-IsValid s freq t d v e r = record {
    distinct =
        append-Distinct (remove t.reg s.streams) t (remove-Distinct s.streams t.reg v.distinct)
          (find_stream-remove_self s.streams t.reg v.distinct);
    ready =
        All-append (IsReady d.sensor.freq) (remove t.reg s.streams) t
          (All-remove (IsReady d.sensor.freq) s.streams t.reg (streams-IsReady s freq d v r)) e;
    idle = λ off. absurd (ground (arith, r.active));
    handled = r.handled;
  }

  inserted :
      (s : Sensor) (reg freq : ℕ) (t : Stream) (d : Done ℕ)
      → IsValid sensor s
      → t.reg ≡ reg
      → t.freq ≡ freq
      → t.retransmit ≡ con
      → IsReady d.sensor.freq t
      → Raised sensor s freq d
      → Started sensor s reg freq (insert_stream p sensor d (sm_find_stream d.sensor reg) t)
  unfolding sm_find_stream
  inserted s reg freq t d v er ef ec e r =
      let i = find_stream d.sensor.streams reg in
      let q : (insert_stream p sensor d i t).sensor
          ≡ record (d.sensor) { streams = remove t.reg s.streams ++ t ∷ [] } =
        insert_stream_lem p sensor d t i (ap (find_stream d.sensor.streams) er)
        ∙ ap (λ l. record (d.sensor) { streams = remove t.reg l ++ t ∷ [] }) r.streams in
      record {
        stream = t;
        ticket = er;
        requested = ef;
        reliable = ec;
        streams = ap (λ x. x.streams) q ∙ ap (λ k. remove k s.streams ++ t ∷ []) er;
        oneshots = ap (λ x. x.oneshots) q ∙ r.oneshots;
        cache = ap (λ x. x.cache_valid) q ∙ r.cache;
        active = ap (λ x. x.is_active) q ∙ r.active;
        frequency = ap (λ x. x.freq) q ∙ r.frequency;
        result =
            subst
              (λ l.
                ((find_stream l reg ≡ none) × ((insert_stream p sensor d i t).result ≡ some t))
                ⊎ ((j : ℕ) × (find_stream l reg ≡ some j)
                    × ((insert_stream p sensor d i t).result ≡ none)))
              r.streams (insert_stream_result d t i);
        valid = subst (IsValid sensor) (sym q) (inserted-IsValid s freq t d v e r);
        quiet = ap responses (insert_stream_effects p sensor d t i) ∙ r.quiet;
      }

  start_with-Started :
      (s : Sensor) (reg freq : ℕ) (t : Stream)
      → sm_new_stream true ≡ some t
      → IsValid sensor s
      → Works p sensor
      → 0 < freq
      → Returns (Started sensor s reg freq) (start_with p sensor (some t) s reg freq)
  unfolding start_with
  start_with-Started s reg freq t e v w h =
      let (er, ef, ec) = fresh_stream_fields t reg freq in
      Returns->>= (Raised sensor s freq) (Started sensor s reg freq) (raise_sensor p sensor s freq)
        _ (raise_sensor-Returns p sensor s freq w v.handled h)
        (λ d r.
          inserted s reg freq (fresh_stream p sensor t reg freq) d v er ef ec
            (fresh_stream-IsReady t reg freq d.sensor.freq e h (ground (arith, r.frequency))) r)

  start_without_memory :
      (s : Sensor) (reg freq : ℕ)
      → p.malloc a_stream ≡ false
      → sm_start_stream p sensor s reg freq
        ≡ ok (record { sensor = s; effects = []; result = none })
  unfolding sm_start_stream sm_new_stream start_with
  start_without_memory s reg freq m = rw m refl

  -- Given a sensor that can be turned on and memory for the stream, a start with a positive
  -- frequency does not fault. It leaves exactly one stream with the ticket, behind the others, on
  -- an active sensor whose frequency covers every stream and is raised or set by the request only;
  -- it returns NULL exactly if it has replaced a stream of that ticket. The sensor stays valid.
  pub start_stream-Started :
      (s : Sensor) (reg freq : ℕ)
      → IsValid sensor s
      → Works p sensor
      → p.malloc a_stream ≡ true
      → 0 < freq
      → Returns (Started sensor s reg freq) (sm_start_stream p sensor s reg freq)
  unfolding sm_start_stream sm_new_stream
  start_stream-Started s reg freq v w m h = rw m (start_with-Started s reg freq _ refl v w h)

  -- A start with a positive frequency on a valid sensor that Android can turn on does not fault.
  -- With memory for the stream it leaves exactly one stream with the ticket, behind the others, on
  -- an active sensor whose frequency covers every stream and is raised or set by the request only,
  -- and it returns NULL exactly if it has replaced a stream of that ticket; the sensor stays valid.
  -- Without memory it returns NULL, and nothing is changed or done.
  pub start_stream-Answered :
      (s : Sensor) (reg freq : ℕ)
      → IsValid sensor s
      → Works p sensor
      → 0 < freq
      → ((p.malloc a_stream ≡ true)
          × Returns (Started sensor s reg freq) (sm_start_stream p sensor s reg freq))
        ⊎ ((p.malloc a_stream ≡ false)
            × (sm_start_stream p sensor s reg freq
                ≡ ok (record { sensor = s; effects = []; result = none })))
  start_stream-Answered s reg freq v w h = elim (Bool-cases (p.malloc a_stream)) [
    | inl m ↦ inl (m, start_stream-Started s reg freq v w m h)
    | inr full ↦ inr (full, start_without_memory s reg freq full)
  ]
