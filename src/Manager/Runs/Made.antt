-- ===== src/Manager/Runs/Made.antt =====
-- The responses of a run: what type they have, whose ticket they carry, and their packets.
use mathlib.Core.Path.{subst}
use ze_sense_server.Prelude.{
  ℕ, ◌<◌, ◌≡◌, ◌≢◌, refl, sym, ap, ◌∙◌, ◌⊎◌, inl, inr, Option-cases, List, [], ◌∷◌, ◌++◌, none,
  some, arith,
}
use ze_sense_server.Prelude.Result.{
  Returns, Returns->>=, Returns->>=_eq, Returns-if, Returns-mono, Returns-both,
}
use ze_sense_server.Codes.{
  sm_req_start, stream_stopped, stream_update, oneshot, con, non, default_freq,
}
use ze_sense_server.Event.{Event}
use ze_sense_server.Encode.{Packet}
use ze_sense_server.ReqBuf.{Request}
use ze_sense_server.ResBuf.{Response}
use ze_sense_server.Manager.{Stream, Sensor, Platform, Done, Effect, responses, a_stream, a_oneshot}
use ze_sense_server.Manager.Ledger.{Deliverable, responses-append}
use ze_sense_server.Manager.Invariant.{IsValid}
use ze_sense_server.Manager.Sensors.{android_sensor_activate}
use ze_sense_server.Manager.Sensors.Flags.{activate-Returns}
use ze_sense_server.Manager.Streams.{find_stream, sm_start_stream, sm_stop_stream, sm_new_oneshot}
use ze_sense_server.Manager.Streams.Lists.{All, remove, All-remove, All-append}
use ze_sense_server.Manager.Streams.Start.{Started, start_stream-Started}
use ze_sense_server.Manager.Streams.Stop.{Stopped, stop_stream-Stopped}
use ze_sense_server.Manager.Requests.{
  answer, start_answer, serve_start, serve_stop, serve_oneshot, serve_sensor,
}
use ze_sense_server.Manager.Requests.Books.{stop_done, Able, Allowed, oneshot_packet-ok}
use ze_sense_server.Manager.Requests.Served.{serve_sensor_cases}
use ze_sense_server.Manager.Dispatch.{cache_event}
use ze_sense_server.Manager.Dispatch.Updates.{Answers, Updates}
use ze_sense_server.Manager.Dispatch.Sent.{Sent, cache_event-keeps, dispatch_event-Sent}
use ze_sense_server.Manager.Runs.{Act, a_request, an_event, act, run}
use ze_sense_server.Manager.Runs.Balance.{Admitted, Ran, act-Ran, later}

module _ (K : ℕ → Type 0) where
  abbrev Conf : ℕ → Type 0
  Conf n = (n ≡ con) ⊎ (n ≡ non)

  -- A response for a ticket of the kind, or for a oneshot, with its packet.
  abbrev pub Made : Response Packet → Type 0
  Made r =
      ((r.rtype ≡ stream_stopped) × K r.ticket)
      ⊎ ((r.rtype ≡ oneshot) × Deliverable r.pk)
      ⊎ ((r.rtype ≡ stream_update) × K r.ticket × Deliverable r.pk)

  abbrev pub AllMade : List (Response Packet) → Type 0
  AllMade [] = Unit
  AllMade (r ∷ rs) = Made r × AllMade rs

  abbrev pub Kept : Stream → Type 0
  Kept t = K t.reg × ((t.retransmit ≡ con) ⊎ (t.retransmit ≡ non))

  pub record Tidy (d : Done (Unit {0})) : Type 0 where
    pub kept : All Kept d.sensor.streams
    pub made : AllMade (responses d.effects)

  AllMade-append : (xs ys : List (Response Packet)) → AllMade xs → AllMade ys → AllMade (xs ++ ys)
  AllMade-append [] ys h k = k
  AllMade-append (x ∷ xs) ys h k = (h.0, AllMade-append xs ys h.1 k)

  responses_nil : responses [] ≡ []
  unfolding responses
  responses_nil = refl

  quiet-AllMade : (es : List Effect) → responses es ≡ [] → AllMade (responses es)
  quiet-AllMade es q = subst AllMade (sym q) tt

  stopped-AllMade :
      (es : List Effect) (ticket : ℕ)
      → responses es ≡ []
      → K ticket
      → AllMade (responses (es ++ answer stream_stopped ticket none ∷ []))
  unfolding responses
  stopped-AllMade es ticket q h =
      subst AllMade
        (sym (
          responses-append es _
          ∙ ap (λ l. l ++ responses (answer stream_stopped ticket none ∷ [])) q))
        (inl (refl, h), tt)

  -- A ticket that is found is one of the kind.
  found-Kept : (l : List Stream) (reg i : ℕ) → find_stream l reg ≡ some i → All Kept l → K reg
  unfolding find_stream
  found-Kept [] reg i h k = cc
  found-Kept (t ∷ ts) reg i h k = elim (Option-cases (find_stream ts reg)) [
    | inl gone ↦ subst K (ground arith) k.0.0
    | inr (j, e) ↦ found-Kept ts reg j e k.1
  ]

  module _ (p : Platform) (sensor : ℕ) where
    serve_start-Tidy :
        (s : Sensor) (req : Request)
        → IsValid sensor s
        → Able p sensor
        → 0 < req.freq
        → K req.ticket
        → All Kept s.streams
        → Returns Tidy (serve_start p sensor s req)
    unfolding serve_start start_answer
    serve_start-Tidy s req v a h k kept =
        Returns->>= (Started sensor s req.ticket req.freq) Tidy
          (sm_start_stream p sensor s req.ticket req.freq) _
          (start_stream-Started p sensor s req.ticket req.freq v a.works (a.memory a_stream) h)
          (λ d q. record {
            kept = subst (All Kept) (sym q.streams) (
                All-append Kept (remove req.ticket s.streams) q.stream
                  (All-remove Kept s.streams req.ticket kept)
                  (subst K (sym q.ticket) k, inl q.reliable));
            made = elim q.result [
              | inl (fresh, r) ↦ rw r (quiet-AllMade d.effects q.quiet)
              | inr (i, found, r) ↦ rw r (stopped-AllMade d.effects req.ticket q.quiet k)
            ];
          })

    serve_stop-Tidy :
        (s : Sensor) (req : Request)
        → IsValid sensor s
        → (remove req.ticket s.streams ≢ []) ⊎ (s.oneshots ≡ [])
        → All Kept s.streams
        → Returns Tidy (serve_stop p sensor s req)
    unfolding serve_stop
    serve_stop-Tidy s req v h kept =
        Returns->>= (Stopped p sensor s req.ticket) Tidy (sm_stop_stream p sensor s req.ticket) _
          (stop_stream-Stopped p sensor s req.ticket v h)
          (λ d q. record {
            kept = elim q.cases [
              | inl (unknown, same) ↦
                  subst (λ (x : Done ℕ). All Kept x.sensor.streams) (sym same) kept
              | inr (i, found, z) ↦
                  subst (All Kept) (sym z.streams) (All-remove Kept s.streams req.ticket kept)
            ];
            made = elim q.cases [
              | inl (unknown, same) ↦
                  subst (λ x. AllMade (responses (stop_done x req.ticket).effects)) (sym same)
                    (quiet-AllMade [] responses_nil)
              | inr (i, found, z) ↦ rw z.result (
                  stopped-AllMade d.effects req.ticket z.quiet
                    (found-Kept s.streams req.ticket i found kept))
            ];
          })

    serve_oneshot-Tidy :
        (s : Sensor) (req : Request)
        → Able p sensor
        → All Kept s.streams
        → Returns Tidy (serve_oneshot p sensor s req)
    unfolding serve_oneshot sm_new_oneshot responses
    serve_oneshot-Tidy s req a kept =
        let (pk, m, _, _, c) = oneshot_packet-ok p s.event_cache non a.memory a.fits in
        Returns-if Tidy s.cache_valid _ _
          (λ cached.
            rw m (record { kept = kept; made = (inr (inl (refl, (pk, refl, inr c))), tt) }))
          (λ empty. rw (a.memory a_oneshot) (
            Returns->>= _ Tidy (android_sensor_activate p sensor s default_freq) _
              (activate-Returns p sensor s default_freq a.works (omega arith))
              (λ d q. record {
                kept = subst (All Kept) (sym q.0.streams) kept;
                made = quiet-AllMade d.effects q.0.quiet;
              })))

    serve_sensor-Tidy :
        (s : Sensor) (req : Request)
        → IsValid sensor s
        → Able p sensor
        → Allowed s req
        → (req.rtype ≡ sm_req_start → K req.ticket)
        → All Kept s.streams
        → Returns Tidy (serve_sensor p sensor s req)
    serve_sensor-Tidy s req v a (pos, safe) k kept = elim (serve_sensor_cases p sensor s req) [
      | inl (e, q) ↦ rw q (serve_start-Tidy s req v a (pos e) (k e) kept)
      | inr (inl (e, q)) ↦ rw q (serve_stop-Tidy s req v (safe e) kept)
      | inr (inr (inl (e, q))) ↦ rw q (serve_oneshot-Tidy s req a kept)
      | inr (inr (inr (n, m, q))) ↦
          rw q (record { kept = kept; made = quiet-AllMade [] responses_nil })
    ]

  Answers-AllMade :
      (event : Event) (ones : List ℕ) (rs : List (Response Packet))
      → Answers event ones rs
      → AllMade rs
  Answers-AllMade event [] [] a = tt
  Answers-AllMade event [] (r ∷ rs) a = absurd a
  Answers-AllMade event (one ∷ ones) [] a = absurd a
  Answers-AllMade event (one ∷ ones) (r ∷ rs) (c, a) = (
    inr (inl (ap (λ x. x.rtype) c.response, (c.packet, ap (λ x. x.pk) c.response, inl c.delivery))),
    Answers-AllMade event ones rs a,
  )

  -- The streams stay of the kind, and so do their updates.
  Updates-AllMade :
      (event : Event) (ts ts' : List Stream) (rs : List (Response Packet))
      → Updates event ts ts' rs
      → All Kept ts
      → All Kept ts' × AllMade rs
  Updates-AllMade event [] [] [] u k = (tt, tt)
  Updates-AllMade event [] [] (r ∷ rs) u k = absurd u
  Updates-AllMade event [] (t' ∷ ts') rs u k = absurd u
  Updates-AllMade event (t ∷ ts) [] rs u k = absurd u
  Updates-AllMade event (t ∷ ts) (t' ∷ ts') [] u k = absurd u
  Updates-AllMade event (t ∷ ts) (t' ∷ ts') (r ∷ rs) (u, c, us) ((k, conf), ks) =
      let (kept, made) = Updates-AllMade event ts ts' rs us ks in
      (
        ((subst K (sym u.reg) k, subst Conf (sym u.retransmit) conf), kept),
        (
          inr (
              inr (
                ap (λ x. x.rtype) c.response,
                subst K (sym (ap (λ x. x.ticket) c.response)) k,
                (c.packet, ap (λ x. x.pk) c.response, subst Conf (sym c.delivery) conf),
              )),
          made,
        ),
      )

  module _ (p : Platform) (sensor : ℕ) where
    -- The tickets of the starts are of the kind.
    abbrev pub Starts : List Act → Type 0
    Starts [] = Unit
    Starts (a_request req ∷ acts) = (req.rtype ≡ sm_req_start → K req.ticket) × Starts acts
    Starts (an_event _ _ ∷ acts) = Starts acts

    act-Tidy :
        (a : Act) (acts : List Act) (s : Sensor)
        → IsValid sensor s
        → Able p sensor
        → Admitted p sensor (a ∷ acts) s
        → Starts (a ∷ acts)
        → All Kept s.streams
        → Returns Tidy (act p sensor a s)
    unfolding act
    act-Tidy (a_request req) acts s v a (h, _) (k, _) kept =
        serve_sensor-Tidy p sensor s req v a h k kept
    act-Tidy (an_event from_samples event) acts s v a h k kept =
        let (same_streams, _) = cache_event-keeps p sensor a.memory a.fits from_samples event s in
        Returns-mono (Sent sensor event (cache_event p sensor from_samples event s)) Tidy _
          (dispatch_event-Sent p sensor a.memory a.fits from_samples event s v)
          (λ d q.
            let (kept', made) =
              Updates-AllMade event _ d.sensor.streams q.updates q.updated
                (subst (All Kept) (sym same_streams) kept) in
            record {
              kept = kept';
              made = subst AllMade (sym q.in_order) (
                  AllMade-append q.answers q.updates (Answers-AllMade event _ q.answers q.answered)
                    made);
            })

    Starts-later : (a : Act) (acts : List Act) → Starts (a ∷ acts) → Starts acts
    Starts-later (a_request req) acts k = k.1
    Starts-later (an_event _ _) acts k = k

    pub run-Tidy :
        (acts : List Act) (s : Sensor)
        → IsValid sensor s
        → Able p sensor
        → Admitted p sensor acts s
        → Starts acts
        → All Kept s.streams
        → Returns Tidy (run p sensor acts s)
    unfolding run
    run-Tidy [] s v a h k kept = record { kept = kept; made = quiet-AllMade [] responses_nil }
    run-Tidy (x ∷ acts) s v a h k kept =
        Returns->>=_eq (λ d. Tidy d × Ran sensor (x ∷ []) s d) Tidy (act p sensor x s) _
          (Returns-both Tidy (Ran sensor (x ∷ []) s) (act p sensor x s)
            (act-Tidy x acts s v a h k kept) (act-Ran p sensor x acts s v a h))
          (λ d e (t, r).
            Returns->>= Tidy Tidy (run p sensor acts d.sensor) _
              (run-Tidy acts d.sensor r.valid a (later p sensor x acts s d h e)
                (Starts-later x acts k) t.kept)
              (λ d' t'. record {
                kept = t'.kept;
                made =
                    subst AllMade (sym (responses-append d.effects d'.effects))
                      (AllMade-append (responses d.effects) (responses d'.effects) t.made t'.made);
              }))
