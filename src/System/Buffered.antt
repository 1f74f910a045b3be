-- ===== src/System/Buffered.antt =====
-- The two threads with the response buffer between them: a run of the Streaming Manager on one
-- sensor, whose responses are put during the passes of the CoAP server thread.
use mathlib.Core.Path.{subst}
use mathlib.Core.List.{append-nil}
use ze_sense_server.Prelude.{
  splice, ℕ, zero, suc, ◌+◌, ◌<◌, ◌==◌, ◌≡◌, ap, sym, ◌∙◌, inl, inr, Bool-cases, true, List, [],
  ◌∷◌, ◌++◌, Option, some, arith,
}
use ze_sense_server.Prelude.Result.{
  Result, ok, ◌>>=◌, Returns, Returns->>=, Returns->>=_eq, Returns-both,
}
use ze_sense_server.Codes.{sm_req_start, stream_stopped}
use ze_sense_server.Encode.{Packet}
use ze_sense_server.Ring.{Ring}
use ze_sense_server.Ring.Contents.{IsValid}
use ze_sense_server.ResBuf.{Response, get_response_buf_item}
use ze_sense_server.Manager.{Sensor, zero_sensor, Platform, Done, responses}
use ze_sense_server.Manager.Ledger.{held, answered, answered-append, owed, owed-append, owed_mono}
use ze_sense_server.Manager.Invariant.{zero_sensor-IsValid}
use ze_sense_server.Manager.Requests.Books.{Able}
use ze_sense_server.Manager.Runs.{Act, run}
use ze_sense_server.Manager.Runs.Balance.{handed_in, Ran, Admitted, run-Ran}
use ze_sense_server.Manager.Runs.Made.{AllMade, Tidy, run-Tidy}
use ze_sense_server.Server.State.{Registration, Call, Server}
use ze_sense_server.Server.Notify.{released}
use ze_sense_server.Server.Ready.{AllPaced, AllReady}
use ze_sense_server.Server.Serving.{responses_of}
use ze_sense_server.Server.Loop.{Round, smreq_ratio, arrive}
use ze_sense_server.Server.Loop.Drained.{drained, inside, drained-InOrder}
use ze_sense_server.Server.Thread.{Pass, at_start, ze_coap_server_core_thread}
use ze_sense_server.Server.Thread.Served.{
  of_pass, passes_drained, owed_by, IsOrderly, PassReplies, Met, Served, responses_of-append,
  ze_coap_server_core_thread-Served,
}
use ze_sense_server.System.{held_zero, kinds_of_answer, Any, unconditional, CheckedOut, run_owed}

-- libcoap has one limit of unconfirmed notifications, and memory is at hand.
pub record IsSteadyRounds (limit : ℕ) (rounds : ℕ → Round) : Type 0 where
  pub limited : (k : ℕ) → (rounds k).env.obs_max_non ≡ limit
  pub payload_memory : (k : ℕ) → (rounds k).env.payload_allocated ≡ true
  pub data_memory : (k : ℕ) → (rounds k).env.data_allocated ≡ true

drained-AllReady :
    (limit : ℕ) (rounds : ℕ → Round) (n k : ℕ) (b : Ring (Response Packet))
    → IsSteadyRounds limit rounds
    → AllMade Any (responses_of (drained rounds n k b).served)
    → AllReady limit (drained rounds n k b).served
unfolding drained
drained-AllReady limit rounds zero k b s = λ m. tt
drained-AllReady limit rounds (suc n) k b s =
    let (r, b') = get_response_buf_item b in
    let next = drained-AllReady limit rounds n (k + 1) (arrive (rounds k).arrivals b') s in
    elim (Bool-cases (rounds k).globalexit) [
      | inl leave ↦ rw leave (λ m. tt)
      | inr stay ↦ rw stay (elim (Bool-cases (b.counter == 0)) [
        | inl empty ↦ rw empty next
        | inr full ↦ rw full (λ (m, ms). (
          record {
            limited = s.limited k;
            payload_memory = s.payload_memory k;
            data_memory = s.data_memory k;
            cases = kinds_of_answer (get_response_buf_item b).0 m;
          },
          next ms,
        ))
      ])
    ]

-- The items that the passes take out are those put in before, in order.
passes_drained-InOrder :
    {Q : Type 0} (ps : List (Pass Q)) (b : Ring (Response Packet))
    → IsValid b
    → IsValid (passes_drained ps b).buf
      × (inside b ++ (passes_drained ps b).accepted
          ≡ responses_of (passes_drained ps b).served ++ inside (passes_drained ps b).buf)
unfolding passes_drained
passes_drained-InOrder [] b v = (v, append-nil (inside b))
passes_drained-InOrder (p ∷ ps) b v =
    let o = drained-InOrder p.rounds smreq_ratio 0 b v in
    let d = of_pass p b in
    let e = passes_drained ps d.buf in
    let ih = passes_drained-InOrder ps d.buf o.0 in
    (
      ih.0,
      splice (inside b) d.accepted (responses_of d.served) (inside d.buf) e.accepted
            (responses_of e.served) (inside e.buf) o.1 ih.1
          ∙ ap (λ l. l ++ inside e.buf) (sym (responses_of-append d.served e.served)),
    )

AllMade-split :
    (K : ℕ → Type 0) (xs ys : List (Response Packet))
    → AllMade K (xs ++ ys)
    → AllMade K xs × AllMade K ys
AllMade-split K [] ys m = (tt, m)
AllMade-split K (x ∷ xs) ys (m, ms) = let rest = AllMade-split K xs ys ms in ((m, rest.0), rest.1)

-- What has become of the checkouts that the starts handed to the manager: a stream still holds
-- them, they are released, or the response that gives them up is still in the buffer.
pub record Settled {Q : Type 0} (limit : ℕ) (acts : List Act) (ps : List (Pass Q))
    (b : Ring (Response Packet)) (regs : List (ℕ × Registration)) (sensor : Sensor)
    (out : Ring (Response Packet) × Server × List Call) : Type 0 where
  pub replies : PassReplies ps b (at_start regs) out.1 out.2
  pub valid : IsValid out.0
  pub paced : AllPaced limit out.1.registrations
  pub tickets :
      (t : ℕ)
      → held sensor.streams t + released out.2 t + answered stream_stopped (inside out.0) t
        ≡ handed_in sm_req_start acts t

module _ {Q : Type 0} (peek_next : Q → Option ℕ) (retransmit_next : Q → Q) (left : Q → ℕ)
    (fewer : (t : ℕ) (q : Q) → peek_next q ≡ some t → left (retransmit_next q) < left q)
    (limit : ℕ) where
  -- A pass with fuel for its retransmissions, whose network leaves the references that are needed.
  pub record IsSteadyPass (needed : ℕ → ℕ) (p : Pass Q) : Type 0 where
    pub fuel : left p.queue < p.fuel
    pub orderly : IsOrderly limit needed p.dispatch
    pub rounds : IsSteadyRounds limit p.rounds

  abbrev pub AllSteady : List (Pass Q) → Ring (Response Packet) → Type 0
  AllSteady [] b = Unit
  AllSteady (p ∷ ps) b = IsSteadyPass (owed_by (p ∷ ps) b) p × AllSteady ps (of_pass p b).buf

  AllSteady-Met :
      (ps : List (Pass Q)) (b : Ring (Response Packet))
      → AllSteady ps b
      → AllMade Any (responses_of (passes_drained ps b).served)
      → Met peek_next retransmit_next left fewer limit ps b
  unfolding Met passes_drained
  AllSteady-Met [] b s m = tt
  AllSteady-Met (p ∷ ps) b (s, ss) m =
      let d = of_pass p b in
      let e = passes_drained ps d.buf in
      let parts =
        AllMade-split Any (responses_of d.served) (responses_of e.served)
          (subst (AllMade Any) (responses_of-append d.served e.served) m) in
      (
        s.fuel,
        s.orderly,
        drained-AllReady limit p.rounds smreq_ratio 0 b s.rounds parts.0,
        AllSteady-Met ps d.buf ss parts.1,
      )

  -- Both threads: the responses of the run are put in during the passes.
  unfoldable pub both_threads :
      Platform
      → (sensor : ℕ) → List Act
      → List (Pass Q)
      → Ring (Response Packet)
      → List (ℕ × Registration)
      → Result (Sensor × Ring (Response Packet) × Server × List Call)
  both_threads p sensor acts ps b regs = do
    d ← run p sensor acts (zero_sensor sensor)
    out ← ze_coap_server_core_thread peek_next retransmit_next ps b regs
    ok (d.sensor, out.0, out.1, out.2)

  settled :
      (acts : List Act) (sensor t : ℕ) (ps : List (Pass Q)) (b : Ring (Response Packet))
      (sv : Server) (d : Done (Unit {0})) (out : Ring (Response Packet) × Server × List Call)
      → inside b ≡ []
      → (passes_drained ps b).accepted ≡ responses d.effects
      → Ran sensor acts (zero_sensor sensor) d
      → Served limit ps b sv out
      → held d.sensor.streams t + released out.2 t + answered stream_stopped (inside out.0) t
        ≡ handed_in sm_req_start acts t
  settled acts sensor t ps b sv d out empty puts r q =
      let served = responses_of (passes_drained ps b).served in
      let all : responses d.effects ≡ served ++ inside out.0 =
        sym puts ∙ ap (λ l. l ++ (passes_drained ps b).accepted) (sym empty) ∙ q.fifo in
      omega (
        arith,
        (r.books t).streams,
        q.releases t,
        ap (λ l. answered stream_stopped l t) all,
        answered-append stream_stopped served (inside out.0) t,
        held_zero sensor t,
      )

  -- The two threads with their buffer. Take a sensor after the start of the program that Android
  -- knows, memory for both threads, requests and events that are admitted, registrations that are
  -- paced and have a reference for each start, an empty response buffer, and steady passes in which
  -- just the responses of the run are put: with fuel for their retransmissions, and a network that
  -- leaves the references that the responses need. Then neither thread faults: in particular no
  -- response is served with a registration that is destroyed. Every response that is served has its
  -- reply, in order: an update one notification of its packet, with a report if one is due, or
  -- nothing where the registration has too many failures; a oneshot one answer, if its request is
  -- still there; a STREAM_STOPPED one release. The registrations stay paced, and for every ticket
  -- the starts with it are as many as the streams that hold it, the releases of its registration,
  -- and the responses in the buffer that will release it. A registration is paced if it has no more
  -- unconfirmed notifications in a row than the limit and no more octets since its last report than
  -- the threshold.
  pub both_threads-Settled :
      (p : Platform) (sensor : ℕ) (acts : List Act) (ps : List (Pass Q))
      (b : Ring (Response Packet)) (regs : List (ℕ × Registration))
      → Able p sensor
      → Admitted p sensor acts (zero_sensor sensor)
      → CheckedOut acts regs
      → AllPaced limit regs
      → IsValid b
      → inside b ≡ []
      → AllSteady ps b
      → ((d : Done (Unit {0}))
          → run p sensor acts (zero_sensor sensor) ≡ ok d
          → (passes_drained ps b).accepted ≡ responses d.effects)
      → Returns
          (λ (s, b', sv, calls). Settled limit acts ps b regs s (b', sv, calls))
          (both_threads p sensor acts ps b regs)
  unfolding both_threads
  both_threads-Settled p sensor acts ps b regs a h out paced v empty steady puts =
      let s = zero_sensor sensor in
      let valid = zero_sensor-IsValid sensor in
      let served = responses_of (passes_drained ps b).served in
      let rest = inside (passes_drained ps b).buf in
      Returns->>=_eq (λ d. Ran sensor acts s d × Tidy Any d)
        (λ (s', b', sv, calls). Settled limit acts ps b regs s' (b', sv, calls))
        (run p sensor acts s) _
        (Returns-both (Ran sensor acts s) (Tidy Any) (run p sensor acts s)
          (run-Ran p sensor acts s valid a h)
          (run-Tidy Any p sensor acts s valid a h (unconditional p sensor acts) tt))
        (λ d e (r, t).
          let all : responses d.effects ≡ served ++ rest =
            sym (puts d e)
            ∙ ap (λ l. l ++ (passes_drained ps b).accepted) (sym empty)
            ∙ (passes_drained-InOrder ps b v).1 in
          let made = AllMade-split Any served rest (subst (AllMade Any) all t.made) in
          Returns->>= (Served limit ps b (at_start regs))
            (λ (s', b', sv, calls). Settled limit acts ps b regs s' (b', sv, calls))
            (ze_coap_server_core_thread peek_next retransmit_next ps b regs) _
            (ze_coap_server_core_thread-Served peek_next retransmit_next left fewer limit regs ps b
              (AllSteady-Met ps b steady made.0) v paced
              (λ u. omega (
                arith,
                owed_mono served 0 (owed rest 0 u) u (omega arith),
                owed-append served rest 0 u,
                ap (λ l. owed l 0 u) all,
                run_owed sensor acts d u r,
                out u,
              )))
            (λ o q. record {
              replies = q.replies;
              valid = q.valid;
              paced = q.paced;
              tickets = λ u. settled acts sensor u ps b (at_start regs) d o empty (puts d e) r q;
            }))
