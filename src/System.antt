-- ===== src/System.antt =====
-- The two threads together: a run of the Streaming Manager on one sensor, and the service of its
-- responses by the CoAP server, which gets them in their order through the response buffer.
pub mod Buffered
use ze_sense_server.Prelude.{
  ℕ, suc, ◌+◌, ◌≤◌, ◌≡◌, refl, ap, ◌⊎◌, inl, inr, true, List, [], ◌∷◌, arith,
}
use ze_sense_server.Prelude.Result.{
  Result, ok, ◌>>=◌, Returns, Returns->>=, Returns->>=_eq, Returns-both,
}
use ze_sense_server.Codes.{sm_req_start, stream_stopped, stream_update, oneshot, invalid_response}
use ze_sense_server.Encode.{Packet}
use ze_sense_server.ResBuf.{Response}
use ze_sense_server.Manager.{Sensor, zero_sensor, Platform, Effect, Done, responses}
use ze_sense_server.Manager.Ledger.{held, answered, owed, owed_mono, Deliverable}
use ze_sense_server.Manager.Invariant.{zero_sensor-IsValid}
use ze_sense_server.Manager.Requests.Books.{Able}
use ze_sense_server.Manager.Runs.{Act, a_request, an_event, run}
use ze_sense_server.Manager.Runs.Balance.{handed_in, Ran, Admitted, run-Ran}
use ze_sense_server.Manager.Runs.Made.{Made, AllMade, Tidy, Starts, run-Tidy}
use ze_sense_server.Server.State.{Registration, Call, Libcoap, Server}
use ze_sense_server.Server.Notify.{released}
use ze_sense_server.Server.Ready.{serve_responses, AllPaced, Covers, refs_of, AllReady}
use ze_sense_server.Server.Serving.{responses_of, Replies, Responded, serve_responses-Responded}

-- Each response with what libcoap and the clock answer while it is served.
abbrev pub paired : (ℕ → Libcoap) → ℕ → List (Response Packet) → List (Libcoap × Response Packet)
paired env k [] = []
paired env k (r ∷ rs) = (env k, r) ∷ paired env (suc k) rs

pub system :
    Platform
    → (sensor : ℕ) → (ℕ → Libcoap)
    → List Act
    → Sensor
    → Server
    → Result (Sensor × Server × List Call)
system p sensor env acts s sv = do
  d ← run p sensor acts s
  (sv', calls) ← serve_responses (paired env 0 (responses d.effects)) sv
  ok (d.sensor, sv', calls)

responses_of-paired :
    (env : ℕ → Libcoap) (k : ℕ) (rs : List (Response Packet)) → responses_of (paired env k rs) ≡ rs
responses_of-paired env k [] = refl
responses_of-paired env k (r ∷ rs) = ap (λ l. r ∷ l) (responses_of-paired env (suc k) rs)

-- libcoap has one limit of unconfirmed notifications, and memory is at hand.
pub record IsSteady (limit : ℕ) (env : ℕ → Libcoap) : Type 0 where
  pub limited : (k : ℕ) → (env k).obs_max_non ≡ limit
  pub payload_memory : (k : ℕ) → (env k).payload_allocated ≡ true
  pub data_memory : (k : ℕ) → (env k).data_allocated ≡ true

pub held_zero : (sensor t : ℕ) → held (zero_sensor sensor).streams t ≡ 0
unfolding held
held_zero sensor t = refl

-- The kind of all tickets.
abbrev pub Any : ℕ → Type 0
Any t = Unit

pub kinds_of_answer :
    (r : Response Packet)
    → Made Any r
    → (r.rtype ≡ stream_stopped)
      ⊎ ((r.rtype ≡ oneshot) × Deliverable r.pk)
      ⊎ ((r.rtype ≡ stream_update) × Deliverable r.pk)
      ⊎ (r.rtype ≡ invalid_response)
kinds_of_answer r (inl (e, _)) = inl e
kinds_of_answer r (inr (inl x)) = inr (inl x)
kinds_of_answer r (inr (inr (e, _, d))) = inr (inr (inl (e, d)))

pub unconditional : (p : Platform) (sensor : ℕ) (acts : List Act) → Starts Any p sensor acts
unconditional p sensor [] = tt
unconditional p sensor (a_request req ∷ acts) = ((λ e. tt), unconditional p sensor acts)
unconditional p sensor (an_event _ _ ∷ acts) = unconditional p sensor acts

AllMade-AllReady :
    (limit : ℕ) (env : ℕ → Libcoap) (k : ℕ) (rs : List (Response Packet))
    → IsSteady limit env
    → AllMade Any rs
    → AllReady limit (paired env k rs)
AllMade-AllReady limit env k [] h m = tt
AllMade-AllReady limit env k (r ∷ rs) h (m, ms) = (
  record {
    limited = h.limited k;
    payload_memory = h.payload_memory k;
    data_memory = h.data_memory k;
    cases = kinds_of_answer r m;
  },
  AllMade-AllReady limit env (suc k) rs h ms,
)

-- The checkouts that the starts hand in are references of registrations of the server.
abbrev pub CheckedOut : List Act → List (ℕ × Registration) → Type 0
CheckedOut acts regs = Covers (handed_in sm_req_start acts) regs

-- A run needs no more references for its responses than its starts have handed in.
pub run_owed :
    (sensor : ℕ) (acts : List Act) (d : Done (Unit {0})) (t : ℕ)
    → Ran sensor acts (zero_sensor sensor) d
    → owed (responses d.effects) 0 t ≤ handed_in sm_req_start acts t
run_owed sensor acts d t r = omega (
  arith,
  owed_mono (responses d.effects) 0 (held d.sensor.streams t + 0) t (omega arith),
  r.paid t 0,
  held_zero sensor t,
)

-- What has become of the checkouts that the starts handed to the manager.
pub record Accounted (p : Platform) (sensor limit : ℕ) (env : ℕ → Libcoap) (acts : List Act)
    (sv : Server) (out : Sensor × Server × List Call) : Type 0 where
  pub done : Done (Unit {0})
  pub ran : run p sensor acts (zero_sensor sensor) ≡ ok done
  pub last : out.0 ≡ done.sensor
  pub replies : Replies sv (paired env 0 (responses done.effects)) out.1 out.2
  pub paced : AllPaced limit out.1.registrations
  pub tickets : (t : ℕ) → held out.0.streams t + released out.2 t ≡ handed_in sm_req_start acts t

-- The two threads together. Take a sensor after the start of the program that Android knows, memory
-- for both threads, requests and events that are admitted, and registrations that are paced and
-- have a reference for each start. Then neither thread faults: in particular no response is served
-- with a registration that is destroyed. Every response of the run has its reply, in order: an
-- update one notification of its packet, with a report if one is due, or nothing where the
-- registration has too many failures; a oneshot one answer, if its request is still there; a
-- STREAM_STOPPED one release. All registrations stay paced, and for every ticket the starts with it
-- are as many as the streams that still hold it and the releases of its registration. A
-- registration is paced if it has no more unconfirmed notifications in a row than the limit and no
-- more octets since its last report than the threshold.
pub system-Accounted :
    (p : Platform) (sensor limit : ℕ) (env : ℕ → Libcoap) (acts : List Act) (sv : Server)
    → Able p sensor
    → Admitted p sensor acts (zero_sensor sensor)
    → IsSteady limit env
    → AllPaced limit sv.registrations
    → CheckedOut acts sv.registrations
    → Returns
        (Accounted p sensor limit env acts sv)
        (system p sensor env acts (zero_sensor sensor) sv)
unfolding system
system-Accounted p sensor limit env acts sv a h steady paced out =
    let s = zero_sensor sensor in
    let v = zero_sensor-IsValid sensor in
    Returns->>=_eq (λ d. Ran sensor acts s d × Tidy Any d) (Accounted p sensor limit env acts sv)
      (run p sensor acts s) _
      (Returns-both (Ran sensor acts s) (Tidy Any) (run p sensor acts s)
        (run-Ran p sensor acts s v a h)
        (run-Tidy Any p sensor acts s v a h (unconditional p sensor acts) tt))
      (λ d e (r, t).
        let rounds = paired env 0 (responses d.effects) in
        let same = responses_of-paired env 0 (responses d.effects) in
        Returns->>= (Responded limit sv rounds) (Accounted p sensor limit env acts sv)
          (serve_responses rounds sv) _
          (serve_responses-Responded limit rounds sv
            (AllMade-AllReady limit env 0 (responses d.effects) steady t.made)
            (λ u. omega (arith, ap (λ l. owed l 0 u) same, run_owed sensor acts d u r, out u))
            paced)
          (λ (sv', calls) q. record {
            done = d;
            ran = e;
            last = refl;
            replies = q.replies;
            paced = q.paced;
            tickets = λ u. omega (
              arith,
              (r.books u).streams,
              q.releases u,
              ap (λ l. answered stream_stopped l u) same,
              held_zero sensor u,
            );
          }))
