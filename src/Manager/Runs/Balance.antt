-- ===== src/Manager/Runs/Balance.antt =====
-- The thread loop of ze_streaming_manager.c on one sensor: the books of the tickets over a run.
use ze_sense_server.Prelude.{Bool, ℕ, ◌+◌, ◌≤◌, ◌≡◌, refl, ap, ◌∙◌, List, [], ◌∷◌, ◌++◌, arith}
use ze_sense_server.Prelude.Result.{ok, Returns, Returns->>=, Returns->>=_eq, Returns-mono}
use ze_sense_server.Codes.{sm_req_start, sm_req_oneshot, stream_stopped, stream_update, oneshot}
use ze_sense_server.Event.{Event}
use ze_sense_server.Encode.{Packet}
use ze_sense_server.ResBuf.{Response}
use ze_sense_server.Manager.{Stream, Sensor, Platform, Done, responses}
use ze_sense_server.Manager.Ledger.{
  held, pending, answered, requested, responses-append, answered-append, owed, owed-append,
  owed_mono, owed_no_update,
}
use ze_sense_server.Manager.Invariant.{IsValid}
use ze_sense_server.Manager.Requests.Books.{Able, Allowed, Served}
use ze_sense_server.Manager.Requests.Served.{serve_sensor-Served}
use ze_sense_server.Manager.Dispatch.{cache_event}
use ze_sense_server.Manager.Dispatch.Updates.{Answers, Updates, Updates-held}
use ze_sense_server.Manager.Dispatch.Sent.{Sent, cache_event-keeps, dispatch_event-Sent}
use ze_sense_server.Manager.Runs.{Act, a_request, an_event, act, run}

-- How often a ticket has been handed in by requests of a type.
unfoldable pub handed_in : ℕ → List Act → ℕ → ℕ
handed_in rtype [] reg = 0
handed_in rtype (a_request req ∷ acts) reg = requested rtype req reg + handed_in rtype acts reg
handed_in rtype (an_event _ _ ∷ acts) reg = handed_in rtype acts reg

-- The books of one ticket, before and after.
pub record Books (acts : List Act) (s : Sensor) (d : Done (Unit {0})) (reg : ℕ) : Type 0 where
  pub streams :
      held d.sensor.streams reg + answered stream_stopped (responses d.effects) reg
      ≡ held s.streams reg + handed_in sm_req_start acts reg
  pub oneshots :
      pending d.sensor.oneshots reg + answered oneshot (responses d.effects) reg
      ≡ pending s.oneshots reg + handed_in sm_req_oneshot acts reg

-- The responses need no more references of a ticket than its streams held and its starts have
-- handed in, where as many are left as its streams still hold, and `more`.
abbrev Paid : List Act → Sensor → Done (Unit {0}) → ℕ → Type 0
Paid acts s d reg =
    (more : ℕ)
    → owed (responses d.effects) (held d.sensor.streams reg + more) reg
      ≤ held s.streams reg + handed_in sm_req_start acts reg + more

pub record Ran (sensor : ℕ) (acts : List Act) (s : Sensor) (d : Done (Unit {0})) : Type 0 where
  pub valid : IsValid sensor d.sensor
  pub books : (reg : ℕ) → Books acts s d reg
  pub paid : (reg : ℕ) → Paid acts s d reg

pending_nil : (reg : ℕ) → pending [] reg ≡ 0
unfolding pending
pending_nil reg = refl

nothing_in : (rtype reg : ℕ) → handed_in rtype [] reg ≡ 0
unfolding handed_in
nothing_in rtype reg = refl

nothing_out : (rtype reg : ℕ) → answered rtype (responses []) reg ≡ 0
unfolding answered responses
nothing_out rtype reg = refl

nothing_owed :
    (s : Sensor) (reg more : ℕ)
    → owed (responses []) (held s.streams reg + more) reg
      ≤ held s.streams reg + handed_in sm_req_start [] reg + more
unfolding owed responses handed_in
nothing_owed s reg more = omega arith

answered_Answers :
    (event : Event) (ones : List ℕ) (rs : List (Response Packet)) (reg : ℕ)
    → Answers event ones rs
    → (answered oneshot rs reg ≡ pending ones reg)
      × (answered stream_stopped rs reg ≡ 0)
      × (answered stream_update rs reg ≡ 0)
unfolding answered pending
answered_Answers event [] [] reg a = (refl, refl, refl)
answered_Answers event [] (r ∷ rs) reg a = absurd a
answered_Answers event (one ∷ ones) [] reg a = absurd a
answered_Answers event (one ∷ ones) (r ∷ rs) reg (c, a) = ground (
  arith,
  answered_Answers event ones rs reg a,
  ap (λ x. x.rtype) c.response,
  ap (λ x. x.ticket) c.response,
)

answered_Updates :
    (event : Event) (ts ts' : List Stream) (rs : List (Response Packet)) (reg : ℕ)
    → Updates event ts ts' rs
    → (answered oneshot rs reg ≡ 0) × (answered stream_stopped rs reg ≡ 0)
unfolding answered
answered_Updates event [] [] [] reg u = (refl, refl)
answered_Updates event [] [] (r ∷ rs) reg u = absurd u
answered_Updates event [] (t' ∷ ts') rs reg u = absurd u
answered_Updates event (t ∷ ts) [] rs reg u = absurd u
answered_Updates event (t ∷ ts) (t' ∷ ts') [] reg u = absurd u
answered_Updates event (t ∷ ts) (t' ∷ ts') (r ∷ rs) reg (_, c, us) =
    ground (arith, answered_Updates event ts ts' rs reg us, ap (λ x. x.rtype) c.response)

-- Updates follow references that their streams hold.
Updates-owed :
    (event : Event) (ts ts' : List Stream) (rs : List (Response Packet)) (n reg : ℕ)
    → Updates event ts ts' rs
    → held ts reg ≤ n
    → owed rs n reg ≤ n
unfolding owed held
Updates-owed event [] [] [] n reg u h = omega arith
Updates-owed event [] [] (r ∷ rs) n reg u h = absurd u
Updates-owed event [] (t' ∷ ts') rs n reg u h = absurd u
Updates-owed event (t ∷ ts) [] rs n reg u h = absurd u
Updates-owed event (t ∷ ts) (t' ∷ ts') [] n reg u h = absurd u
Updates-owed event (t ∷ ts) (t' ∷ ts') (r ∷ rs) n reg (_, c, us) h = ground (
  arith,
  Updates-owed event ts ts' rs n reg us,
  ap (λ x. x.rtype) c.response,
  ap (λ x. x.ticket) c.response,
)

module _ (p : Platform) (sensor : ℕ) where
  -- The acts are admitted one after the other, each in the state that those before it leave.
  abbrev pub Admitted : List Act → Sensor → Type 0
  Admitted [] s = Unit
  Admitted (a_request req ∷ acts) s =
      Allowed s req
      × ((d : Done (Unit {0})) → act p sensor (a_request req) s ≡ ok d → Admitted acts d.sensor)
  Admitted (an_event from_samples event ∷ acts) s =
      (d : Done (Unit {0}))
      → act p sensor (an_event from_samples event) s ≡ ok d
      → Admitted acts d.sensor

  -- An event, by what its dispatch has done.
  dispatched-Ran :
      (from_samples : Bool) (event : Event) (s : Sensor) (d : Done (Unit {0}))
      → Able p sensor
      → Sent sensor event (cache_event p sensor from_samples event s) d
      → Ran sensor (an_event from_samples event ∷ []) s d
  unfolding handed_in
  dispatched-Ran from_samples event s d h k' =
      let (same_streams, same_oneshots) =
        cache_event-keeps p sensor h.memory h.fits from_samples event s in
      record {
        valid = k'.valid;
        books = λ reg.
            let split = λ (rtype : ℕ).
              ap (λ l. answered rtype l reg) k'.in_order
              ∙ answered-append rtype k'.answers k'.updates reg in
            let (ones, no_stop, _) = answered_Answers event _ k'.answers reg k'.answered in
            let (no_one, no_stop') =
              answered_Updates event _ d.sensor.streams k'.updates reg k'.updated in
            record {
              streams = omega (
                arith,
                split stream_stopped,
                no_stop,
                no_stop',
                Updates-held event _ d.sensor.streams k'.updates reg k'.updated,
                ap (λ l. held l reg) same_streams,
              );
              oneshots = omega (
                arith,
                split oneshot,
                ones,
                no_one,
                ap (λ l. pending l reg) k'.cleared,
                pending_nil reg,
                ap (λ l. pending l reg) same_oneshots,
              );
            };
        paid = λ reg more.
            let h = held d.sensor.streams reg + more in
            let later = owed k'.updates h reg in
            let (_, no_stop, no_update) = answered_Answers event _ k'.answers reg k'.answered in
            let same = Updates-held event _ d.sensor.streams k'.updates reg k'.updated in
            omega (
              arith,
              ap (λ l. owed l h reg) k'.in_order,
              owed-append k'.answers k'.updates h reg,
              owed_no_update k'.answers later reg no_update,
              no_stop,
              same,
              ap (λ l. held l reg) same_streams,
              Updates-owed event _ d.sensor.streams k'.updates h reg k'.updated
                  (omega (arith, same)),
            );
      }

  pub act-Ran :
      (a : Act) (acts : List Act) (s : Sensor)
      → IsValid sensor s
      → Able p sensor
      → Admitted (a ∷ acts) s
      → Returns (Ran sensor (a ∷ []) s) (act p sensor a s)
  unfolding act handed_in
  act-Ran (a_request req) acts s v h (k, _) =
      Returns-mono (Served sensor s req) _ _ (serve_sensor-Served p sensor s req v h k) (λ d k'.
        record {
          valid = k'.valid;
          books = λ reg.
              let b = k'.balanced reg in
              record { streams = omega (arith, b.streams); oneshots = omega (arith, b.oneshots) };
          paid = λ reg more.
              let b = k'.balanced reg in
              let h = held d.sensor.streams reg + more in
              omega (arith, owed_no_update (responses d.effects) h reg b.updates, b.streams);
        })
  act-Ran (an_event from_samples event) acts s v h k =
      Returns-mono (Sent sensor event (cache_event p sensor from_samples event s)) _ _
        (dispatch_event-Sent p sensor h.memory h.fits from_samples event s v)
        (λ d k'. dispatched-Ran from_samples event s d h k')

  handed_in_cons :
      (rtype : ℕ) (a : Act) (acts : List Act) (reg : ℕ)
      → handed_in rtype (a ∷ acts) reg ≡ handed_in rtype (a ∷ []) reg + handed_in rtype acts reg
  unfolding handed_in
  handed_in_cons rtype (a_request req) acts reg = omega arith
  handed_in_cons rtype (an_event _ _) acts reg = omega arith

  -- Two runs of a sensor, one after the other.
  joined :
      (a : Act) (acts : List Act) (s : Sensor) (d d' : Done (Unit {0}))
      → Ran sensor (a ∷ []) s d
      → Ran sensor acts d.sensor d'
      → Ran sensor
          (a ∷ acts)
          s
          (record { sensor = d'.sensor; effects = d.effects ++ d'.effects; result = tt })
  joined a acts s d d' k k' = record {
    valid = k'.valid;
    books = λ reg.
        let b = k.books reg in
        let b' = k'.books reg in
        let split = λ (rtype : ℕ).
          ap (λ l. answered rtype l reg) (responses-append d.effects d'.effects)
          ∙ answered-append rtype (responses d.effects) (responses d'.effects) reg in
        record {
          streams = omega (
            arith,
            b.streams,
            b'.streams,
            split stream_stopped,
            handed_in_cons sm_req_start a acts reg,
          );
          oneshots = omega (
            arith,
            b.oneshots,
            b'.oneshots,
            split oneshot,
            handed_in_cons sm_req_oneshot a acts reg,
          );
        };
    paid = λ reg more.
        let h = held d'.sensor.streams reg + more in
        let mid = handed_in sm_req_start acts reg + more in
        omega (
          arith,
          ap (λ l. owed l h reg) (responses-append d.effects d'.effects),
          owed-append (responses d.effects) (responses d'.effects) h reg,
          owed_mono (responses d.effects) (owed (responses d'.effects) h reg)
              (held d.sensor.streams reg + mid) reg (omega (arith, k'.paid reg more)),
          k.paid reg mid,
          handed_in_cons sm_req_start a acts reg,
        );
  }

  pub later :
      (a : Act) (acts : List Act) (s : Sensor) (d : Done (Unit {0}))
      → Admitted (a ∷ acts) s
      → act p sensor a s ≡ ok d
      → Admitted acts d.sensor
  later (a_request req) acts s d (_, k) e = k d e
  later (an_event _ _) acts s d k e = k d e

  -- Any run of admitted requests and events on a valid sensor ends without a fault, with the sensor
  -- valid. For every ticket, the streams that hold it at the end and the STREAM_STOPPED answers for
  -- it are together as many as the streams that held it before and the starts with it; and its
  -- pending oneshots at the end and the ONESHOT answers for it are as many as those that were
  -- pending and the oneshot requests with it.
  pub run-Ran :
      (acts : List Act) (s : Sensor)
      → IsValid sensor s
      → Able p sensor
      → Admitted acts s
      → Returns (Ran sensor acts s) (run p sensor acts s)
  unfolding run
  run-Ran [] s v h k = record {
    valid = v;
    books = λ reg. record {
      streams = omega (arith, nothing_in sm_req_start reg, nothing_out stream_stopped reg);
      oneshots = omega (arith, nothing_in sm_req_oneshot reg, nothing_out oneshot reg);
    };
    paid = λ reg more. nothing_owed s reg more;
  }
  run-Ran (a ∷ acts) s v h k =
      Returns->>=_eq (Ran sensor (a ∷ []) s) _ (act p sensor a s) _ (act-Ran a acts s v h k)
        (λ d e r.
          Returns->>= (Ran sensor acts d.sensor) _ (run p sensor acts d.sensor) _
            (run-Ran acts d.sensor r.valid h (later a acts s d k e))
            (λ d' r'. joined a acts s d d' r r'))
