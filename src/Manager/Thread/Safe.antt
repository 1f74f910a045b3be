-- ===== src/Manager/Thread/Safe.antt =====
-- The turns of the Streaming Manager do not fault.
use mathlib.Core.Path.{subst, fun_ext}
use mathlib.Core.List.{append_assoc, append-nil}
use ze_sense_server.Prelude.{
  ℕ, suc, ◌∙◌, ap, sym, splice, ◌+◌, ◌*◌, ◌<◌, ◌≡◌, ◌⊎◌, inl, inr, refl, ◌==◌, ◌||◌, Bool, true,
  false, List, [], ◌∷◌, ◌++◌, length, length-set, arith,
}
use ze_sense_server.Prelude.Result.{
  ok, read, Returns, Returns->>=, Returns-if, Returns-both, Returns-mono,
}
use ze_sense_server.Codes.{
  ze_numsensors, queue_req_ratio, sm_req_start, sm_req_stop, sm_req_oneshot,
}
use ze_sense_server.Encode.Writes.{Fits}
use ze_sense_server.ReqBuf.{Request, ReqBuf, get_request_buf_item}
use ze_sense_server.ResBuf.{Response}
use ze_sense_server.ResBuf.Fifo
use ze_sense_server.Encode.{Packet}
use ze_sense_server.Manager.{Sensor, Platform, Alloc, Effect, responses}
use ze_sense_server.Manager.Ledger.{responses-append}
use ze_sense_server.Manager.Sensors.Flags.{Works}
use ze_sense_server.Manager.Invariant.{IsValid}
use ze_sense_server.Manager.Helpers.{AdQueue, chain, Channels, get_request_helper}
use ze_sense_server.Manager.Helpers.Delivery.{Try, rounds, Ends}
use ze_sense_server.Manager.Helpers.Puts.{AllPut, put_responses-AllPut}
use ze_sense_server.Manager.Requests.{serve_sensor, serve_request}
use ze_sense_server.Manager.Requests.Books.{Allowed, Served}
use ze_sense_server.Manager.Requests.Served.{serve_sensor-Served}
use ze_sense_server.Manager.Loop.{Queues}
use ze_sense_server.Manager.Loop.Known.{
  AllValid, IsSafe, KnownKinds, less_room, read-IsValid, set-IsValid,
}
use ze_sense_server.Manager.Loop.Phase.{queue_phase-IsSafe}
use ze_sense_server.Manager.Thread.{Turn, Thread, turn, turns}

-- A request that the manager can serve: it is for a sensor that can be turned on, and that allows
-- it. A request of another type, such as that of an empty buffer, is served by doing nothing.
pub record Servable (p : Platform) (sensors : List Sensor) (req : Request) : Type 0 where
  pub known : req.sensor < ze_numsensors
  pub works : Works p req.sensor
  pub allowed : Returns (λ s. Allowed s req) (read sensors req.sensor)

abbrev pub served_types : Request → Bool
served_types req =
    req.rtype == sm_req_start || (req.rtype == sm_req_stop || req.rtype == sm_req_oneshot)

-- A turn that meets memory, floats that print within their space, events of known sensors, a
-- request that can be served, and puts that wait for room, and find some in the end.
pub record Meets (t : Turn) (s : Thread) : Type 0 where
  pub memory : (a : Alloc) → t.platform.malloc a ≡ true
  pub fits : Fits t.platform.print_e
  pub kinds : KnownKinds t.new
  pub request :
      let req = (get_request_buf_item s.channels.smreqbuf).0 in
      (served_types req ≡ false) ⊎ Servable t.platform s.queues.sensors req
  pub tries : ℕ → List Try
  pub puts : (k : ℕ) → t.puts k ≡ rounds (tries k)
  pub ends : (k : ℕ) → Ends (tries k)

-- Every turn before an exit meets what it needs.
abbrev pub AllMeet : List Turn → Thread → Type 0
AllMeet [] s = Unit
AllMeet (t ∷ ts) s = (t.globalexit ≡ true) ⊎ (Meets t s × Returns (λ s'. AllMeet ts s') (turn t s))

-- The thread's own queue stays NULL, and there is room for `n` more samples in every log.
pub record Safe (n : ℕ) (s : Thread) : Type 0 where
  pub empty : s.channels.adqueue ≡ chain []
  pub notbuf : Fifo.IsValid s.channels.notbuf
  pub queues : IsSafe n s.queues

-- The effects of some turns, whose responses are all in the response buffer, behind those pending
-- before and in their order, but for those that the server has taken out since.
pub record Sent (s s' : Thread) : Type 0 where
  pub new : List Effect
  pub effects : s'.queues.effects ≡ s.queues.effects ++ new
  pub taken : List (Response Packet)
  pub fifo :
      Fifo.pending s.channels.notbuf ++ responses new ≡ taken ++ Fifo.pending s'.channels.notbuf

Ready : List Sensor × List Effect → Type 0
Ready (sensors, effects) = AllValid 0 sensors × (length sensors ≡ ze_numsensors)

serve_request-Ready :
    (p : Platform) (sensors : List Sensor) (req : Request)
    → ((a : Alloc) → p.malloc a ≡ true)
    → Fits p.print_e
    → AllValid 0 sensors
    → length sensors ≡ ze_numsensors
    → (served_types req ≡ false) ⊎ Servable p sensors req
    → Returns Ready (serve_request p sensors req)
unfolding serve_request Ready
serve_request-Ready p sensors req memory fits v all h =
    Returns-if Ready (served_types req) _ _
      (λ served. elim h [
        | inl other ↦ absurd (cc)
        | inr k ↦
            let i = req.sensor in
            Returns->>= (λ s. IsValid i s × Allowed s req) Ready (read sensors i) _
              (Returns-both (IsValid i) (λ s. Allowed s req) (read sensors i)
                (read-IsValid sensors i v (omega (arith, all, k.known))) k.allowed)
              (λ s ps.
                Returns->>= (Served i s req) Ready (serve_sensor p i s req) _
                  (serve_sensor-Served p i s req ps.0
                    (record { memory = memory; fits = fits; works = k.works }) ps.1)
                  (λ d pd. (
                    set-IsValid sensors i d.sensor v pd.valid,
                    length-set sensors i d.sensor ∙ all,
                  )))
      ])
      (λ none. (v, all))

get_request_lem :
    (b : ReqBuf) (ad : AdQueue)
    → ad ≡ chain []
    → get_request_helper b ad
      ≡ ok ((get_request_buf_item b).0, (get_request_buf_item b).1, chain [])
unfolding get_request_helper
get_request_lem b ad e = rw e refl

-- A turn uses the room of its rounds.
pub turn-Safe :
    (t : Turn) (n : ℕ) (s : Thread)
    → Meets t s
    → Safe (queue_req_ratio + n) s
    → Returns (λ s'. Safe n s' × Sent s s') (turn t s)
unfolding turn Ready
turn-Safe t n s m h =
    let q = h.queues in
    let goal = λ (s' : Thread). Safe n s' × Sent s s' in
    rw (get_request_lem s.channels.smreqbuf s.channels.adqueue h.empty, fun_ext m.puts)
      (Returns->>= Ready goal _ _
        (serve_request-Ready t.platform s.queues.sensors _ m.memory m.fits q.valid q.all m.request)
        (λ (sensors, effects) (v, all).
          let q' : Queues = record (s.queues) { sensors = sensors; effects = effects } in
          Returns->>= (IsSafe n) goal _ _
            (queue_phase-IsSafe t.platform m.memory m.fits t.new n q' m.kinds (record {
              valid = v;
              all = all;
              samples = q.samples;
              carried = q.carried;
              room = q.room;
            }))
            (λ q'' safe.
              let c : Channels = record {
                notbuf = s.channels.notbuf;
                smreqbuf = (get_request_buf_item s.channels.smreqbuf).1;
                adqueue = chain [];
              } in
              Returns->>= (AllPut s.channels.notbuf (responses q''.effects)) goal _ _
                (put_responses-AllPut t.request_list m.tries t.taken 0 (responses q''.effects) c
                  h.notbuf refl m.ends)
                (λ c' put. (
                  record {
                    empty = put.empty;
                    notbuf = put.valid;
                    queues = record {
                      valid = safe.valid;
                      all = safe.all;
                      samples = safe.samples;
                      carried = safe.carried;
                      room = safe.room;
                    };
                  },
                  record { new = q''.effects; effects = refl; taken = put.taken; fifo = put.fifo },
                )))))

fewer : (m n : ℕ) (s : Thread) → Safe (m + n) s → Safe n s
fewer m n s h =
    let q = h.queues in
    record {
      empty = h.empty;
      notbuf = h.notbuf;
      queues = record {
        valid = q.valid;
        all = q.all;
        samples = q.samples;
        carried = q.carried;
        room = less_room (m + n) n s.queues (omega arith) q.room;
      };
    }

more_turns :
    (k n : ℕ) (s : Thread)
    → Safe (suc k * queue_req_ratio + n) s
    → Safe (queue_req_ratio + (k * queue_req_ratio + n)) s
more_turns k n s = subst (λ m. Safe m s) (omega arith)

none_sent : (s : Thread) → Sent s s
unfolding responses
none_sent s = record {
  new = [];
  effects = sym (append-nil s.queues.effects);
  taken = [];
  fifo = append-nil (Fifo.pending s.channels.notbuf);
}

Sent-trans : (s s' s'' : Thread) → Sent s s' → Sent s' s'' → Sent s s''
Sent-trans s s' s'' a b =
    let before = Fifo.pending s.channels.notbuf in
    record {
      new = a.new ++ b.new;
      effects =
          b.effects ∙ ap (λ l. l ++ b.new) a.effects ∙ append_assoc s.queues.effects a.new b.new;
      taken = a.taken ++ b.taken;
      fifo =
          ap (λ l. before ++ l) (responses-append a.new b.new)
          ∙ splice before (responses a.new) a.taken (Fifo.pending s'.channels.notbuf)
              (responses b.new) b.taken (Fifo.pending s''.channels.notbuf) a.fifo b.fifo;
    }

-- Every turn before an exit meets memory, events of known sensors, a request that can be served,
-- and puts of which each finds room in the end, however often its waits time out; and the logs have
-- room for the samples of all turns. Then the thread does not fault, every sensor stays valid, the
-- queue of the requests that are set aside stays empty, and every response of the turns is put into
-- the response buffer exactly once, in order.
pub turns-Safe :
    (ts : List Turn) (n : ℕ) (s : Thread)
    → AllMeet ts s
    → Safe (length ts * queue_req_ratio + n) s
    → Returns (λ s'. Safe n s' × Sent s s') (turns ts s)
unfolding turns
turns-Safe [] n s m h = (subst (λ k. Safe k s) (omega arith) h, none_sent s)
turns-Safe (t ∷ ts) n s m h =
    let goal = λ (s' : Thread). Safe n s' × Sent s s' in
    Returns-if goal t.globalexit _ _
      (λ leave. (fewer (length (t ∷ ts) * queue_req_ratio) n s h, none_sent s))
      (λ stay. elim m [
        | inl leave ↦ absurd (cc)
        | inr k ↦
            let room = length ts * queue_req_ratio + n in
            let one = λ (s' : Thread). Safe room s' × Sent s s' in
            Returns->>= (λ s'. AllMeet ts s' × one s') goal (turn t s) _
              (Returns-both (AllMeet ts) one (turn t s) k.1
                (turn-Safe t room s k.0 (more_turns (length ts) n s h)))
              (λ s' (meet, (safe, sent)).
                Returns-mono (λ s''. Safe n s'' × Sent s' s'') goal (turns ts s')
                  (turns-Safe ts n s' meet safe) (λ s'' p. (p.0, Sent-trans s s' s'' sent p.1)))
      ])
