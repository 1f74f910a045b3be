-- ===== src/Manager/Requests/Books.antt =====
-- What serving a request has to leave, and the counts of the responses and of the streams.
use ze_sense_server.Prelude.{
  ℕ, ◌+◌, ◌<◌, ◌≡◌, ◌≢◌, refl, ◌==◌, ◌⊎◌, true, if◌then◌else◌, List, [], ◌∷◌, ◌++◌, none, some,
  arith,
}
use ze_sense_server.Prelude.Result.{ok}
use ze_sense_server.Codes.{
  sm_req_start, sm_req_stop, sm_req_oneshot, stream_stopped, stream_update, oneshot, sm_error,
}
use ze_sense_server.Event.{Event}
use ze_sense_server.Encode.{Packet}
use ze_sense_server.Encode.Writes.{Fits}
use ze_sense_server.Encode.Layout.{encode_one}
use ze_sense_server.ReqBuf.{Request}
use ze_sense_server.Manager.{
  Stream, Sensor, Platform, Done, Alloc, Effect, responses, a_packet, a_payload,
}
use ze_sense_server.Manager.Ledger.{
  held, pending, answered, requested, responses-append, held-append, held-remove, held_one,
}
use ze_sense_server.Manager.Sensors.Flags.{Works}
use ze_sense_server.Manager.Streams.{find_stream}
use ze_sense_server.Manager.Streams.Lists.{remove, remove_absent}
use ze_sense_server.Manager.Invariant.{IsValid}
use ze_sense_server.Manager.Requests.{answer, oneshot_packet}

-- Memory is at hand, a float prints within its space, and the sensor can be turned on.
pub record Able (p : Platform) (sensor : ℕ) : Type 0 where
  pub memory : (a : Alloc) → p.malloc a ≡ true
  pub fits : Fits p.print_e
  pub works : Works p sensor

-- The request is one that the manager can serve: a start has a frequency, and a stop does not take
-- the last stream away from a pending oneshot.
abbrev pub Allowed : Sensor → Request → Type 0
Allowed s req =
    (req.rtype ≡ sm_req_start → 0 < req.freq)
    × (req.rtype ≡ sm_req_stop → (remove req.ticket s.streams ≢ []) ⊎ (s.oneshots ≡ []))

-- What goes in and out of the books of a ticket, for streams and for oneshots.
pub record Balanced (s : Sensor) (req : Request) (d : Done (Unit {0})) (reg : ℕ) : Type 0 where
  pub streams :
      held d.sensor.streams reg + answered stream_stopped (responses d.effects) reg
      ≡ held s.streams reg + requested sm_req_start req reg
  pub oneshots :
      pending d.sensor.oneshots reg + answered oneshot (responses d.effects) reg
      ≡ pending s.oneshots reg + requested sm_req_oneshot req reg
  pub updates : answered stream_update (responses d.effects) reg ≡ 0

pub record Served (sensor : ℕ) (s : Sensor) (req : Request) (d : Done (Unit {0})) : Type 0 where
  pub valid : IsValid sensor d.sensor
  pub balanced : (reg : ℕ) → Balanced s req d reg

-- A response without a packet, behind effects that hold no response, is the only one.
pub answered_stopped :
    (effects : List Effect) (ticket rtype reg : ℕ)
    → responses effects ≡ []
    → answered rtype (responses (effects ++ answer stream_stopped ticket none ∷ [])) reg
      ≡ (if stream_stopped == rtype then (if ticket == reg then 1 else 0) else 0)
unfolding answered responses
answered_stopped effects ticket rtype reg q =
    ground (arith, responses-append effects (answer stream_stopped ticket none ∷ []))

pub answered_none :
    (effects : List Effect) (rtype reg : ℕ)
    → responses effects ≡ []
    → answered rtype (responses effects) reg ≡ 0
unfolding answered
answered_none effects rtype reg q = rw q refl

pub requested_same :
    (rtype : ℕ) (req : Request) (reg : ℕ)
    → req.rtype ≡ rtype
    → requested rtype req reg ≡ (if req.ticket == reg then 1 else 0)
unfolding requested
requested_same rtype req reg e = ground arith

pub requested_other :
    (rtype : ℕ) (req : Request) (reg : ℕ) → req.rtype ≢ rtype → requested rtype req reg ≡ 0
unfolding requested
requested_other rtype req reg e = ground arith

pub held_fresh :
    (l : List Stream) (t : Stream) (ticket reg : ℕ)
    → find_stream l ticket ≡ none
    → t.reg ≡ ticket
    → held (remove ticket l ++ t ∷ []) reg ≡ held l reg + (if ticket == reg then 1 else 0)
held_fresh l t ticket reg h e =
    ground (arith, remove_absent l ticket h, held-append (remove ticket l) t reg, held_one t reg)

pub held_replaced :
    (l : List Stream) (t : Stream) (ticket reg i : ℕ)
    → find_stream l ticket ≡ some i
    → t.reg ≡ ticket
    → held (remove ticket l ++ t ∷ []) reg ≡ held l reg
held_replaced l t ticket reg i h e =
    ground
      (arith, held-remove l ticket i reg h, held-append (remove ticket l) t reg, held_one t reg)

module _ (p : Platform) where
  -- With memory at hand the packet is made, with its reliability.
  pub oneshot_packet-ok :
      (event : Event) (conf : ℕ)
      → ((x : Alloc) → p.malloc x ≡ true)
      → Fits p.print_e
      → (pk : Packet) × (oneshot_packet p event conf ≡ ok pk)
        × (pk.ntpts ≡ event.timestamp)
        × (pk.rtpts ≡ 0)
        × (pk.conf ≡ conf)
  unfolding oneshot_packet
  oneshot_packet-ok event conf memory fits =
      let (pk, e, n, r) = encode_one p.print_e event 0 fits in
      (record pk { conf = conf }, rw (memory a_packet, memory a_payload, e) refl, n, r, refl)

pub quiet_nil : responses [] ≡ []
unfolding responses
quiet_nil = refl

abbrev pub stop_done : Done ℕ → ℕ → Done (Unit {0})
stop_done d ticket = record {
  sensor = d.sensor;
  effects =
      if d.result == sm_error
      then d.effects
      else d.effects ++ answer stream_stopped ticket none ∷ [];
  result = tt;
}
