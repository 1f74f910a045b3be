-- ===== src/Manager/Ledger.antt =====
-- The books of a ticket: how often it is held by a stream or a oneshot of a sensor, and how often
-- it occurs in the responses of one type.
use ze_sense_server.Codes.{con, non, stream_stopped, stream_update}
use mathlib.Core.Option.{Option, some}
use ze_sense_server.Prelude.{
  ◌⊎◌, ℕ, ◌+◌, ◌≤◌, ◌≡◌, refl, ap, ◌==◌, ◌&&◌, inl, inr, Bool, Option-cases, if◌then◌else◌, List,
  [], ◌∷◌, ◌++◌, arith,
}
use ze_sense_server.ReqBuf.{Request}
use ze_sense_server.ResBuf.{Response}
use ze_sense_server.Encode.{Packet}
use ze_sense_server.Manager.{
  Stream, Effect, responses, respond, enable_sensor, set_event_rate, disable_sensor, gps_start,
  gps_change, gps_stop, start_carrier,
}
use ze_sense_server.Manager.Streams.{find_stream}
use ze_sense_server.Manager.Streams.Lists.{remove}

-- A packet, with one of the two deliveries.
abbrev pub Deliverable : Option Packet → Type 0
Deliverable pk = (p : Packet) × (pk ≡ some p) × ((p.conf ≡ con) ⊎ (p.conf ≡ non))

unit_if : Bool → ℕ
unit_if b = if b then 1 else 0

-- Streams that hold the ticket.
unfoldable pub held : List Stream → ℕ → ℕ
unfolding unit_if
held [] reg = 0
held (t ∷ ts) reg = unit_if (t.reg == reg) + held ts reg

-- Oneshots that hold the ticket.
unfoldable pub pending : List ℕ → ℕ → ℕ
unfolding unit_if
pending [] reg = 0
pending (one ∷ ones) reg = unit_if (one == reg) + pending ones reg

-- Responses of the type for the ticket.
unfoldable pub answered : ℕ → List (Response Packet) → ℕ → ℕ
unfolding unit_if
answered rtype [] reg = 0
answered rtype (r ∷ rs) reg = unit_if (r.rtype == rtype && r.ticket == reg) + answered rtype rs reg

-- Whether the request is one of the type for the ticket.
unfoldable pub requested : ℕ → Request → ℕ → ℕ
unfolding unit_if
requested rtype req reg = unit_if (req.rtype == rtype && req.ticket == reg)

pub responses-append : (xs ys : List Effect) → responses (xs ++ ys) ≡ responses xs ++ responses ys
unfolding responses
responses-append [] ys = refl
responses-append (respond r ∷ xs) ys = ap (λ l. r ∷ l) (responses-append xs ys)
responses-append (enable_sensor h ∷ xs) ys = responses-append xs ys
responses-append (set_event_rate h us ∷ xs) ys = responses-append xs ys
responses-append (disable_sensor h ∷ xs) ys = responses-append xs ys
responses-append (gps_start ∷ xs) ys = responses-append xs ys
responses-append (gps_change ∷ xs) ys = responses-append xs ys
responses-append (gps_stop ∷ xs) ys = responses-append xs ys
responses-append (start_carrier i ∷ xs) ys = responses-append xs ys

pub answered-append :
    (rtype : ℕ) (xs ys : List (Response Packet)) (reg : ℕ)
    → answered rtype (xs ++ ys) reg ≡ answered rtype xs reg + answered rtype ys reg
unfolding answered
answered-append rtype [] ys reg = omega arith
answered-append rtype (x ∷ xs) ys reg = omega (arith, answered-append rtype xs ys reg)

pub held-append :
    (l : List Stream) (t : Stream) (reg : ℕ)
    → held (l ++ t ∷ []) reg ≡ held l reg + held (t ∷ []) reg
unfolding held
held-append [] t reg = omega arith
held-append (x ∷ xs) t reg = omega (arith, held-append xs t reg)

pub pending-append :
    (l : List ℕ) (one reg : ℕ)
    → pending (l ++ one ∷ []) reg ≡ pending l reg + pending (one ∷ []) reg
unfolding pending
pending-append [] one reg = omega arith
pending-append (x ∷ xs) one reg = omega (arith, pending-append xs one reg)

-- Removing the stream of a ticket that is found takes one from the ticket's own count.
pub held-remove :
    (l : List Stream) (reg i other : ℕ)
    → find_stream l reg ≡ some i
    → held (remove reg l) other + (if reg == other then 1 else 0) ≡ held l other
unfolding held remove find_stream unit_if
held-remove [] reg i other h = cc
held-remove (t ∷ ts) reg i other h = elim (Option-cases (find_stream ts reg)) [
  | inl gone ↦ ground arith
  | inr (j, e) ↦ ground (arith, held-remove ts reg j other e)
]

pub held_one : (t : Stream) (reg : ℕ) → held (t ∷ []) reg ≡ (if t.reg == reg then 1 else 0)
unfolding held unit_if
held_one t reg = ground arith

-- The references that one response needs for a ticket, where `later` are to be there afterwards: a
-- STREAM_STOPPED gives one up, and an update follows one.
abbrev pub owed_one : Response Packet → (later ticket : ℕ) → ℕ
owed_one r later ticket =
    if r.ticket == ticket
    then (if r.rtype == stream_stopped
        then later + 1
        else if r.rtype == stream_update && later == 0
        then 1
        else later)
    else later

-- The same for the responses in their order.
unfoldable pub owed : List (Response Packet) → (later ticket : ℕ) → ℕ
owed [] later ticket = later
owed (r ∷ rs) later ticket = owed_one r (owed rs later ticket) ticket

pub owed-append :
    (xs ys : List (Response Packet)) (later t : ℕ)
    → owed (xs ++ ys) later t ≡ owed xs (owed ys later t) t
unfolding owed
owed-append [] ys later t = refl
owed-append (x ∷ xs) ys later t = ap (λ n. owed_one x n t) (owed-append xs ys later t)

-- At least what is left, and what is given up.
pub owed_least :
    (rs : List (Response Packet)) (later t : ℕ)
    → later + answered stream_stopped rs t ≤ owed rs later t
unfolding owed answered unit_if
owed_least [] later t = omega arith
owed_least (r ∷ rs) later t = ground (arith, owed_least rs later t)

pub owed_mono : (rs : List (Response Packet)) (m n t : ℕ) → m ≤ n → owed rs m t ≤ owed rs n t
unfolding owed
owed_mono [] m n t h = h
owed_mono (r ∷ rs) m n t h = ground (arith, owed_mono rs m n t h)

-- Exactly that where no update is among them.
pub owed_no_update :
    (rs : List (Response Packet)) (later t : ℕ)
    → answered stream_update rs t ≡ 0
    → owed rs later t ≡ later + answered stream_stopped rs t
unfolding owed answered unit_if
owed_no_update [] later t h = omega arith
owed_no_update (r ∷ rs) later t h = ground (arith, owed_no_update rs later t)
