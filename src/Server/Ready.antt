-- ===== src/Server/Ready.antt =====
-- Runs of responses, those that are ready, and the references of the registrations.
use ze_sense_server.Prelude.{
  ℕ, ◌+◌, ◌≤◌, ◌<◌, ◌≡◌, ◌==◌, refl, leb, if◌then◌else◌, Bool-cases, inl, inr, ◌⊎◌, true, List, [],
  ◌∷◌, ◌++◌, arith,
}
use ze_sense_server.Prelude.Result.{Result, ok, ◌>>=◌, Returns}
use ze_sense_server.Codes.{stream_stopped, stream_update, oneshot, invalid_response}
use ze_sense_server.Encode.{Packet}
use ze_sense_server.ResBuf.{Response}
use ze_sense_server.Manager.Ledger.{Deliverable}
use ze_sense_server.Server.State.{
  Registration, Call, Libcoap, Server, find_registration, set_registration, release,
  notify_confirmed, test_send, registration_release, send_confirmed, send, pdu_clear, remove_async,
}
use ze_sense_server.Server.{serve_response}
use ze_sense_server.Server.Notify.{IsPaced, released}

-- The responses served in turn, each with what libcoap and the clock answer at that time.
unfoldable pub serve_responses :
    List (Libcoap × Response Packet) → Server → Result (Server × List Call)
serve_responses [] sv = ok (sv, [])
serve_responses ((c, r) ∷ rs) sv = do
  (sv', calls) ← serve_response c sv r
  (sv'', rest) ← serve_responses rs sv'
  ok (sv'', calls ++ rest)

abbrev pub AllPaced : ℕ → List (ℕ × Registration) → Type 0
AllPaced limit [] = Unit
AllPaced limit ((t, reg) ∷ rs) = IsPaced limit reg × AllPaced limit rs

-- The references of the registration under a ticket.
unfoldable pub refs_of : List (ℕ × Registration) → ℕ → ℕ
refs_of [] ticket = 0
refs_of ((t, reg) ∷ rs) ticket = if t == ticket then reg.refs else refs_of rs ticket

-- The registrations have the references that the numbers ask for.
abbrev pub Covers : (ℕ → ℕ) → List (ℕ × Registration) → Type 0
Covers needed regs = (t : ℕ) → needed t ≤ refs_of regs t

-- A response that the Streaming Manager may send, while memory is at hand.
pub record Ready (limit : ℕ) (c : Libcoap) (r : Response Packet) : Type 0 where
  pub limited : c.obs_max_non ≡ limit
  pub payload_memory : c.payload_allocated ≡ true
  pub data_memory : c.data_allocated ≡ true
  pub cases :
      (r.rtype ≡ stream_stopped)
      ⊎ ((r.rtype ≡ oneshot) × Deliverable r.pk)
      ⊎ ((r.rtype ≡ stream_update) × Deliverable r.pk)
      ⊎ (r.rtype ≡ invalid_response)

abbrev pub AllReady : ℕ → List (Libcoap × Response Packet) → Type 0
AllReady limit [] = Unit
AllReady limit ((c, r) ∷ rs) = Ready limit c r × AllReady limit rs

-- A registration that is written back with no fewer references.
pub refs_of-set_registration :
    (rs : List (ℕ × Registration)) (t u : ℕ) (reg : Registration)
    → refs_of rs t ≤ reg.refs
    → refs_of rs u ≤ refs_of (set_registration rs t reg) u
unfolding refs_of set_registration
refs_of-set_registration [] t u reg h = omega arith
refs_of-set_registration ((v, old) ∷ rs) t u reg h =
    ground (arith, refs_of-set_registration rs t u reg)

pub refs_of-release :
    (rs : List (ℕ × Registration)) (t u : ℕ)
    → refs_of rs u ≤ refs_of (release rs t) u + (if t == u then 1 else 0)
unfolding refs_of release
refs_of-release [] t u = omega arith
refs_of-release ((v, old) ∷ rs) t u = ground (arith, refs_of-release rs t u)

pub release-AllPaced :
    (limit : ℕ) (rs : List (ℕ × Registration)) (t : ℕ)
    → AllPaced limit rs
    → AllPaced limit (release rs t)
unfolding release
release-AllPaced limit [] t h = tt
release-AllPaced limit ((v, old) ∷ rs) t (h, hs) = elim (Bool-cases (v == t)) [
  | inl here ↦ rw here (elim (Bool-cases (leb old.refs 1)) [
    | inl last ↦ rw last hs
    | inr more ↦
        rw more
          (record { unconfirmed = h.unconfirmed; reported = h.reported; recent = h.recent }, hs)
  ])
  | inr other ↦ rw other (h, release-AllPaced limit rs t hs)
]

pub set_registration-AllPaced :
    (limit : ℕ) (rs : List (ℕ × Registration)) (t : ℕ) (reg : Registration)
    → AllPaced limit rs
    → IsPaced limit reg
    → AllPaced limit (set_registration rs t reg)
unfolding set_registration
set_registration-AllPaced limit [] t reg h k = tt
set_registration-AllPaced limit ((v, old) ∷ rs) t reg h k =
    ground (arith, set_registration-AllPaced limit rs t reg h.1 k)

-- A registration that a reference keeps is found.
pub find_registration-IsPaced :
    (limit : ℕ) (rs : List (ℕ × Registration)) (t : ℕ)
    → AllPaced limit rs
    → 0 < refs_of rs t
    → Returns (λ reg. IsPaced limit reg × (reg.refs ≡ refs_of rs t)) (find_registration rs t)
unfolding find_registration refs_of
find_registration-IsPaced limit [] t h k = absurd (omega arith)
find_registration-IsPaced limit ((v, old) ∷ rs) t (h, hs) k = elim (Bool-cases (v == t)) [
  | inl here ↦ rw here (h, refl)
  | inr other ↦ rw other (find_registration-IsPaced limit rs t hs (ground arith))
]

pub released-append :
    (xs ys : List Call) (t : ℕ) → released (xs ++ ys) t ≡ released xs t + released ys t
unfolding released
released-append [] ys t = omega arith
released-append (registration_release _ _ ∷ xs) ys t = omega (arith, released-append xs ys t)
released-append (notify_confirmed _ _ _ ∷ xs) ys t = released-append xs ys t
released-append (send_confirmed _ _ ∷ xs) ys t = released-append xs ys t
released-append (send _ _ ∷ xs) ys t = released-append xs ys t
released-append (pdu_clear ∷ xs) ys t = released-append xs ys t
released-append (remove_async _ ∷ xs) ys t = released-append xs ys t
released-append (test_send _ _ ∷ xs) ys t = released-append xs ys t
