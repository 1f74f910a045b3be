-- ===== src/Manager/Streams/Lists.antt =====
-- What the list operations of the stream helpers do to the streams of a sensor, seen as a
-- dictionary from tickets.
use mathlib.Core.List.{append_assoc}
use ze_sense_server.Prelude.{
  ℕ, ◌+◌, ◌≡◌, refl, ◌==◌, inl, inr, false, Bool-cases, Option-cases, if◌then◌else◌, List, [], ◌∷◌,
  ◌++◌, length, length-append, Option, none, some, arith,
}
use ze_sense_server.Prelude.Utlist.{Utlist}
use ze_sense_server.Manager.{Stream}
use ze_sense_server.Manager.Streams.{find_stream}

-- The stream that holds a ticket, and the list without it.
unfoldable pub lookup : List Stream → ℕ → Option Stream
lookup [] reg = none
lookup (t ∷ ts) reg = if t.reg == reg then some t else lookup ts reg

unfoldable pub remove : ℕ → List Stream → List Stream
remove reg [] = []
remove reg (t ∷ ts) = if t.reg == reg then ts else t ∷ remove reg ts

-- No two streams hold the same ticket.
abbrev pub Distinct : List Stream → Type 0
Distinct [] = Unit
Distinct (t ∷ ts) = (find_stream ts t.reg ≡ none) × Distinct ts

abbrev pub All {ℓ} : (Stream → Type ℓ) → List Stream → Type ℓ
All P [] = Unit
All P (t ∷ ts) = P t × All P ts

pub find_stream-lookup :
    (l : List Stream) (reg : ℕ) → find_stream l reg ≡ none → lookup l reg ≡ none
unfolding find_stream lookup
find_stream-lookup [] reg h = refl
find_stream-lookup (t ∷ ts) reg h = ground (arith, find_stream-lookup ts reg)

pub remove_absent : (l : List Stream) (reg : ℕ) → find_stream l reg ≡ none → remove reg l ≡ l
unfolding find_stream remove
remove_absent [] reg h = refl
remove_absent (t ∷ ts) reg h = ground (arith, remove_absent ts reg)

delete_from :
    (u : Utlist Stream) (reg : ℕ) (l xs : List Stream) (i k : ℕ)
    → find_stream l reg ≡ some i
    → k ≡ length xs + i
    → u.ll_delete (xs ++ l) k ≡ xs ++ remove reg l
unfolding find_stream remove
delete_from u reg [] xs i k h p = cc
delete_from u reg (t ∷ ts) xs i k h p = elim (Option-cases (find_stream ts reg)) [
  | inl gone ↦ ground (arith, u.delete_lem xs ts t)
  | inr (j, e) ↦ ground (
    arith,
    u.delete_lem xs ts t,
    delete_from u reg ts (xs ++ t ∷ []) j k e,
    append_assoc xs (t ∷ []) ts,
    append_assoc xs (t ∷ []) (remove reg ts),
    length-append xs (t ∷ []),
  )
]

-- Deleting what the search has found removes the stream with that ticket.
pub ll_delete-remove :
    (u : Utlist Stream) (reg : ℕ) (l : List Stream) (i : ℕ)
    → find_stream l reg ≡ some i
    → u.ll_delete l i ≡ remove reg l
ll_delete-remove u reg l i h = delete_from u reg l [] i i h (omega arith)

pub find_stream-append :
    (l : List Stream) (t : Stream) (reg : ℕ)
    → find_stream l reg ≡ none
    → (t.reg == reg) ≡ false
    → find_stream (l ++ t ∷ []) reg ≡ none
unfolding find_stream
find_stream-append [] t reg h e = ground arith
find_stream-append (x ∷ xs) t reg h e = ground (arith, find_stream-append xs t reg)

pub find_stream-remove :
    (l : List Stream) (reg other : ℕ)
    → find_stream l other ≡ none
    → find_stream (remove reg l) other ≡ none
unfolding find_stream remove
find_stream-remove [] reg other h = refl
find_stream-remove (x ∷ xs) reg other h = ground (arith, find_stream-remove xs reg other)

pub find_stream-remove_self :
    (l : List Stream) (reg : ℕ) → Distinct l → find_stream (remove reg l) reg ≡ none
unfolding find_stream remove
find_stream-remove_self [] reg d = refl
find_stream-remove_self (x ∷ xs) reg d = ground (arith, find_stream-remove_self xs reg d.1)

pub remove-Distinct : (l : List Stream) (reg : ℕ) → Distinct l → Distinct (remove reg l)
unfolding remove
remove-Distinct [] reg d = tt
remove-Distinct (x ∷ xs) reg d =
    ground (arith, remove-Distinct xs reg d.1, find_stream-remove xs reg x.reg d.0)

pub append-Distinct :
    (l : List Stream) (t : Stream)
    → Distinct l
    → find_stream l t.reg ≡ none
    → Distinct (l ++ t ∷ [])
unfolding find_stream
append-Distinct [] t d h = (refl, tt)
append-Distinct (x ∷ xs) t d h =
    ground (arith, append-Distinct xs t d.1, find_stream-append xs t x.reg d.0)

pub lookup-append :
    (l : List Stream) (t : Stream) (reg : ℕ)
    → find_stream l t.reg ≡ none
    → lookup (l ++ t ∷ []) reg ≡ (if t.reg == reg then some t else lookup l reg)
unfolding lookup find_stream
lookup-append [] t reg h = refl
lookup-append (x ∷ xs) t reg h = ground (arith, lookup-append xs t reg)

pub lookup-remove :
    (l : List Stream) (reg other : ℕ)
    → Distinct l
    → lookup (remove reg l) other ≡ (if reg == other then none else lookup l other)
unfolding lookup remove
lookup-remove [] reg other d = ground arith
lookup-remove (x ∷ xs) reg other d =
    ground (arith, lookup-remove xs reg other d.1, find_stream-lookup xs x.reg d.0)

pub All-remove {ℓ} :
    (P : Stream → Type ℓ) (l : List Stream) (reg : ℕ) → All P l → All P (remove reg l)
unfolding remove
All-remove P [] reg h = h
All-remove P (x ∷ xs) reg h = elim (Bool-cases (x.reg == reg)) [
  | inl hit ↦ rw hit h.1
  | inr miss ↦ rw miss (h.0, All-remove P xs reg h.1)
]

pub All-append {ℓ} :
    (P : Stream → Type ℓ) (l : List Stream) (t : Stream) → All P l → P t → All P (l ++ t ∷ [])
All-append P [] t h q = (q, h)
All-append P (x ∷ xs) t h q = (h.0, All-append P xs t h.1 q)

pub All-map {ℓ κ} :
    (P : Stream → Type ℓ) (Q : Stream → Type κ) (l : List Stream)
    → ((t : Stream) → P t → Q t)
    → All P l
    → All Q l
All-map P Q [] f h = tt
All-map P Q (x ∷ xs) f h = (f x h.0, All-map P Q xs f h.1)
