-- ===== src/Encode/Writes.antt =====
-- The single writes of `encode`: bytes and printed floats into a buffer whose rest is zero.
use mathlib.Core.List.{append_assoc, append-nil}
use ze_sense_server.Prelude.{
  ℕ, zero, suc, ◌+◌, ◌-◌, ◌*◌, ◌<◌, ◌≡◌, refl, ap, ◌∙◌, List, [], ◌∷◌, ◌++◌, length, length-append,
  length-replicate, replicate, arith,
}
use ze_sense_server.Prelude.Result.{ok, read}
use ze_sense_server.Codes.{charlen}
use ze_sense_server.Event.{Event}
use ze_sense_server.Encode.{overwrite, write_at, write_fields}

abbrev pub zeros : ℕ → List ℕ
zeros n = replicate n 0

pub zeros_eq : {m n : ℕ} → m ≡ n → zeros m ≡ zeros n
zeros_eq e = ap zeros e

pub zeros-add : (m n : ℕ) → zeros m ++ zeros n ≡ zeros (m + n)
zeros-add zero n = zeros_eq (omega arith)
zeros-add (suc m) n = ap (λ l. 0 ∷ l) (zeros-add m n) ∙ zeros_eq {m = suc (m + n)} (omega arith)

pub overwrite-zeros :
    (bytes : List ℕ) (m n : ℕ)
    → m ≡ length bytes + n
    → overwrite (zeros m) bytes ≡ ok (bytes ++ zeros n)
unfolding overwrite
overwrite-zeros [] m n e = ap ok (zeros_eq (omega arith))
overwrite-zeros (x ∷ xs) zero n e = absurd (omega arith)
overwrite-zeros (x ∷ xs) (suc m) n e = rw (overwrite-zeros xs m n (omega arith))

-- A write behind `xs` into a buffer whose rest is still zero.
pub write_at-zeros :
    (xs bytes : List ℕ) (i m n : ℕ)
    → i ≡ length xs
    → m ≡ length bytes + n
    → write_at (xs ++ zeros m) i bytes ≡ ok ((xs ++ bytes) ++ zeros n)
unfolding write_at
write_at-zeros [] bytes zero m n h e = overwrite-zeros bytes m n e
write_at-zeros [] bytes (suc i) m n h e = absurd (omega arith)
write_at-zeros (x ∷ xs) bytes zero m n h e = absurd (omega arith)
write_at-zeros (x ∷ xs) bytes (suc i) m n h e = rw (write_at-zeros xs bytes i m n (omega arith) e)

module _ (print_e : ℕ → List ℕ) where
  -- A printed float with zeros up to the space that it has.
  abbrev pub text_field : ℕ → List ℕ
  text_field v = print_e v ++ replicate (charlen - length (print_e v)) 0

  -- Every float prints in less than its space, so there is room for the terminating zero.
  abbrev pub Fits : Type 0
  Fits = (v : ℕ) → length (print_e v) < charlen

  abbrev pub text_fields : List ℕ → List ℕ
  text_fields [] = []
  text_fields (v ∷ vs) = text_field v ++ text_fields vs

  pub length-text_field : (v : ℕ) → Fits → length (text_field v) ≡ charlen
  length-text_field v fits = omega (
    arith,
    length-append (print_e v) (replicate (charlen - length (print_e v)) 0),
    length-replicate {0} (charlen - length (print_e v)) zero,
    fits v,
  )

  pub length-text_fields : (vs : List ℕ) → Fits → length (text_fields vs) ≡ length vs * charlen
  length-text_fields [] fits = omega arith
  length-text_fields (v ∷ vs) fits = omega (
    arith,
    length-append (text_field v) (text_fields vs),
    length-text_field v fits,
    length-text_fields vs fits,
  )

  -- The zeros that follow a printed float are those of its field and those of the rest.
  pub text_field-zeros :
      (xs : List ℕ) (v k n : ℕ)
      → k ≡ charlen - length (print_e v) - 1 + n
      → Fits
      → (xs ++ (print_e v ++ 0 ∷ [])) ++ zeros k ≡ (xs ++ text_field v) ++ zeros n
  text_field-zeros xs v k n e fits =
      let rest = charlen - length (print_e v) - 1 in
      let q : zeros (charlen - length (print_e v)) ≡ 0 ∷ zeros rest =
        zeros_eq {n = suc rest} (omega (arith, fits v)) in
      rw (q, e, ← zeros-add rest n) (simp append_assoc)

  pub write_field :
      (xs : List ℕ) (v i m n : ℕ)
      → i ≡ length xs
      → m ≡ charlen + n
      → Fits
      → write_at (xs ++ zeros m) i (print_e v ++ 0 ∷ []) ≡ ok ((xs ++ text_field v) ++ zeros n)
  write_field xs v i m n h e fits =
      write_at-zeros xs (print_e v ++ 0 ∷ []) i m (charlen - length (print_e v) - 1 + n) h
        (omega (arith, length-append (print_e v) (0 ∷ []), fits v))
      ∙ ap ok (text_field-zeros xs v _ n refl fits)

  pub write_fields-zeros :
      (vs xs : List ℕ) (i m n : ℕ)
      → i ≡ length xs
      → m ≡ length vs * charlen + n
      → Fits
      → write_fields print_e (xs ++ zeros m) i vs ≡ ok ((xs ++ text_fields vs) ++ zeros n)
  unfolding write_fields
  write_fields-zeros [] xs i m n h e fits =
      rw (append-nil xs) (ap (λ l. ok (xs ++ l)) (zeros_eq (omega arith)))
  write_fields-zeros (v ∷ vs) xs i m n h e fits =
      rw
        (
          write_field xs v i m (length vs * charlen + n) h (omega arith) fits,
          write_fields-zeros vs (xs ++ text_field v) (i + charlen) (length vs * charlen + n) n
              (omega (arith, length-append xs (text_field v), length-text_field v fits)) refl fits,
        )
        (ap (λ l. ok (l ++ zeros n)) (append_assoc xs _ _))

-- Samples with their timestamps, as the two arrays that `encode` is given.
abbrev pub Sample : Type 0
Sample = ℕ × Event

abbrev pub stamps : List Sample → List ℕ
stamps [] = []
stamps ((ts, e) ∷ ss) = ts ∷ stamps ss

abbrev pub events_of : List Sample → List Event
events_of [] = []
events_of ((ts, e) ∷ ss) = e ∷ events_of ss

pub read-stamps :
    (xs ss : List Sample) (ts : ℕ) (e : Event) (k : ℕ)
    → k ≡ length xs
    → read (stamps (xs ++ (ts, e) ∷ ss)) k ≡ ok ts
read-stamps [] ss ts e zero h = refl
read-stamps [] ss ts e (suc k) h = absurd (omega arith)
read-stamps ((u, f) ∷ xs) ss ts e zero h = absurd (omega arith)
read-stamps ((u, f) ∷ xs) ss ts e (suc k) h = read-stamps xs ss ts e k (omega arith)

pub read-events_of :
    (xs ss : List Sample) (ts : ℕ) (e : Event) (k : ℕ)
    → k ≡ length xs
    → read (events_of (xs ++ (ts, e) ∷ ss)) k ≡ ok e
read-events_of [] ss ts e zero h = refl
read-events_of [] ss ts e (suc k) h = absurd (omega arith)
read-events_of ((u, f) ∷ xs) ss ts e zero h = absurd (omega arith)
read-events_of ((u, f) ∷ xs) ss ts e (suc k) h = read-events_of xs ss ts e k (omega arith)
