-- ===== src/Encode/Reader.antt =====
-- The payload of a packet as its receiver reads it back.
use mathlib.Core.Path.{subst}
use mathlib.Core.List.{append_assoc}
use native.Mathlib.Nat.{div-eq_of_eq-mul_left}
use ze_sense_server.Prelude.{
  ℕ, zero, suc, ◌+◌, ◌-◌, ◌*◌, ◌/◌, ◌%◌, ◌^◌, ◌<◌, ◌≡◌, refl, ap, ◌∙◌, ◌==◌, ◌||◌, true,
  if◌then◌else◌, List, [], ◌∷◌, ◌++◌, length, map, replicate, Option, none, some, arith,
}
use ze_sense_server.Prelude.Result.{Returns}
use ze_sense_server.Codes.{charlen, datapoint, accelerometer, orientation, gyroscope}
use ze_sense_server.Event.{Event}
use ze_sense_server.Encode.{Packet, fields_of, vector_size, encode}
use ze_sense_server.Encode.Writes.{
  Fits, text_field, text_fields, length-text_field, length-text_fields, Sample, stamps, events_of,
}
use ze_sense_server.Encode.Layout.{
  samples_bytes, packet_bytes, total_length, encode_layout, fields_of_sized,
}

module _ {ℓ} {A : Type ℓ} where
  pub take : List A → ℕ → List A
  take xs zero = []
  take [] (suc n) = []
  take (x ∷ xs) (suc n) = x ∷ take xs n

  pub drop : List A → ℕ → List A
  drop xs zero = xs
  drop [] (suc n) = []
  drop (x ∷ xs) (suc n) = drop xs n

  take-append : (n : ℕ) (xs ys : List A) → length xs ≡ n → take (xs ++ ys) n ≡ xs
  unfolding take
  take-append zero [] ys e = refl
  take-append zero (x ∷ xs) ys e = absurd (omega arith)
  take-append (suc n) [] ys e = absurd (omega arith)
  take-append (suc n) (x ∷ xs) ys e = ap (λ l. x ∷ l) (take-append n xs ys (omega arith))

  drop-append : (n : ℕ) (xs ys : List A) → length xs ≡ n → drop (xs ++ ys) n ≡ ys
  unfolding drop
  drop-append zero [] ys e = refl
  drop-append zero (x ∷ xs) ys e = absurd (omega arith)
  drop-append (suc n) [] ys e = absurd (omega arith)
  drop-append (suc n) (x ∷ xs) ys e = drop-append n xs ys (omega arith)

-- A text up to its terminating zero.
pub until_zero : List ℕ → List ℕ
until_zero [] = []
until_zero (c ∷ cs) = if c == 0 then [] else c ∷ until_zero cs

pub read_fields : (n : ℕ) → List ℕ → List (List ℕ)
read_fields zero bytes = []
read_fields (suc n) bytes = until_zero (take bytes charlen) ∷ read_fields n (drop bytes charlen)

-- `n` samples of `fields` texts each.
pub read_samples : (fields n : ℕ) → List ℕ → List (ℕ × List (List ℕ))
read_samples fields zero bytes = []
read_samples fields (suc n) (b3 ∷ b2 ∷ b1 ∷ b0 ∷ bytes) =
    (((b3 * 256 + b2) * 256 + b1) * 256 + b0, read_fields fields bytes)
    ∷ read_samples fields n (drop bytes (fields * charlen))
read_samples fields (suc n) bytes = []

-- The texts of a sample, by its sensor.
abbrev pub fields_in : ℕ → ℕ
fields_in kind =
    if kind == accelerometer || (kind == orientation || kind == gyroscope) then 3 else 1

-- A data point: the sensor, and the timestamp and the texts of each sample.
pub read_packet : List ℕ → Option (ℕ × List (ℕ × List (List ℕ)))
read_packet (ptype ∷ kind ∷ l1 ∷ l0 ∷ bytes) =
    if ptype == datapoint
    then some (
      kind,
      read_samples (fields_in kind) ((l1 * 256 + l0 - 4) / (4 + fields_in kind * charlen)) bytes,
    )
    else none
read_packet bytes = none

abbrev pub IsText : List ℕ → Type 0
IsText [] = Unit
IsText (c ∷ cs) = (0 < c) × IsText cs

abbrev pub Stamped : List Sample → Type 0
Stamped [] = Unit
Stamped ((ts, e) ∷ ss) = (ts < 2 ^ 32) × Stamped ss

until_zero-text : (text : List ℕ) (k : ℕ) → IsText text → until_zero (text ++ replicate k 0) ≡ text
unfolding until_zero
until_zero-text [] zero h = refl
until_zero-text [] (suc k) h = refl
until_zero-text (c ∷ cs) k h = ground (arith, until_zero-text cs k h.1)

module _ (print_e : ℕ → List ℕ) (fits : Fits print_e) (texts : (v : ℕ) → IsText (print_e v)) where
  read_fields-text_fields :
      (vs rest : List ℕ) → read_fields (length vs) (text_fields print_e vs ++ rest) ≡ map print_e vs
  unfolding read_fields
  read_fields-text_fields [] rest = refl
  read_fields-text_fields (v ∷ vs) rest =
      let tf = text_field print_e v in
      let l = length-text_field print_e v fits in
      rw
        (
          append_assoc tf (text_fields print_e vs) rest,
          take-append charlen tf (text_fields print_e vs ++ rest) l,
          drop-append charlen tf (text_fields print_e vs ++ rest) l,
          until_zero-text (print_e v) (charlen - length (print_e v)) (texts v),
          read_fields-text_fields vs rest,
        )
        refl

  -- What is read of a sample.
  abbrev pub reading : (Event → List ℕ) → Sample → ℕ × List (List ℕ)
  reading fields (ts, e) = (ts, map print_e (fields e))

  abbrev pub readings : (Event → List ℕ) → List Sample → List (ℕ × List (List ℕ))
  readings fields [] = []
  readings fields (s ∷ ss) = reading fields s ∷ readings fields ss

  read_samples-samples_bytes :
      (fields : Event → List ℕ) (n : ℕ) (ss : List Sample)
      → ((e : Event) → length (fields e) ≡ n)
      → Stamped ss
      → read_samples n (length ss) (samples_bytes print_e fields ss) ≡ readings fields ss
  unfolding read_samples
  read_samples-samples_bytes fields n [] h st = refl
  read_samples-samples_bytes fields n ((ts, e) ∷ ss) h st =
      let tfs = text_fields print_e (fields e) in
      let more = samples_bytes print_e fields ss in
      let stamp : ((ts / 2 ^ 24 % 256 * 256 + ts / 2 ^ 16 % 256) * 256 + ts / 256 % 256) * 256
            + ts % 256
          ≡ ts =
        omega (arith, st.0) in
      let here : read_fields n (tfs ++ more) ≡ map print_e (fields e) =
        subst (λ m. read_fields m (tfs ++ more) ≡ map print_e (fields e)) (h e)
          (read_fields-text_fields (fields e) more) in
      let there : drop (tfs ++ more) (n * charlen) ≡ more =
        drop-append (n * charlen) tfs more
          (omega (arith, length-text_fields print_e (fields e) fits, h e)) in
      let rest : read_samples n (length ss) (drop (tfs ++ more) (n * charlen))
          ≡ readings fields ss =
        ap (read_samples n (length ss)) there ∙ read_samples-samples_bytes fields n ss h st.1 in
      rw (stamp, here, rest) refl

  kind_cases :
      (kind : ℕ) (fields : Event → List ℕ)
      → fields_of kind ≡ some fields
      → (kind < 256) × (vector_size kind ≡ fields_in kind * charlen)
  unfolding fields_of vector_size
  kind_cases kind fields h = ground (arith, h)

  read_packet-packet_bytes :
      (fields : Event → List ℕ) (kind : ℕ) (ss : List Sample)
      → fields_of kind ≡ some fields
      → Stamped ss
      → total_length kind (length ss) < 2 ^ 16
      → read_packet (packet_bytes print_e fields kind ss) ≡ some (kind, readings fields ss)
  unfolding read_packet
  read_packet-packet_bytes fields kind ss h st short =
      let k = kind_cases kind fields h in
      let f = fields_in kind in
      let total = total_length kind (length ss) in
      let bytes = samples_bytes print_e fields ss in
      let own : kind % 256 ≡ kind = omega (arith, k.0) in
      let len : total / 256 % 256 * 256 + total % 256 ≡ total = omega (arith, short) in
      let size : 4 + vector_size kind ≡ 4 + f * charlen = omega (arith, k.1) in
      let count : (total - 4) / (4 + f * charlen) ≡ length ss =
        div-eq_of_eq-mul_left (omega arith) (omega (arith, ap (λ t. length ss * t) size)) in
      let each = λ (e : Event).
        let z : length (fields e) ≡ f = omega (arith, fields_of_sized kind fields h e, k.1) in z in
      rw (len, own, count)
        (ap (λ l. some (kind, l)) (read_samples-samples_bytes fields f ss each st))

  -- A packet that can be read back, with what is read.
  abbrev pub Readable : ℕ → List (ℕ × List (List ℕ)) → Option Packet → Type 0
  Readable kind readings none = ⊥
  Readable kind readings (some pk) =
      (bytes : List ℕ) × (pk.payload ≡ some bytes) × (read_packet bytes ≡ some (kind, readings))

  -- For samples of a sensor with a payload format, floats that print as texts within their space,
  -- timestamps of 32 bits and a packet below 2 ^ 16 bytes, the receiver reads back out of the
  -- payload of the packet the sensor, and in order the timestamp and the printed floats of every
  -- sample.
  pub encode_roundtrip :
      (ts : ℕ) (e : Event) (ss : List Sample) (fields : Event → List ℕ)
      → fields_of e.kind ≡ some fields
      → Stamped ((ts, e) ∷ ss)
      → total_length e.kind (suc (length ss)) < 2 ^ 16
      → let samples = (ts, e) ∷ ss in
        Returns
          (Readable e.kind (readings fields samples))
          (encode print_e true true (events_of samples) (stamps samples) (length samples))
  encode_roundtrip ts e ss fields h st short =
      rw (encode_layout print_e ts e ss fields fits h)
        (_, refl, read_packet-packet_bytes fields e.kind ((ts, e) ∷ ss) h st short)
