-- ===== src/Encode/Layout.antt =====
-- The bytes that `encode` produces, for any number of samples.
use mathlib.Core.List.{append_assoc}
use mathlib.Core.Option.{some-injective}
use mathlib.Core.Path.{subst}
use ze_sense_server.Prelude.{
  ℕ, ◌+◌, ◌-◌, ◌*◌, ◌%◌, ◌≡◌, refl, ap, ◌∙◌, Bool, true, List, [], ◌∷◌, ◌++◌, inl, inr, Bool-cases,
  Option-cases, ◌==◌, ◌||◌, length, length-append, none, some, arith,
}
use ze_sense_server.Prelude.Result.{Result, ok}
use ze_sense_server.Codes.{
  charlen, datapoint, accelerometer, orientation, gyroscope, proximity, light,
}
use ze_sense_server.Event.{Event}
use ze_sense_server.Encode.{
  Packet, be16, be32, fields_of, vector_size, write_samples, encode_block, encode_packet, encode,
  empty_packet,
}
use ze_sense_server.Encode.Writes.{
  zeros, zeros_eq, write_at-zeros, Fits, text_fields, length-text_fields, write_fields-zeros,
  Sample, stamps, events_of, read-stamps, read-events_of,
}

module _ (print_e : ℕ → List ℕ) (fields : Event → List ℕ) where
  -- The bytes of one sample and of several: the timestamp, most significant byte first, and the
  -- printed fields.
  abbrev pub sample_bytes : Sample → List ℕ
  sample_bytes (ts, e) = be32 ts ++ text_fields print_e (fields e)

  abbrev pub samples_bytes : List Sample → List ℕ
  samples_bytes [] = []
  samples_bytes (s ∷ ss) = sample_bytes s ++ samples_bytes ss

  module _ (size : ℕ) (sized : (e : Event) → length (fields e) * charlen ≡ size)
      (fits : Fits print_e) where
    length-sample_bytes : (s : Sample) → length (sample_bytes s) ≡ 4 + size
    length-sample_bytes (ts, e) = omega (
      arith,
      length-append (be32 ts) (text_fields print_e (fields e)),
      length-text_fields print_e (fields e) fits,
      sized e,
    )

    pub length-samples_bytes :
        (ss : List Sample) → length (samples_bytes ss) ≡ length ss * (4 + size)
    length-samples_bytes [] = omega arith
    length-samples_bytes (s ∷ ss) = grind (
      arith,
      length-append (sample_bytes s) (samples_bytes ss),
      length-sample_bytes s,
      length-samples_bytes ss,
    )

    shift_samples :
        (xs ss : List Sample) (s : Sample) (k n i : ℕ) (buf : List ℕ) (r : Result (List ℕ))
        → write_samples print_e fields size
            (events_of ((xs ++ s ∷ []) ++ ss))
            (stamps ((xs ++ s ∷ []) ++ ss))
            k
            n
            i
            buf
          ≡ r
        → write_samples print_e fields size
            (events_of (xs ++ s ∷ ss))
            (stamps (xs ++ s ∷ ss))
            k
            n
            i
            buf
          ≡ r
    shift_samples xs ss s k n i buf r =
        subst (λ l. write_samples print_e fields size (events_of l) (stamps l) k n i buf ≡ r)
          (append_assoc xs (s ∷ []) ss)

    -- The loop, with the samples `xs` behind it and the bytes `bs` written.
    write_samples-zeros :
        (ss xs : List Sample) (bs : List ℕ) (k i m : ℕ)
        → k ≡ length xs
        → i ≡ length bs
        → m ≡ length ss * (4 + size)
        → write_samples print_e fields size
            (events_of (xs ++ ss))
            (stamps (xs ++ ss))
            k
            (length ss)
            i
            (bs ++ zeros m)
          ≡ ok (bs ++ samples_bytes ss)
    unfolding write_samples
    write_samples-zeros [] xs bs k i m hk hi hm =
        ap (λ l. ok (bs ++ l)) (zeros_eq {n = 0} (omega arith))
    write_samples-zeros ((ts, e) ∷ ss) xs bs k i m hk hi hm =
        rw
          (
            read-stamps xs ss ts e k hk,
            write_at-zeros bs (be32 ts) i m (size + length ss * (4 + size)) hi (grind arith),
            read-events_of xs ss ts e k hk,
            write_fields-zeros print_e (fields e) (bs ++ be32 ts) (i + 4)
                (size + length ss * (4 + size)) (length ss * (4 + size))
                (omega (arith, length-append bs (be32 ts))) (omega (arith, sized e)) fits,
          )
          (shift_samples xs ss (ts, e) (k + 1) (length ss) (i + 4 + size) _ _
              (write_samples-zeros ss (xs ++ (ts, e) ∷ []) bs' (k + 1) (i + 4 + size)
                (length ss * (4 + size)) (omega (arith, length-append xs ((ts, e) ∷ [])))
                (omega (
                  arith,
                  length-append (bs ++ be32 ts) tf,
                  length-append bs (be32 ts),
                  length-text_fields print_e (fields e) fits,
                  sized e,
                ))
                refl)
            ∙ ap ok regroup)
      where
        tf : List ℕ
        tf = text_fields print_e (fields e)

        bs' : List ℕ
        bs' = (bs ++ be32 ts) ++ tf

        regroup : bs' ++ samples_bytes ss ≡ bs ++ samples_bytes ((ts, e) ∷ ss)
        regroup =
            append_assoc (bs ++ be32 ts) tf (samples_bytes ss)
            ∙ append_assoc bs (be32 ts) (tf ++ samples_bytes ss)

-- The packet that stands for the samples `(ts, e) ∷ ss` of one sensor.
abbrev pub header : ℕ → ℕ → List ℕ
header kind total = datapoint ∷ kind % 256 ∷ be16 total

abbrev pub total_length : ℕ → ℕ → ℕ
total_length kind num = 4 + num * (4 + vector_size kind)

pub fields_of_sized :
    (kind : ℕ) (fields : Event → List ℕ)
    → fields_of kind ≡ some fields
    → (e : Event) → length (fields e) * charlen ≡ vector_size kind
unfolding fields_of vector_size
fields_of_sized kind fields h e =
    elim (Bool-cases (kind == accelerometer || (kind == orientation || kind == gyroscope))) [
      | inl three ↦
          let h' : some (λ (x : Event). x.v0 ∷ x.v1 ∷ x.v2 ∷ []) ≡ some fields = rw three at h in
          rw three (subst (λ f. length (f e) * charlen ≡ 3 * charlen) (some-injective _ _ h') refl)
      | inr other ↦ elim (Bool-cases (kind == proximity || kind == light)) [
        | inl one ↦
            let h' : some (λ (x : Event). x.v0 ∷ []) ≡ some fields = rw (other, one) at h in
            rw other (subst (λ f. length (f e) * charlen ≡ charlen) (some-injective _ _ h') refl)
        | inr neither ↦ let h' : none ≡ some fields = rw (other, neither) at h in cc
      ]
    ]

module _ (print_e : ℕ → List ℕ) where
  abbrev pub packet_bytes : (Event → List ℕ) → ℕ → List Sample → List ℕ
  packet_bytes fields kind ss =
      header kind (total_length kind (length ss)) ++ samples_bytes print_e fields ss

  -- The packet of samples of one sensor, with the bytes `bytes`.
  abbrev pub packet_of : Packet → List ℕ → Packet
  packet_of c bytes = record c { payload = some bytes; length = length bytes }

  encode_block_layout :
      (c : Packet) (fields : Event → List ℕ) (kind : ℕ) (ss : List Sample)
      → Fits print_e
      → fields_of kind ≡ some fields
      → encode_block print_e true c fields kind (events_of ss) (stamps ss) (length ss)
        ≡ ok (some (packet_of c (packet_bytes fields kind ss)))
  unfolding encode_block
  encode_block_layout c fields kind ss fits h =
      let size = vector_size kind in
      let sized = fields_of_sized kind fields h in
      rw
        (write_samples-zeros print_e fields size sized fits ss []
          (header kind (total_length kind (length ss))) 0 4 (total_length kind (length ss) - 4) refl
          refl (omega arith))
        (ap (λ n. ok (some (record c { payload = some (packet_bytes fields kind ss); length = n })))
          (omega (arith, length-samples_bytes print_e fields size sized fits ss)))

  -- For a sensor that has a payload format, and floats that print within their space, `encode`
  -- writes only inside the payload that it has allocated, and its bytes are exactly the header,
  -- with the type and the length in network order, and then each sample's timestamp in network
  -- order and its printed fields, padded with zeros. The length field of the packet is the number
  -- of these bytes, and its timestamps are those of the first sample.
  pub encode_layout :
      (ts : ℕ) (e : Event) (ss : List Sample) (fields : Event → List ℕ)
      → Fits print_e
      → fields_of e.kind ≡ some fields
      → let samples = (ts, e) ∷ ss in
        encode print_e true true (events_of samples) (stamps samples) (length samples)
        ≡ ok (some (packet_of (empty_packet e.timestamp ts) (packet_bytes fields e.kind samples)))
  unfolding encode encode_packet
  encode_layout ts e ss fields fits h =
      rw h (encode_block_layout (empty_packet e.timestamp ts) fields e.kind ((ts, e) ∷ ss) fits h)

  -- An event of any other type gives a packet without payload.
  pub encode_other :
      (e : Event) (ts : ℕ) (payload_allocated : Bool)
      → fields_of e.kind ≡ none
      → encode print_e true payload_allocated (e ∷ []) (ts ∷ []) 1
        ≡ ok (some (empty_packet e.timestamp ts))
  unfolding encode encode_packet
  encode_other e ts payload_allocated h = rw (h, encode, encode_packet) refl

  -- So with memory at hand a packet comes out of one event, with its two timestamps.
  pub encode_one :
      (e : Event) (ts : ℕ)
      → Fits print_e
      → (pk : Packet) × (encode print_e true true (e ∷ []) (ts ∷ []) 1 ≡ ok (some pk))
        × (pk.ntpts ≡ e.timestamp)
        × (pk.rtpts ≡ ts)
  encode_one e ts fits = elim (Option-cases (fields_of e.kind)) [
    | inl other ↦ (empty_packet e.timestamp ts, encode_other e ts true other, refl, refl)
    | inr (fields, h) ↦ (_, encode_layout ts e [] fields fits h, refl, refl)
  ]
