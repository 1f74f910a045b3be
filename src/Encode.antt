-- ===== src/Encode.antt =====
-- `encode` of ze_streaming_manager.c with the structures of ze_coap_payload.h: the packet that
-- bundles samples of one sensor for the wire.
pub mod Writes
pub mod Layout
pub mod Reader
use ze_sense_server.Prelude.{
  ℕ, zero, suc, ◌+◌, ◌-◌, ◌*◌, ◌/◌, ◌%◌, ◌^◌, ◌==◌, ◌||◌, Bool, true, false, leb, if◌then◌else◌,
  List, [], ◌∷◌, ◌++◌, length, replicate, Option, none, some,
}
use ze_sense_server.Prelude.Result.{Result, ok, fault, out_of_bounds, ◌>>=◌, read}
use ze_sense_server.Codes.{
  accelerometer, proximity, light, orientation, gyroscope, non, charlen, datapoint,
}
use ze_sense_server.Event.{Event}

-- `ze_sm_packet_t`. The bytes are those that `data` points to, `none` for NULL.
pub record Packet : Type 0 where
  pub ntpts : ℕ
  pub rtpts : ℕ
  pub conf : ℕ
  pub payload : Option (List ℕ)
  pub length : ℕ

-- The packet with its timestamps and the default delivery set.
abbrev pub empty_packet : ℕ → ℕ → Packet
empty_packet ntpts rtpts = record {
  ntpts = ntpts;
  rtpts = rtpts;
  conf = non;
  payload = none;
  length = 0;
}

-- The bytes of `htons(n)` and `htonl(n)` in memory.
abbrev pub be16 : ℕ → List ℕ
be16 n = n / 256 % 256 ∷ n % 256 ∷ []

abbrev pub be32 : ℕ → List ℕ
be32 n = n / 2 ^ 24 % 256 ∷ n / 2 ^ 16 % 256 ∷ n / 256 % 256 ∷ n % 256 ∷ []

-- The bytes overwritten at the start of a buffer; what does not fit is out of bounds.
unfoldable pub overwrite : List ℕ → List ℕ → Result (List ℕ)
overwrite buf [] = ok buf
overwrite [] (x ∷ xs) = fault out_of_bounds
overwrite (b ∷ buf) (x ∷ xs) = do rest ← overwrite buf xs; ok (x ∷ rest)

-- `memcpy(p+offset, bytes, n)`.
unfoldable pub write_at : List ℕ → ℕ → List ℕ → Result (List ℕ)
unfolding overwrite
write_at buf zero bytes = overwrite buf bytes
write_at [] (suc i) bytes = fault out_of_bounds
write_at (b ∷ buf) (suc i) bytes = do rest ← write_at buf i bytes; ok (b ∷ rest)

-- The floats of a sample that are printed, for the five sensors that have a block in `encode`.
unfoldable pub fields_of : ℕ → Option (Event → List ℕ)
fields_of kind =
    if kind == accelerometer || (kind == orientation || kind == gyroscope)
    then some (λ e. e.v0 ∷ e.v1 ∷ e.v2 ∷ [])
    else if kind == proximity || kind == light
    then some (λ e. e.v0 ∷ [])
    else none

-- The size of a sensor's vector structure.
unfoldable pub vector_size : ℕ → ℕ
vector_size kind =
    if kind == accelerometer || (kind == orientation || kind == gyroscope)
    then 3 * charlen
    else charlen

module _ (print_e : ℕ → List ℕ) where
  -- `sprintf(p+offset, "%e", v)` with its terminating zero, for each float in turn.
  pub write_fields : List ℕ → ℕ → List ℕ → Result (List ℕ)
  write_fields buf offset [] = ok buf
  write_fields buf offset (v ∷ vs) = do
    buf' ← write_at buf offset (print_e v ++ 0 ∷ [])
    write_fields buf' (offset + charlen) vs

  -- The loop over the samples: `n` rounds are left, `k` is the next index.
  write_samples :
      (Event → List ℕ) → ℕ → List Event → List ℕ → (k n offset : ℕ) → List ℕ → Result (List ℕ)
  write_samples fields size events rtpts k zero offset buf = ok buf
  write_samples fields size events rtpts k (suc n) offset buf = do
    ts ← read rtpts k
    buf' ← write_at buf offset (be32 ts)
    event ← read events k
    buf'' ← write_fields buf' (offset + 4) (fields event)
    write_samples fields size events rtpts (k + 1) n (offset + 4 + size) buf''

  -- The block of one sensor type, for a packet whose other fields are set. NULL if the payload
  -- cannot be allocated.
  encode_block :
      (payload_allocated : Bool)
      → Packet
      → (Event → List ℕ)
      → (kind : ℕ) → List Event
      → List ℕ
      → ℕ
      → Result (Option Packet)
  unfolding write_samples write_fields
  encode_block allocated c fields kind events rtpts num =
      let totlength = 4 + num * (4 + vector_size kind) in
      let header = datapoint ∷ kind % 256 ∷ be16 totlength in
      if allocated
      then (do
        bytes ←
            write_samples fields (vector_size kind) events rtpts 0 num 4
              (header ++ replicate (totlength - 4) 0)
        ok (some (record c { payload = some bytes; length = totlength })))
      else ok none

  -- The block whose test the type of the first event passes, if there is one.
  encode_as :
      (payload_allocated : Bool)
      → Packet
      → Option (Event → List ℕ)
      → (kind : ℕ) → List Event
      → List ℕ
      → ℕ
      → Result (Option Packet)
  encode_as allocated c none kind events rtpts num = ok (some c)
  encode_as allocated c (some fields) kind events rtpts num =
      encode_block allocated c fields kind events rtpts num

  -- Everything after the allocation of the packet.
  encode_packet : (payload_allocated : Bool) → List Event → List ℕ → ℕ → Result (Option Packet)
  unfolding encode_as
  encode_packet payload_allocated events rtpts num = do
    ts ← read rtpts 0
    event ← read events 0
    encode_as payload_allocated (empty_packet event.timestamp ts) (fields_of event.kind) event.kind
        events rtpts num

  -- `allocated` and `payload_allocated` say whether the two calls of `malloc` succeed.
  pub encode :
      (allocated payload_allocated : Bool) → List Event → List ℕ → ℕ → Result (Option Packet)
  unfolding encode_packet
  encode allocated payload_allocated events rtpts num =
      if allocated then encode_packet payload_allocated events rtpts num else ok none
