-- ===== src/Rtp/Overrun.antt =====
-- Where the RTP server writes the samples of a packet.
use native.Mathlib.Nat.{mul-le-mul_left}
use ze_sense_server.Prelude.{
  ℕ, zero, suc, ◌+◌, ◌*◌, ◌<◌, ◌≡◌, refl, ◌⊎◌, inl, inr, false, List, [], ◌∷◌, length, none, some,
  arith,
}
use ze_sense_server.Prelude.Result.{Result, ok, fault, out_of_bounds}
use ze_sense_server.Codes.{stream_update}
use ze_sense_server.Encode.{be32, write_at, overwrite}
use ze_sense_server.ResBuf.{Response}
use ze_sense_server.Rtp.{
  RtpStream, RtpPacket, Zertp, Rtp, stream_at, send_packet, stream_sample, rtp_update,
  rtp_serve_response,
}

-- A write either is out of bounds or leaves a buffer of the same length.
Written : List ℕ → Result (List ℕ) → Type 0
Written buf m = (m ≡ fault out_of_bounds) ⊎ ((b : List ℕ) × (m ≡ ok b) × (length b ≡ length buf))

overwrite-Written : (buf bytes : List ℕ) → Written buf (overwrite buf bytes)
unfolding Written overwrite
overwrite-Written buf [] = inr (buf, refl, refl)
overwrite-Written [] (x ∷ bytes) = inl refl
overwrite-Written (b ∷ buf) (x ∷ bytes) = elim (overwrite-Written buf bytes) [
  | inl out ↦ inl (rw out refl)
  | inr (r, e, l) ↦ inr (x ∷ r, rw e refl, omega (arith, l))
]

write_at-Written : (buf : List ℕ) (i : ℕ) (bytes : List ℕ) → Written buf (write_at buf i bytes)
unfolding Written write_at
write_at-Written buf zero bytes = overwrite-Written buf bytes
write_at-Written [] (suc i) bytes = inl refl
write_at-Written (b ∷ buf) (suc i) bytes = elim (write_at-Written buf i bytes) [
  | inl out ↦ inl (rw out refl)
  | inr (r, e, l) ↦ inr (b ∷ r, rw e refl, omega (arith, l))
]

overwrite_overruns :
    (buf bytes : List ℕ) → length buf < length bytes → overwrite buf bytes ≡ fault out_of_bounds
unfolding overwrite
overwrite_overruns buf [] h = absurd (omega arith)
overwrite_overruns [] (x ∷ bytes) h = refl
overwrite_overruns (b ∷ buf) (x ∷ bytes) h = rw (overwrite_overruns buf bytes (omega arith)) refl

write_at_overruns :
    (buf : List ℕ) (i : ℕ) (bytes : List ℕ)
    → length buf < i + length bytes
    → write_at buf i bytes ≡ fault out_of_bounds
unfolding write_at
write_at_overruns buf zero bytes h = overwrite_overruns buf bytes (omega arith)
write_at_overruns [] (suc i) bytes h = refl
write_at_overruns (b ∷ buf) (suc i) bytes h = rw (write_at_overruns buf i bytes (omega arith)) refl

-- A new PDU has the payload that was asked for, and the header of a payload is longer than a byte.
pub record IsExact (z : Zertp) : Type 0 where
  pub pdu : (n : ℕ) → List ℕ
  pub made : (n : ℕ) → z.rtp_pdu_init n ≡ some (pdu n)
  pub exact : (n : ℕ) → length (pdu n) ≡ n
  pub header : 1 < z.sizeof_payload_hdr

abbrev pub bytes_of : RtpPacket → List ℕ
bytes_of pk = elim pk.packet.payload [ none ↦ [] | some bytes ↦ bytes ]

module _ (z : Zertp) (exact : IsExact z) where
  -- The samples start behind the square of the header's size, in a payload that has room for one
  -- header and them.
  beyond : (n : ℕ) → n + z.sizeof_payload_hdr < z.sizeof_payload_hdr * z.sizeof_payload_hdr + n
  beyond n =
      let k = z.sizeof_payload_hdr in
      omega (arith, exact.header, mul-le-mul_left {m = 2} {n = k} k exact.header)

  send_packet_overruns :
      (str : RtpStream) (pk : RtpPacket)
      → length (bytes_of pk) ≡ pk.packet.length
      → send_packet z str pk ≡ fault out_of_bounds
  unfolding send_packet Written
  send_packet_overruns str pk size =
      let n = pk.packet.length + z.sizeof_payload_hdr in
      let k = z.sizeof_payload_hdr * z.sizeof_payload_hdr in
      elim (write_at-Written (exact.pdu n) 0 (be32 pk.sensor)) [
        | inl out ↦ rw (exact.made n, out) refl
        | inr (b, e, l) ↦
            let short : length b < k + length (bytes_of pk) =
              omega (arith, l, exact.exact n, size, beyond pk.packet.length) in
            rw (exact.made n, e, write_at_overruns b k (bytes_of pk) short) refl
      ]

  -- With PDUs that have the payload that was asked for, and a payload header longer than a byte,
  -- the RTP server sends no sample: every STREAM_UPDATE for a stream that is valid, with a packet
  -- of as many bytes as it says, is written behind the end of its payload.
  pub rtp_serve_response_overruns :
      (ntp : ℕ) (s : Rtp) (r : Response RtpPacket) (str : RtpStream) (pk : RtpPacket)
      → r.rtype ≡ stream_update
      → stream_at s.memory r.ticket ≡ ok str
      → str.invalid ≡ false
      → r.pk ≡ some pk
      → length (bytes_of pk) ≡ pk.packet.length
      → rtp_serve_response z ntp s r ≡ fault out_of_bounds
  unfolding rtp_serve_response rtp_update stream_sample send_packet
  rtp_serve_response_overruns ntp s r str pk e found valid q size =
      rw (e, found, valid, q, send_packet_overruns str pk size) refl
