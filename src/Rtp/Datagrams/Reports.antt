-- ===== src/Rtp/Datagrams/Reports.antt =====
-- What becomes of the reception reports that are received.
use ze_sense_server.Prelude.{
  ℕ, zero, suc, ◌+◌, ◌*◌, ◌≤◌, ◌<◌, ◌≡◌, refl, sym, ◌⊎◌, ◌==◌, ◌||◌, not, inl, inr, ltb, false,
  Bool-cases, List, [], ◌∷◌, length, arith,
}
use ze_sense_server.Prelude.Result.{Result, ok, fault, out_of_bounds}
use ze_sense_server.Root.{minus_one}
use ze_sense_server.Rtp.Datagrams.{
  slice, Head, Layout, Answers, head_at, interpret_rr, rtp_default_version, rtcp_max_length,
  dispatch_sdes, dispatch_report,
}
use native.Mathlib.Nat.{mul-le-mul_right, mul-le-mul_left}
use mathlib.Core.Path.{subst}

-- A read that goes behind the end is out of bounds, and one that does not gives its bytes.
pub slice_overflows :
    (xs : List ℕ) (offset n : ℕ) → length xs < offset + n → slice xs offset n ≡ fault out_of_bounds
unfolding slice
slice_overflows xs zero zero h = absurd (omega arith)
slice_overflows [] zero (suc n) h = refl
slice_overflows (x ∷ xs) zero (suc n) h = rw (slice_overflows xs zero n (omega arith)) refl
slice_overflows [] (suc offset) n h = refl
slice_overflows (x ∷ xs) (suc offset) n h = slice_overflows xs offset n (omega arith)

pub slice_cases :
    (xs : List ℕ) (offset n : ℕ)
    → (slice xs offset n ≡ fault out_of_bounds)
      ⊎ ((ys : List ℕ) × (slice xs offset n ≡ ok ys) × (length ys ≡ n) × (offset + n ≤ length xs))
unfolding slice
slice_cases xs zero zero = inr ([], refl, refl, omega arith)
slice_cases [] zero (suc n) = inl refl
slice_cases (x ∷ xs) zero (suc n) = elim (slice_cases xs zero n) [
  | inl e ↦ inl (rw e refl)
  | inr (ys, e, m, le) ↦ inr (x ∷ ys, rw e refl, omega (arith, m), omega arith)
]
slice_cases [] (suc offset) n = inl refl
slice_cases (x ∷ xs) (suc offset) n = elim (slice_cases xs offset n) [
  | inl e ↦ inl e
  | inr (ys, e, m, le) ↦ inr (ys, e, m, omega arith)
]

-- A copy begins with what it is a copy of.
slice-slice :
    (xs : List ℕ) (m n : ℕ) (ys : List ℕ)
    → m ≤ n
    → slice xs 0 n ≡ ok ys
    → slice ys 0 m ≡ slice xs 0 m
unfolding slice
slice-slice xs zero n ys le e = refl
slice-slice xs (suc m) zero ys le e = absurd (omega arith)
slice-slice [] (suc m) (suc n) ys le e = absurd (cc)
slice-slice (x ∷ xs) (suc m) (suc n) ys le e = elim (slice_cases xs 0 n) [
  | inl f ↦ let bad = rw f at e in absurd (cc)
  | inr (zs, f, _, _) ↦
      let whole = rw f at e in
      let same : x ∷ zs ≡ ys = cc in rw (sym same) (rw (slice-slice xs m n zs (omega arith) f) refl)
]

length-slice : (xs : List ℕ) (n : ℕ) (ys : List ℕ) → slice xs 0 n ≡ ok ys → length ys ≡ n
length-slice xs n ys e = elim (slice_cases xs 0 n) [
  | inl f ↦ absurd (cc)
  | inr (zs, f, m, _) ↦ let same : zs ≡ ys = cc in subst (λ l. length l ≡ n) same m
]

-- What is read of memory, by whether it is there.
head_at_cases :
    (l : Layout) (xs : List ℕ) (offset : ℕ)
    → (head_at l xs offset ≡ fault out_of_bounds)
      ⊎ ((h : Head) × (head_at l xs offset ≡ ok h) × (offset + 4 ≤ length xs))
unfolding head_at
head_at_cases l xs offset = elim (slice_cases xs offset 4) [
  | inl e ↦ inl (rw e refl)
  | inr (ys, e, _, le) ↦ inr (l.head ys, rw e refl, le)
]

head_at-slice :
    (l : Layout) (xs ys : List ℕ) (n : ℕ)
    → 4 ≤ n
    → slice xs 0 n ≡ ok ys
    → head_at l ys 0 ≡ head_at l xs 0
unfolding head_at
head_at-slice l xs ys n le e = rw (slice-slice xs 4 n ys le e) refl

module _ (l : Layout) (hdr_size : 4 ≤ l.sizeof_rtcp_hdr) (rr_size : 24 ≤ l.sizeof_rtcp_rr) where
  -- A report of one block is shorter than the place where the block is looked for.
  interpret_rr_overflows :
      (buf rr : List ℕ) (rrlength : ℕ) (hdr : Head)
      → slice buf 0 rrlength ≡ ok rr
      → head_at l buf 0 ≡ ok hdr
      → hdr.count ≤ 1
      → 4 ≤ rrlength
      → rrlength ≤ 96
      → interpret_rr l rr ≡ fault out_of_bounds
  unfolding interpret_rr
  interpret_rr_overflows buf rr rrlength hdr e h one low high =
      let few : ltb 1 hdr.count ≡ false = ground arith in
      let short : length rr ≡ rrlength = length-slice buf rrlength rr e in
      let big : 96 ≤ l.sizeof_rtcp_hdr * l.sizeof_rtcp_rr =
        omega (arith, mul-le-mul_right l.sizeof_rtcp_rr hdr_size) in
      rw (head_at-slice l buf rr rrlength low e, h)
        (elim (slice_cases rr 4 4) [
          | inl f ↦ rw f refl
          | inr (ssrc, f, _, _) ↦
              rw (f, few)
                (rw
                  (slice_overflows rr (l.sizeof_rtcp_hdr * l.sizeof_rtcp_rr) l.sizeof_rtcp_rr
                    (omega arith))
                  refl)
        ])

  -- Dropped, or a fault.
  abbrev pub Unread : List ℕ → Head → Result ℕ → Type 0
  Unread buf rr result =
      ((result ≡ ok minus_one) × ((rr.length + 1) * 4 * l.sizeof_rtcp_hdr + 4 ≤ length buf))
      ⊎ (result ≡ fault out_of_bounds)

  dispatch_sdes-Unread :
      (h : Answers) (buf : List ℕ) (rr sdes : Head)
      → length buf ≡ rtcp_max_length
      → head_at l buf 0 ≡ ok rr
      → rr.count ≤ 1
      → (rr.length + 1) * 4 * l.sizeof_rtcp_hdr + 4 ≤ length buf
      → Unread buf rr (dispatch_sdes l h buf ((rr.length + 1) * 4) sdes)
  unfolding dispatch_sdes
  dispatch_sdes-Unread h buf rr sdes all head one room =
      let n = (rr.length + 1) * 4 in
      let few : n ≤ 96 = omega (arith, mul-le-mul_left n hdr_size) in
      elim (Bool-cases (not (sdes.version == rtp_default_version) || not (sdes.ptype == 202))) [
        | inl other ↦ rw other (inl (refl, room))
        | inr same ↦ rw same (elim (Bool-cases h.rr_allocated) [
          | inr null ↦ rw null (inl (refl, room))
          | inl memory ↦ rw memory (elim (slice_cases buf 0 n) [
            | inl f ↦ rw f (inr refl)
            | inr (chunk, f, _, _) ↦
                rw (f, interpret_rr_overflows buf chunk n rr f head one (omega arith) few)
                  (inr refl)
          ])
        ])
      ]

  -- No reception report of one block is ever interpreted. If the datagram in the buffer begins with
  -- the header of one, it is dropped, and the header gives a length so small that the next header is
  -- looked for within the buffer, or the server reads out of bounds.
  pub dispatch_report-Unread :
      (h : Answers) (buf : List ℕ) (rr : Head)
      → length buf ≡ rtcp_max_length
      → head_at l buf 0 ≡ ok rr
      → rr.version ≡ rtp_default_version
      → rr.ptype ≡ 201
      → rr.count ≤ 1
      → Unread buf rr (dispatch_report l h buf)
  unfolding dispatch_report
  dispatch_report-Unread h buf rr all head version ptype one =
      let is_report : (not (rr.version == rtp_default_version) || not (rr.ptype == 201)) ≡ false =
        ground arith in
      rw (head, is_report)
        (elim (head_at_cases l buf ((rr.length + 1) * 4 * l.sizeof_rtcp_hdr)) [
          | inl f ↦ rw f (inr refl)
          | inr (sdes, f, room) ↦ rw f (dispatch_sdes-Unread h buf rr sdes all head one room)
        ])
