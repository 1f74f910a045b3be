-- ===== src/Rtp/Single.antt =====
-- The arithmetic of `float` in ze_rtp_server_core.c: numbers with 24 bits of mantissa, rounded to
-- the nearest.
use native.Mathlib.Nat.{div-le_self, mul_comm, mul_assoc}
use ze_sense_server.Double.{Double, nearest, nearest_bounds, nearest_le, whole}
use ze_sense_server.Codes.{rtp_tsclock_freq}
use ze_sense_server.Prelude.Result.{Result, ok, fault, bad_conversion, Returns, Returns-if}
use ze_sense_server.Prelude.{
  ℕ, zero, suc, ◌+◌, ◌*◌, ◌^◌, ◌≤◌, ◌<◌, ◌≡◌, ltb, if◌then◌else◌, Bool-cases, inl, inr, arith,
}

-- `a / b` for `2 ^ 23 * b` or more: `b` is doubled until the quotient has 24 bits.
unfoldable pub coarse : (fuel a b : ℕ) → ℕ
coarse zero a b = nearest a b
coarse (suc fuel) a b =
    let rest = coarse fuel a (2 * b) in if ltb a (2 ^ 24 * b) then nearest a b else 2 * rest

-- `a / b` for less: `a` is doubled until the quotient has 24 bits.
unfoldable pub fine : (fuel a b places : ℕ) → Double
fine zero a b places = record { mantissa = nearest a b; places = places }
fine (suc fuel) a b places =
    let finer = fine fuel (2 * a) b (places + 1) in
    if ltb a (2 ^ 23 * b) then finer else record { mantissa = nearest a b; places = places }

-- The integer part of `a / b` as a `float`.
unfoldable pub whole_single : (a b : ℕ) → ℕ
whole_single a b = if ltb a (2 ^ 24 * b) then whole (fine 84 a b 0) else coarse 64 a b

-- `(float)RTP_TSCLOCK_FREQ/1000000000LL`.
abbrev pub freqdiv : Double
freqdiv = fine 84 rtp_tsclock_freq 1_000_000_000 0

-- A `uint64_t` as a `float`.
abbrev pub to_float : ℕ → ℕ
to_float n = if ltb n (2 ^ 24) then n else coarse 64 n 1

-- `(int)(ntpdiff*freqdiv)`; a cast of a number that is no `int` is undefined.
unfoldable pub float_increment : (ntpdiff : ℕ) → Result ℕ
float_increment ntpdiff =
    let n = whole_single (to_float ntpdiff * freqdiv.mantissa) (2 ^ freqdiv.places) in
    if ltb n (2 ^ 31) then ok n else fault bad_conversion

-- The `float` nearest to a millionth.
freqdiv_lem : (freqdiv.mantissa ≡ 8_796_093) × (freqdiv.places ≡ 43)
unfolding fine nearest
freqdiv_lem = (omega arith, omega arith)

-- Every rounding at most doubles.
coarse_le : (fuel a b : ℕ) → 0 < b → b ≤ a → coarse fuel a b * b ≤ 2 * a
unfolding coarse
coarse_le zero a b pos le = omega (arith, nearest_bounds a b pos)
coarse_le (suc fuel) a b pos le = elim (Bool-cases (ltb a (2 ^ 24 * b))) [
  | inl small ↦ rw small (omega (arith, nearest_bounds a b pos))
  | inr big ↦
      let ih = coarse_le fuel a (2 * b) (omega arith) (ground (arith, big)) in
      rw big (
        omega (
          arith,
          ih,
          mul_comm (coarse fuel a (2 * b)) (2 * b),
          mul_assoc 2 b (coarse fuel a (2 * b)),
          mul_assoc 2 (coarse fuel a (2 * b)) b,
          mul_comm (coarse fuel a (2 * b)) b,
        ))
]

to_float_le : (n : ℕ) → to_float n ≤ 2 * n
to_float_le n = elim (Bool-cases (ltb n (2 ^ 24))) [
  | inl small ↦ rw small (omega arith)
  | inr big ↦ rw big (omega (arith, coarse_le 64 n 1 (omega arith) (ground (arith, big))))
]

whole-fine :
    (fuel a b places : ℕ) → 0 < b → a ≤ 2 ^ 24 * b → whole (fine fuel a b places) ≤ 2 ^ 24 * 2
unfolding fine
whole-fine zero a b places pos le =
    omega (arith, div-le_self (nearest a b) (2 ^ places), nearest_le a b (2 ^ 24) pos le)
whole-fine (suc fuel) a b places pos le = elim (Bool-cases (ltb a (2 ^ 23 * b))) [
  | inl small ↦ rw small (whole-fine fuel (2 * a) b (places + 1) pos (ground (arith, small)))
  | inr big ↦
      rw big (omega (arith, div-le_self (nearest a b) (2 ^ places), nearest_le a b (2 ^ 24) pos le))
]

whole_single_small : (a : ℕ) → a < 2 ^ 73 → whole_single a (2 ^ 43) < 2 ^ 31
unfolding whole_single
whole_single_small a h = elim (Bool-cases (ltb a (2 ^ 24 * 2 ^ 43))) [
  | inl small ↦
      rw small (omega (arith, whole-fine 84 a (2 ^ 43) 0 (omega arith) (ground (arith, small))))
  | inr big ↦ rw big (omega (arith, coarse_le 64 a (2 ^ 43) (omega arith) (ground (arith, big))))
]

-- Within 2 ^ 48 nanoseconds of the last sample, which is three days, the cast is defined.
pub float_increment-Returns : (n : ℕ) → n < 2 ^ 48 → Returns (λ i. i < 2 ^ 31) (float_increment n)
unfolding float_increment
float_increment-Returns n h =
    let f = freqdiv_lem in
    rw (f.0, f.1)
      (let small = whole_single_small (to_float n * 8_796_093) (omega (arith, to_float_le n)) in
        Returns-if (λ i. i < 2 ^ 31) (ltb (whole_single (to_float n * 8_796_093) (2 ^ 43)) (2 ^ 31))
          _ _ (λ yes_int. small) (λ no_int. absurd (ground (arith, no_int, small))))
