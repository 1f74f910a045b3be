-- ===== src/Carrier/Sleep.antt =====
-- How long a carrier thread sleeps.
use native.Mathlib.Nat.{mod-eq_of_lt, div-eq_of_lt, pow-succ', mul-le-mul_left}
use native.Mathlib.Decide.{dec_lt}
use ze_sense_server.Double.{
  doublings, quotient, nearest, nearest_le, nearest_bounds, Rounded, quotient-Rounded, whole,
  two_pow_pos, rounded_twice,
}
use ze_sense_server.Carrier.Period.{period, scaled, sleep_time, Timespec}
use ze_sense_server.Prelude.Result.{Returns, Returns-if}
use ze_sense_server.Prelude.{ℕ, zero, suc, ◌==◌, ap, refl, ◌+◌, ◌*◌, ◌^◌, ◌≤◌, ◌<◌, ◌≡◌, arith}

-- The period of a frequency above one is below a second, so it is its own decimal part.
period-Rounded : (fr : ℕ) → fr < 2 ^ 31 → Rounded 1 fr 0 (period fr)
period-Rounded fr h = quotient-Rounded doublings 1 fr 0 (omega arith)

halved : (k fr : ℕ) → 1 < fr → 2 ^ 52 * fr ≤ 1 * 2 ^ k → nearest (1 * 2 ^ k) fr < 2 ^ k
halved zero fr h n = absurd (omega arith)
halved (suc k) fr h n = omega (
  arith,
  pow-succ' 2 k,
  two_pow_pos k,
  nearest_le (1 * 2 ^ suc k) fr (2 ^ k) (omega arith)
      (omega (arith, pow-succ' 2 k, mul-le-mul_left {m = 2} {n = fr} (2 ^ k) (omega arith))),
)

period_below : (fr : ℕ) → 1 < fr → fr < 2 ^ 31 → (period fr).mantissa < 2 ^ (period fr).places
period_below fr h bound =
    let r = period-Rounded fr bound in
    let e : (period fr).places ≡ r.k = omega (arith, r.scale) in
    rw (e, r.mantissa) (halved r.k fr h r.normal)

abbrev pub nanoseconds : Timespec → ℕ
nanoseconds t = t.tv_sec * 1_000_000_000 + t.tv_nsec

-- A sleep that is in range for `nanosleep`, and the period of the frequency to the nanosecond.
abbrev pub IsPeriod : ℕ → Timespec → Type 0
IsPeriod fr t =
    (t.tv_nsec < 1_000_000_000)
    × (nanoseconds t * fr ≤ 1_000_000_000)
    × (1_000_000_000 ≤ (nanoseconds t + 1) * fr)

-- With the period in hand, which is its own decimal part.
scaled-Rounded :
    (fr m a : ℕ)
    → fr < 2 ^ 31
    → 2 * (m * fr) ≤ 2 * a + fr
    → 2 * a ≤ 2 * (m * fr) + fr
    → 2 ^ 52 * fr ≤ a
    → 0 < fr
    → 2 ^ 52 * a ≤ m * 1_000_000_000 * 2 ^ doublings
scaled-Rounded fr m a bound up down normal h =
    omega (arith, mul-le-mul_left {m = fr} {n = 2 ^ 31} m (omega arith), mantissa_pos m refl)
  where
    mantissa_pos : (x : ℕ) → m ≡ x → 0 < m
    mantissa_pos zero e = absurd (omega (arith, ap (λ t. t * fr) e))
    mantissa_pos (suc x) e = omega arith

-- The decimal part `m / 2 ^ p`, in nanoseconds.
nanoseconds_lem :
    (fr m p : ℕ)
    → 1 < fr
    → fr < 2 ^ 31
    → (2 * (m * fr) ≤ 2 * 2 ^ p + fr) × (2 * 2 ^ p ≤ 2 * (m * fr) + fr)
    → 2 ^ 52 * fr ≤ 2 ^ p
    → let n = whole (scaled (record { mantissa = m; places = p })) in
      (n * fr ≤ 1_000_000_000) × (1_000_000_000 ≤ (n + 1) * fr)
nanoseconds_lem fr m p h bound near normal =
    let r =
      quotient-Rounded doublings (m * 1_000_000_000) (2 ^ p) 0
        (scaled-Rounded fr m (2 ^ p) bound near.0 near.1 normal (omega arith)) in
    let n' = nearest (m * 1_000_000_000 * 2 ^ r.k) (2 ^ p) in
    let e : (scaled (record { mantissa = m; places = p })).places ≡ r.k = omega (arith, r.scale) in
    rw (e, r.mantissa)
      (rounded_twice fr (2 ^ p) m (2 ^ r.k) n' 1_000_000_000 (omega arith) (two_pow_pos r.k)
        (two_pow_pos p) near normal (nearest_bounds _ _ (two_pow_pos p)) r.normal)

above_one : (fr : ℕ) → 1 < fr → fr < 2 ^ 31 → Returns (IsPeriod fr) (sleep_time fr)
unfolding sleep_time
above_one fr h bound =
    let r = period-Rounded fr bound in
    let d = period fr in
    let e : d.places ≡ r.k = omega (arith, r.scale) in
    let below = period_below fr h bound in
    let near : (2 * (d.mantissa * fr) ≤ 2 * 2 ^ d.places + fr)
        × (2 * 2 ^ d.places ≤ 2 * (d.mantissa * fr) + fr) =
      rw (e, r.mantissa)
        (let b = nearest_bounds (1 * 2 ^ r.k) fr (omega arith) in
          (omega (arith, b.0), omega (arith, b.1))) in
    let normal : 2 ^ 52 * fr ≤ 2 ^ d.places = rw e (omega (arith, r.normal)) in
    let n = nanoseconds_lem fr d.mantissa d.places h bound near normal in
    let sec : whole d ≡ 0 = div-eq_of_lt below in
    let n_sec = whole (scaled (record { mantissa = d.mantissa; places = d.places })) in
    Returns-if (IsPeriod fr) (fr == 0) _ _ (λ z. absurd (ground arith))
      (λ _.
        rw (sec, mod-eq_of_lt below)
          (omega (arith, n.0, n.1, mul-le-mul_left {m = 2} {n = fr} n_sec (omega arith))))

at_one : Returns (IsPeriod 1) (sleep_time 1)
unfolding sleep_time quotient
at_one = omega arith

-- At a positive frequency that is an int, the sleep is defined and in the range of nanosleep, and
-- it is the period of the frequency to the nanosecond: so many nanoseconds times the frequency do
-- not exceed a second, and one nanosecond more reaches it.
pub sleep_time-IsPeriod : (fr : ℕ) → 0 < fr → fr < 2 ^ 31 → Returns (IsPeriod fr) (sleep_time fr)
sleep_time-IsPeriod fr h bound = elim (dec_lt 1 fr) [
  | yes more ↦ above_one fr more bound
  | no less ↦ let e : fr ≡ 1 = omega arith in rw e at_one
]
