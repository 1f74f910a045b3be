-- ===== src/Server/Increment.antt =====
-- The timestamp of a sender report, by the time since the last sample of the stream.
use native.Mathlib.Decide.{dec_lt}
use native.Mathlib.Nat.{mul-le-mul_left}
use ze_sense_server.Double.{
  doublings, quotient, nearest, nearest_bounds, Rounded, quotient-Rounded, whole, two_pow_pos,
  rounded_twice, quotient_zero,
}
use ze_sense_server.Codes.{rtp_tsclock_freq}
use ze_sense_server.Server.State.{
  Registration, Libcoap, rtp_ratio, scaled_difference, rtp_increment,
}
use ze_sense_server.Server.{sr_timestamp}
use ze_sense_server.Prelude.{
  ℕ, zero, suc, ◌+◌, ◌-◌, ◌*◌, ◌%◌, ◌^◌, ◌≤◌, ◌<◌, ◌≡◌, ap, refl, ltb, arith, Bool-cases, inl, inr,
  ◌⊎◌, ◌≢◌, ◌∙◌,
}

-- `n` is `d` nanoseconds in units of the RTP clock, to the unit.
abbrev pub IsUnits : ℕ → ℕ → Type 0
IsUnits d n = (n * 1_000_000 ≤ d) × (d ≤ (n + 1) * 1_000_000)

ratio-Rounded : Rounded rtp_tsclock_freq 1_000_000_000 0 rtp_ratio
ratio-Rounded = quotient-Rounded doublings rtp_tsclock_freq 1_000_000_000 0 (omega arith)

mantissa_pos : (m a b : ℕ) → 0 < b → 2 * a ≤ 2 * (m * b) + b → b ≤ a → 0 < m
mantissa_pos zero a b pos near le = absurd (omega arith)
mantissa_pos (suc m) a b pos near le = omega arith

product_normal :
    (m a d : ℕ)
    → 0 < d
    → 2 * a ≤ 2 * (m * 1_000_000) + 1_000_000
    → 2 ^ 52 * 1_000_000 ≤ a
    → 2 ^ 52 * a ≤ m * d * 2 ^ doublings
product_normal m a d pos near normal = omega (arith, mul-le-mul_left {m = 1} {n = d} m pos)

quotient-IsUnits :
    (d m p : ℕ)
    → 0 < d
    → d < 2 ^ 31
    → (2 * (m * 1_000_000) ≤ 2 * 2 ^ p + 1_000_000) × (2 * 2 ^ p ≤ 2 * (m * 1_000_000) + 1_000_000)
    → 2 ^ 52 * 1_000_000 ≤ 2 ^ p
    → IsUnits d (whole (quotient doublings (m * d) (2 ^ p) 0))
quotient-IsUnits d m p pos bound near normal =
    let r =
      quotient-Rounded doublings (m * d) (2 ^ p) 0 (product_normal m (2 ^ p) d pos near.1 normal) in
    let n' = nearest (m * d * 2 ^ r.k) (2 ^ p) in
    let e : (quotient doublings (m * d) (2 ^ p) 0).places ≡ r.k = omega (arith, r.scale) in
    rw (e, r.mantissa)
      (rounded_twice 1_000_000 (2 ^ p) m (2 ^ r.k) n' d bound (two_pow_pos r.k) (two_pow_pos p) near
        normal (nearest_bounds _ _ (two_pow_pos p)) r.normal)

scaled_difference-IsUnits : (d : ℕ) → d < 2 ^ 31 → IsUnits d (whole (scaled_difference d))
scaled_difference-IsUnits zero bound =
    let e : whole (scaled_difference 0) ≡ 0 =
      quotient_zero doublings (rtp_ratio.mantissa * 0) (2 ^ rtp_ratio.places) 0 (omega arith)
        (two_pow_pos rtp_ratio.places) in
    omega (arith, e)
scaled_difference-IsUnits (suc d) bound =
    let r = ratio-Rounded in
    let b = nearest_bounds (rtp_tsclock_freq * 2 ^ r.k) 1_000_000_000 (omega arith) in
    let e : rtp_ratio.places ≡ r.k = omega (arith, r.scale) in
    let near : (2 * (rtp_ratio.mantissa * 1_000_000) ≤ 2 * 2 ^ rtp_ratio.places + 1_000_000)
        × (2 * 2 ^ rtp_ratio.places ≤ 2 * (rtp_ratio.mantissa * 1_000_000) + 1_000_000) =
      rw (e, r.mantissa) (omega (arith, b.0), omega (arith, b.1)) in
    let normal : 2 ^ 52 * 1_000_000 ≤ 2 ^ rtp_ratio.places = rw e (omega (arith, r.normal)) in
    quotient-IsUnits (suc d) rtp_ratio.mantissa rtp_ratio.places (omega arith) bound near normal

pub rtp_increment_forward : (d : ℕ) → d < 2 ^ 31 → IsUnits d (rtp_increment d)
unfolding rtp_increment
rtp_increment_forward d h = elim (Bool-cases (ltb d (2 ^ 31))) [
  | inl below ↦ rw below (scaled_difference-IsUnits d h)
  | inr above ↦ absurd (ground arith)
]

rtp_increment_backward :
    (d : ℕ)
    → 2 ^ 31 < d
    → d < 2 ^ 32
    → rtp_increment d ≡ (2 ^ 32 - whole (scaled_difference (2 ^ 32 - d))) % 2 ^ 32
unfolding rtp_increment
rtp_increment_backward d low high = elim (Bool-cases (ltb d (2 ^ 31))) [
  | inl below ↦ absurd (ground arith)
  | inr above ↦ rw above refl
]

-- The timestamp is ahead of `rtptwin` by the units of `d`, or behind it.
pub record Ahead (twin d timestamp : ℕ) : Type 0 where
  pub units : ℕ
  pub moved : timestamp ≡ (twin + units) % 2 ^ 32
  pub close : IsUnits d units

pub record Behind (twin d timestamp : ℕ) : Type 0 where
  pub units : ℕ
  pub moved : (timestamp + units) % 2 ^ 32 ≡ twin
  pub close : IsUnits d units

int_difference :
    (ntp twin : ℕ)
    → twin ≤ ntp
    → ntp < 2 ^ 64
    → ntp - twin < 2 ^ 32
    → (ntp + (2 ^ 64 - twin)) % 2 ^ 32 ≡ ntp - twin
int_difference ntp twin le bound near = omega arith

-- Where the last sample lies less than 2 ^ 31 nanoseconds back, the timestamp of the sender report
-- is the one of the sample plus that time in units of the RTP clock, in 32 bits, which the
-- arithmetic of double computes to the unit.
sr_timestamp-Ahead :
    (c : Libcoap) (reg : Registration)
    → reg.ntptwin ≤ c.ntp
    → c.ntp < 2 ^ 64
    → c.ntp - reg.ntptwin < 2 ^ 31
    → Ahead reg.rtptwin (c.ntp - reg.ntptwin) (sr_timestamp c reg)
unfolding sr_timestamp
sr_timestamp-Ahead c reg le bound near = record {
  units = rtp_increment (c.ntp - reg.ntptwin);
  moved =
      ap (λ t. (reg.rtptwin + rtp_increment t) % 2 ^ 32)
        (int_difference c.ntp reg.ntptwin le bound (omega arith));
  close = rtp_increment_forward (c.ntp - reg.ntptwin) near;
}

-- Where the last sample lies more than 2 ^ 31 nanoseconds back, and less than 2 ^ 32, the
-- difference is negative as an int: the timestamp of the report lies before the one of the sample,
-- by what is missing to 2 ^ 32 nanoseconds in units of the RTP clock.
sr_timestamp-Behind :
    (c : Libcoap) (reg : Registration)
    → reg.ntptwin ≤ c.ntp
    → c.ntp < 2 ^ 64
    → 2 ^ 31 < c.ntp - reg.ntptwin
    → c.ntp - reg.ntptwin < 2 ^ 32
    → reg.rtptwin < 2 ^ 32
    → Behind reg.rtptwin (2 ^ 32 - (c.ntp - reg.ntptwin)) (sr_timestamp c reg)
unfolding sr_timestamp
sr_timestamp-Behind c reg le bound low high word =
    let d = c.ntp - reg.ntptwin in
    let u = whole (scaled_difference (2 ^ 32 - d)) in
    let close = scaled_difference-IsUnits (2 ^ 32 - d) (omega arith) in
    let e : sr_timestamp c reg ≡ (reg.rtptwin + (2 ^ 32 - u) % 2 ^ 32) % 2 ^ 32 =
      ap (λ t. (reg.rtptwin + t) % 2 ^ 32)
        (ap rtp_increment (int_difference c.ntp reg.ntptwin le bound high)
          ∙ rtp_increment_backward d low high) in
    record { units = u; moved = omega (arith, e, close.0); close = close }

-- A sender report that is made less than 2 ^ 32 nanoseconds after the last sample, but not exactly
-- 2 ^ 31: within 2 ^ 31 nanoseconds its timestamp is that of the sample plus the time since it in
-- units of the RTP clock, to the unit, and from then on it lies before that of the sample, by what
-- is missing to 2 ^ 32 nanoseconds in units of that clock.
pub sr_timestamp-Moved :
    (c : Libcoap) (reg : Registration)
    → reg.ntptwin ≤ c.ntp
    → c.ntp < 2 ^ 64
    → c.ntp - reg.ntptwin < 2 ^ 32
    → c.ntp - reg.ntptwin ≢ 2 ^ 31
    → reg.rtptwin < 2 ^ 32
    → ((c.ntp - reg.ntptwin < 2 ^ 31)
        × Ahead reg.rtptwin (c.ntp - reg.ntptwin) (sr_timestamp c reg))
      ⊎ ((2 ^ 31 < c.ntp - reg.ntptwin)
          × Behind reg.rtptwin (2 ^ 32 - (c.ntp - reg.ntptwin)) (sr_timestamp c reg))
sr_timestamp-Moved c reg le bound word apart twin = elim (dec_lt (c.ntp - reg.ntptwin) (2 ^ 31)) [
  | yes near ↦ inl (near, sr_timestamp-Ahead c reg le bound near)
  | no far ↦
      let back : 2 ^ 31 < c.ntp - reg.ntptwin = omega (arith, far, apart) in
      inr (back, sr_timestamp-Behind c reg le bound back word twin)
]
