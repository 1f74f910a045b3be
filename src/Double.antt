-- ===== src/Double.antt =====
-- Positive numbers of the type `double`, in the arithmetic of IEEE 754: the quotient of two
-- numbers, rounded to 53 bits, to the nearest and to the even one where two are as near.
use native.Mathlib.Nat.{
  div-add-mod, mod-lt, pow-succ', mul_assoc, mul_comm, mul-one, mul-suc, mul-le-mul_left,
  mul-le-mul_right, le_of_mul-le-mul_left, one-le-pow, mul-div-le, lt-div-mul-add, div-eq_of_lt,
}
use native.Mathlib.Decide.{dec_lt}
use ze_sense_server.Prelude.{
  ℕ, zero, suc, ◌+◌, ◌*◌, ◌/◌, ◌%◌, ◌^◌, ◌≤◌, ◌<◌, ◌≡◌, ◌⊎◌, ◌-◌, ltb, if◌then◌else◌, ap, sym, ◌∙◌,
  inl, inr, Bool-cases, arith,
}

-- The number `mantissa / 2 ^ places`.
pub record Double : Type 0 where
  pub mantissa : ℕ
  pub places : ℕ

unfoldable pub nearest : (a b : ℕ) → ℕ
nearest a b =
    let q = a / b in
    let r = a % b in if ltb (2 * r) b then q else if ltb b (2 * r) then q + 1 else q + q % 2

-- `a / b` for `a` below `2 ^ 53 * b`: `a` is doubled until the quotient has 53 bits.
unfoldable pub quotient : (fuel a b places : ℕ) → Double
unfolding nearest
quotient zero a b places = record { mantissa = nearest a b; places = places }
quotient (suc fuel) a b places =
    let finer = quotient fuel (2 * a) b (places + 1) in
    if ltb a (2 ^ 52 * b) then finer else record { mantissa = nearest a b; places = places }

-- The quotients of the program have 53 bits after so many doublings, where they are not zero.
abbrev pub doublings : ℕ
doublings = 84

-- The integer part, as a cast truncates it, and what is left of the number.
abbrev pub whole : Double → ℕ
whole d = d.mantissa / 2 ^ d.places

abbrev pub fraction : Double → Double
fraction d = record { mantissa = d.mantissa % 2 ^ d.places; places = d.places }

pub nearest_bounds :
    (a b : ℕ) → 0 < b → (2 * (nearest a b * b) ≤ 2 * a + b) × (2 * a ≤ 2 * (nearest a b * b) + b)
unfolding nearest
nearest_bounds a b h = grind (arith, div-add-mod a b, mod-lt a h)

reaches : (b q r n : ℕ) → 0 < b → b * q + r ≤ n * b → (q < n) ⊎ ((q ≡ n) × (r ≡ 0))
reaches b q r n h k = elim (dec_lt q n) [
  | yes below ↦ inl below
  | no above ↦ elim (dec_lt n q) [
    | yes beyond ↦ absurd (
        omega
          (arith, mul-le-mul_left {m = suc n} {n = q} b (omega arith), mul-suc b n, mul_comm b n))
    | no same ↦
        let e : q ≡ n = omega arith in inr (e, omega (arith, ap (λ t. b * t) e, mul_comm b n))
  ]
]

-- An integer that the quotient does not exceed is not exceeded by the rounded one.
pub nearest_le : (a b n : ℕ) → 0 < b → a ≤ n * b → nearest a b ≤ n
unfolding nearest
nearest_le a b n h k = elim (reaches b (a / b) (a % b) n h (omega (arith, div-add-mod a b))) [
  | inl below ↦ ground arith
  | inr exact ↦ ground arith
]

-- What `quotient` has rounded: `a` doubled `k` times.
pub record Rounded (a b places : ℕ) (d : Double) : Type 0 where
  pub k : ℕ
  pub scale : d.places ≡ places + k
  pub mantissa : d.mantissa ≡ nearest (a * 2 ^ k) b
  pub normal : 2 ^ 52 * b ≤ a * 2 ^ k

twice : (a k : ℕ) → a * 2 ^ suc k ≡ 2 * a * 2 ^ k
twice a k =
    ap (λ t. a * t) (pow-succ' 2 k)
    ∙ sym (mul_assoc a 2 (2 ^ k))
    ∙ ap (λ t. t * 2 ^ k) (mul_comm a 2)

pub quotient-Rounded :
    (fuel a b places : ℕ)
    → 2 ^ 52 * b ≤ a * 2 ^ fuel
    → Rounded a b places (quotient fuel a b places)
unfolding quotient
quotient-Rounded zero a b places h = record {
  k = 0;
  scale = omega arith;
  mantissa = ap (λ t. nearest t b) (sym (mul-one a));
  normal = h;
}
quotient-Rounded (suc fuel) a b places h = elim (Bool-cases (ltb a (2 ^ 52 * b))) [
  | inl small ↦
      let r = quotient-Rounded fuel (2 * a) b (places + 1) (omega (arith, twice a fuel)) in
      rw small (record {
        k = suc r.k;
        scale = omega (arith, r.scale);
        mantissa = r.mantissa ∙ ap (λ t. nearest t b) (sym (twice a r.k));
        normal = omega (arith, r.normal, twice a r.k);
      })
  | inr big ↦ rw big (record {
    k = 0;
    scale = omega arith;
    mantissa = ap (λ t. nearest t b) (sym (mul-one a));
    normal = ground (arith, mul-one a);
  })
]

pub two_pow_pos : (k : ℕ) → 0 < 2 ^ k
two_pow_pos k = omega (arith, one-le-pow k 2 (omega arith))

none_near : (a b : ℕ) → a ≡ 0 → 0 < b → nearest a b ≡ 0
none_near a b h pos = omega (arith, nearest_le a b 0 pos (omega (arith, h)))

whole_zero : (n places : ℕ) → n ≡ 0 → n / 2 ^ places ≡ 0
whole_zero n places h = div-eq_of_lt (omega (arith, h, two_pow_pos places))

pub quotient_zero : (fuel a b places : ℕ) → a ≡ 0 → 0 < b → whole (quotient fuel a b places) ≡ 0
unfolding quotient
quotient_zero zero a b places h pos = whole_zero (nearest a b) places (none_near a b h pos)
quotient_zero (suc fuel) a b places h pos = elim (Bool-cases (ltb a (2 ^ 52 * b))) [
  | inl small ↦ rw small (quotient_zero fuel (2 * a) b (places + 1) (omega (arith, h)) pos)
  | inr big ↦ rw big (whole_zero (nearest a b) places (none_near a b h pos))
]

-- Two roundings, each off by the factor `q / p` at most.
pub rounded_up :
    (fr a m k n' n c p q : ℕ)
    → 0 < k
    → 0 < a
    → m * fr * p ≤ a * q
    → n' * a * p ≤ m * c * k * q
    → n * k ≤ n'
    → n * fr * (p * p) ≤ c * (q * q)
rounded_up fr a m k n' n c p q hk ha h1 h2 h3 =
    let s1 : k * (n * a * p) ≤ k * (m * c * q) = omega (arith, mul-le-mul_right (a * p) h3, h2) in
    let s2 : n * a * p ≤ m * c * q = le_of_mul-le-mul_left s1 hk in
    let s3 : a * (n * fr * (p * p)) ≤ a * (c * (q * q)) =
      omega (arith, mul-le-mul_right (fr * p) s2, mul-le-mul_left (c * q) h1) in
    le_of_mul-le-mul_left s3 ha

pub rounded_down :
    (fr a m k n' n c p q : ℕ)
    → 0 < k
    → 0 < a
    → a * q ≤ m * fr * p
    → m * c * k * q ≤ n' * a * p
    → n' ≤ n * k
    → c * (q * q) ≤ n * fr * (p * p)
rounded_down fr a m k n' n c p q hk ha h1 h2 h3 =
    let s1 : k * (m * c * q) ≤ k * (n * a * p) = omega (arith, mul-le-mul_right (a * p) h3, h2) in
    let s2 : m * c * q ≤ n * a * p = le_of_mul-le-mul_left s1 hk in
    let s3 : a * (c * (q * q)) ≤ a * (n * fr * (p * p)) =
      omega (arith, mul-le-mul_right (fr * p) s2, mul-le-mul_left (c * q) h1) in
    le_of_mul-le-mul_left s3 ha

-- A quotient `a / fr` and its product with `c`, both rounded, for the integer part of `c / fr`.
pub rounded_twice :
    (fr a m k n' c : ℕ)
    → c < 2 ^ 31
    → 0 < k
    → 0 < a
    → (2 * (m * fr) ≤ 2 * a + fr) × (2 * a ≤ 2 * (m * fr) + fr)
    → 2 ^ 52 * fr ≤ a
    → (2 * (n' * a) ≤ 2 * (m * c * k) + a) × (2 * (m * c * k) ≤ 2 * (n' * a) + a)
    → 2 ^ 52 * a ≤ m * c * k
    → (n' / k * fr ≤ c) × (c ≤ (n' / k + 1) * fr)
rounded_twice fr a m k n' c bound hk ha near normal near' normal' =
    let up : n' / k * fr * (2 ^ 53 * 2 ^ 53) ≤ c * ((2 ^ 53 + 1) * (2 ^ 53 + 1)) =
      rounded_up fr a m k n' (n' / k) c (2 ^ 53) (2 ^ 53 + 1) hk ha (omega arith) (omega arith)
        (omega (arith, mul-div-le n' k)) in
    let down : c * ((2 ^ 53 - 1) * (2 ^ 53 - 1)) ≤ (n' / k + 1) * fr * (2 ^ 53 * 2 ^ 53) =
      rounded_down fr a m k n' (n' / k + 1) c (2 ^ 53) (2 ^ 53 - 1) hk ha (omega arith)
        (omega arith) (omega (arith, lt-div-mul-add {a = n'} hk)) in
    (omega arith, omega arith)
