-- ===== src/Manager/Stats/Scanned.antt =====
-- The loop of the statistics that looks for the extremes, over a log that is in order.
use native.Mathlib.Decide.{dec_lt}
use ze_sense_server.Prelude.{
  ℕ, zero, suc, ◌+◌, ◌-◌, ◌%◌, ◌^◌, ◌≤◌, ◌<◌, ◌≡◌, ◌⊎◌, inl, inr, refl, ap, sym, ◌∙◌, ◌==◌, ltb,
  if◌then◌else◌, Bool, true, false, List, [], ◌∷◌, length, get_or, arith,
}
use ze_sense_server.Prelude.Result.{ok, read, Returns, Returns->>=}
use ze_sense_server.Manager.Stats.{Extremes, sub64, widen, scan_periods, sum_periods}

pub read-get_or : (xs : List (ℕ × ℕ)) (i : ℕ) → i < length xs → read xs i ≡ ok (get_or xs i (0, 0))
read-get_or [] i h = absurd (omega arith)
read-get_or (x ∷ xs) zero h = refl
read-get_or (x ∷ xs) (suc i) h = read-get_or xs i (omega arith)

-- The time of the sample `i`, and the gap behind it.
abbrev pub gents : List (ℕ × ℕ) → ℕ → ℕ
gents entries i = (get_or entries i (0, 0)).0

abbrev pub gap : List (ℕ × ℕ) → ℕ → ℕ
gap entries i = gents entries (i + 1) - gents entries i

-- `n` gaps that do not run backwards, of times of an `int64_t`, and that fit an `int`.
abbrev pub Calm : List (ℕ × ℕ) → ℕ → Type 0
Calm entries n =
    (i : ℕ)
    → i < n
    → (gents entries i ≤ gents entries (i + 1))
      × (gents entries (i + 1) < 2 ^ 63)
      × (gap entries i < 2 ^ 31)

-- From the extremes `e` to the extremes `r` by the gaps from `k` on.
pub record Spans (f : ℕ → ℕ) (n k : ℕ) (e r : Extremes) : Type 0 where
  pub above : e.max_period ≤ r.max_period
  pub below : r.min_period ≤ e.min_period
  pub covers : (i : ℕ) → k ≤ i → i < k + n → (r.min_period ≤ f i) × (f i ≤ r.max_period)
  pub max_met : (r.max_period ≡ e.max_period) ⊎ ((i : ℕ) × (i < k + n) × (f i ≡ r.max_period))
  pub min_met : (r.min_period ≡ e.min_period) ⊎ ((i : ℕ) × (i < k + n) × (f i ≡ r.min_period))

abbrev pub IsSmall : Extremes → Type 0
IsSmall e = (e.max_period < 2 ^ 31) × (e.min_period < 2 ^ 31)

-- A round on small numbers, in which no conversion loses anything.
pub widen-small :
    (k p : ℕ) (e : Extremes)
    → p < 2 ^ 31
    → IsSmall e
    → let w = widen k p e in
      (w.max_period ≡ (if ltb e.max_period p then p else e.max_period))
      × (w.min_period ≡ (if k == 0 then p else if ltb p e.min_period then p else e.min_period))
unfolding widen
widen-small k p e h s = ground arith

pub chosen : (b : Bool) (x y r : ℕ) → r ≡ (if b then x else y) → (r ≡ x) ⊎ (r ≡ y)
chosen true x y r h = inl h
chosen false x y r h = inr h

-- An extreme after a round is the one before it, the round's own gap, or a later one.
pub met :
    (f : ℕ → ℕ) (n k : ℕ) (b : Bool) (r m m' : ℕ)
    → m' ≡ (if b then f k else m)
    → (r ≡ m') ⊎ ((i : ℕ) × (i < k + 1 + n) × (f i ≡ r))
    → (r ≡ m) ⊎ ((i : ℕ) × (i < k + suc n) × (f i ≡ r))
met f n k b r m m' h (inr later) = inr (later.0, omega (arith, later.1), later.2)
met f n k b r m m' h (inl now) = elim (chosen b (f k) m r (now ∙ h)) [
  | inl own ↦ inr (k, omega arith, sym own)
  | inr old ↦ inl old
]

pub one_more :
    (f : ℕ → ℕ) (n k : ℕ) (e r : Extremes)
    → 0 < k
    → f k < 2 ^ 31
    → IsSmall e
    → Spans f n (k + 1) (widen k (f k) e) r
    → Spans f (suc n) k e r
one_more f n k e r hk h s sp =
    let w = widen-small k (f k) e h s in
    let later : (k == 0) ≡ false = ground arith in
    let small : (widen k (f k) e).min_period
        ≡ (if ltb (f k) e.min_period then f k else e.min_period) =
      w.1
      ∙ ap (λ b. if b then f k else if ltb (f k) e.min_period then f k else e.min_period) later in
    let top = sp.above in
    let bottom = sp.below in
    record {
      above = ground (arith, w.0, top);
      below = ground (arith, small, bottom);
      covers = λ i lo hi. elim (dec_lt k i) [
        | yes after ↦ sp.covers i (omega arith) (omega arith)
        | no here ↦
            let e' : f i ≡ f k = ap f (omega arith) in
            (ground (arith, small, bottom, e'), ground (arith, w.0, top, e'))
      ];
      max_met = met f n k (ltb e.max_period (f k)) r.max_period e.max_period _ w.0 sp.max_met;
      min_met = met f n k (ltb (f k) e.min_period) r.min_period e.min_period _ small sp.min_met;
    }

-- The array that the first loop fills.
unfoldable pub gaps : List (ℕ × ℕ) → (n k : ℕ) → List ℕ
gaps entries zero k = []
gaps entries (suc n) k = gap entries k ∷ gaps entries n (k + 1)

unfoldable pub Scanned : List (ℕ × ℕ) → (n k : ℕ) → Extremes → List ℕ × Extremes → Type 0
Scanned entries n k e r = (r.0 ≡ gaps entries n k) × Spans (gap entries) n k e r.1

pub widen-IsSmall : (k p : ℕ) (e : Extremes) → p < 2 ^ 31 → IsSmall e → IsSmall (widen k p e)
widen-IsSmall k p e h s = ground (arith, widen-small k p e h s)

pub sub64-gap :
    (entries : List (ℕ × ℕ)) (n i : ℕ)
    → Calm entries n
    → i < n
    → sub64 (gents entries (i + 1)) (gents entries i) ≡ gap entries i
sub64-gap entries n i h lt = omega (arith, h i lt)

pub scan-Scanned :
    (entries : List (ℕ × ℕ)) (n k : ℕ) (e : Extremes)
    → 0 < k
    → k + n < length entries
    → Calm entries (k + n)
    → IsSmall e
    → Returns (Scanned entries n k e) (scan_periods entries n k e)
unfolding scan_periods Scanned gaps
scan-Scanned entries zero k e hk h c s = (
  refl,
  record {
    above = omega arith;
    below = omega arith;
    covers = λ i lo hi. absurd (omega arith);
    max_met = inl refl;
    min_met = inl refl;
  },
)
scan-Scanned entries (suc n) k e hk h c s =
    let small = (c k (omega arith)).2 in
    rw
      (
        read-get_or entries (k + 1) (omega arith),
        read-get_or entries k (omega arith),
        sub64-gap entries (k + suc n) k c (omega arith),
      )
      (Returns->>= (Scanned entries n (k + 1) (widen k (gap entries k) e))
        (Scanned entries (suc n) k e) _ _
        (scan-Scanned entries n (k + 1) (widen k (gap entries k) e) (omega arith) (omega arith)
          (λ i lt. c i (omega arith)) (widen-IsSmall k (gap entries k) e small s))
        (λ r pr.
          (ap (λ l. gap entries k ∷ l) pr.0, one_more (gap entries) n k e r.1 hk small s pr.1)))

pub sum_periods-gaps :
    (entries : List (ℕ × ℕ)) (n k incsum : ℕ)
    → Calm entries (k + n)
    → incsum ≤ gents entries k
    → sum_periods (gaps entries n k) incsum + gents entries k ≡ incsum + gents entries (k + n)
unfolding sum_periods gaps
sum_periods-gaps entries zero k incsum c h =
    let e : gents entries (k + 0) ≡ gents entries k = ap (gents entries) (omega arith) in
    omega (arith, e)
sum_periods-gaps entries (suc n) k incsum c h =
    let now = c k (omega arith) in
    let sum : (incsum + gap entries k) % 2 ^ 64 ≡ incsum + gap entries k = omega (arith, now, h) in
    let e : gents entries (k + 1 + n) ≡ gents entries (k + suc n) =
      ap (gents entries) (omega arith) in
    let step : sum_periods (gaps entries (suc n) k) incsum
        ≡ sum_periods (gaps entries n (k + 1)) (incsum + gap entries k) =
      ap (sum_periods (gaps entries n (k + 1))) sum in
    omega (
      arith,
      step,
      sum_periods-gaps entries n (k + 1) (incsum + gap entries k) (λ i lt. c i (omega arith))
          (omega (arith, now, h)),
      now,
      e,
    )
