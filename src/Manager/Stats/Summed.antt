-- ===== src/Manager/Stats/Summed.antt =====
-- What the statistics say of the logged times.
use native.Mathlib.Decide.{dec_lt}
use ze_sense_server.Prelude.{
  ℕ, zero, suc, ◌+◌, ◌-◌, ◌^◌, ◌≤◌, ◌<◌, ◌≡◌, ◌⊎◌, inl, inr, refl, ap, sym, ◌∙◌, List, [], ◌∷◌,
  length, arith,
}
use ze_sense_server.Prelude.Result.{Returns, Returns->>=}
use ze_sense_server.Manager.Loop.{Log}
use ze_sense_server.Manager.Stats.{
  Extremes, Stats, sub64, widen, scan_periods, sum_periods, period_stats,
}
use ze_sense_server.Manager.Stats.Scanned.{
  read-get_or, gents, gap, Calm, widen-small, met, gaps, Scanned, widen-IsSmall, sub64-gap,
  scan-Scanned, sum_periods-gaps,
}

-- The statistics of a log.
pub record Summed (l : Log) (s : Stats) : Type 0 where
  pub periods : s.periods ≡ gaps l.entries (l.counter - 1) 0
  pub covers :
      (i : ℕ)
      → i < l.counter - 1
      → (s.extremes.min_period ≤ gap l.entries i) × (gap l.entries i ≤ s.extremes.max_period)
  pub max_met :
      (l.counter ≡ 1) ⊎ ((i : ℕ) × (i < l.counter - 1) × (gap l.entries i ≡ s.extremes.max_period))
  pub min_met :
      (l.counter ≡ 1) ⊎ ((i : ℕ) × (i < l.counter - 1) × (gap l.entries i ≡ s.extremes.min_period))
  pub incsum : s.incsum + gents l.entries 0 ≡ gents l.entries (l.counter - 1)

-- What the first loop leaves in all.
record Whole (entries : List (ℕ × ℕ)) (n : ℕ) (r : List ℕ × Extremes) : Type 0 where
  periods : r.0 ≡ gaps entries n 0
  covers : (i : ℕ) → i < n → (r.1.min_period ≤ gap entries i) × (gap entries i ≤ r.1.max_period)
  max_met : (n ≡ 0) ⊎ ((i : ℕ) × (i < n) × (gap entries i ≡ r.1.max_period))
  min_met : (n ≡ 0) ⊎ ((i : ℕ) × (i < n) × (gap entries i ≡ r.1.min_period))

abbrev zero_extremes : Extremes
zero_extremes = record { max_period = 0; min_period = 0 }

first_round :
    (p : ℕ)
    → p < 2 ^ 31
    → let w = widen 0 p zero_extremes in (w.max_period ≡ p) × (w.min_period ≡ p)
first_round p h = ground (arith, widen-small 0 p zero_extremes h)

-- Where the seed is the first gap, an extreme is some gap.
seeded :
    (f : ℕ → ℕ) (n r m : ℕ)
    → m ≡ f 0
    → (r ≡ m) ⊎ ((i : ℕ) × (i < 1 + n) × (f i ≡ r))
    → (i : ℕ) × (i < suc n) × (f i ≡ r)
seeded f n r m h (inl e) = (0, omega arith, sym (e ∙ h))
seeded f n r m h (inr later) = (later.0, omega (arith, later.1), later.2)

all_rounds :
    (entries : List (ℕ × ℕ)) (n : ℕ) (r : List ℕ × Extremes)
    → let w = widen 0 (gap entries 0) zero_extremes in
      (w.max_period ≡ gap entries 0) × (w.min_period ≡ gap entries 0)
      → Scanned entries n 1 w r
      → Whole entries (suc n) (gap entries 0 ∷ r.0, r.1)
unfolding Scanned gaps
all_rounds entries n r first pr =
    let sp = pr.1 in
    let f = gap entries in
    record {
      periods = ap (λ l. f 0 ∷ l) pr.0;
      covers = λ i lt. elim (dec_lt 0 i) [
        | yes later ↦ sp.covers i (omega arith) (omega arith)
        | no here ↦
            let z : i ≡ 0 = omega arith in
            let e : f i ≡ f 0 = ap f z in
            (omega (arith, e, first.1, sp.below), omega (arith, e, first.0, sp.above))
      ];
      max_met = inr (seeded f n r.1.max_period _ first.0 sp.max_met);
      min_met = inr (seeded f n r.1.min_period _ first.1 sp.min_met);
    }

scan-Whole :
    (entries : List (ℕ × ℕ)) (n : ℕ)
    → n < length entries
    → Calm entries n
    → Returns (Whole entries n) (scan_periods entries n 0 zero_extremes)
unfolding scan_periods gaps
scan-Whole entries zero h c = record {
  periods = refl;
  covers = λ i lt. absurd (omega arith);
  max_met = inl refl;
  min_met = inl refl;
}
scan-Whole entries (suc n) h c =
    let f = gap entries in
    let small = (c 0 (omega arith)).2 in
    let w = widen 0 (f 0) zero_extremes in
    let first = first_round (f 0) small in
    rw
      (
        read-get_or entries 1 (omega arith),
        read-get_or entries 0 (omega arith),
        sub64-gap entries (suc n) 0 c (omega arith),
      )
      (Returns->>= (Scanned entries n 1 w) (Whole entries (suc n)) _ _
        (scan-Scanned entries n 1 w (omega arith) (omega arith) (λ i lt. c i (omega arith))
          (widen-IsSmall 0 (f 0) zero_extremes small (omega arith)))
        (λ r pr. all_rounds entries n r first pr))

some_gap : {A : Type 0} (n : ℕ) → 0 < n → (n - 1 ≡ 0) ⊎ A → (n ≡ 1) ⊎ A
some_gap n pos (inl none) = inl (omega arith)
some_gap n pos (inr met) = inr met

-- A log of samples in order, in time and with gaps that fit an int, gives statistics without a
-- fault: the array holds the gaps in order, the extremes bound every gap, each is one of the gaps
-- unless there is only one sample, and the sum is the time from the first sample to the last.
pub period_stats-Summed :
    (l : Log)
    → 0 < l.counter
    → l.counter ≤ length l.entries
    → Calm l.entries (l.counter - 1)
    → Returns (Summed l) (period_stats l)
unfolding period_stats
period_stats-Summed l pos h c =
    Returns->>= (Whole l.entries (l.counter - 1)) (Summed l) _ _
      (scan-Whole l.entries (l.counter - 1) (omega arith) c)
      (λ r w. record {
        periods = w.periods;
        covers = w.covers;
        max_met = some_gap l.counter pos w.max_met;
        min_met = some_gap l.counter pos w.min_met;
        incsum =
            let last : gents l.entries (0 + (l.counter - 1)) ≡ gents l.entries (l.counter - 1) =
              ap (gents l.entries) (omega arith) in
            let sum : sum_periods r.0 0 ≡ sum_periods (gaps l.entries (l.counter - 1) 0) 0 =
              ap (λ ps. sum_periods ps 0) w.periods in
            omega (
              arith,
              last,
              sum,
              sum_periods-gaps l.entries (l.counter - 1) 0 0 (λ i lt. c i (omega arith))
                  (omega arith),
            );
      })

wide : (g : ℕ) → 2 ^ 31 ≤ g → g < 2 ^ 32 → 2 ^ 31 ≤ (widen 0 g zero_extremes).max_period
unfolding widen
wide g lo hi = ground arith

-- A gap between two samples that does not fit an int, from 2 ^ 31 nanoseconds on and below
-- 2 ^ 32, is in the array of the periods, but the maximum that is kept of it is a negative int.
pub long_gap_negative :
    (t g c c' : ℕ) (rest : List (ℕ × ℕ))
    → t + g < 2 ^ 63
    → 2 ^ 31 ≤ g
    → g < 2 ^ 32
    → Returns
        (λ s. (s.periods ≡ g ∷ []) × (2 ^ 31 ≤ s.extremes.max_period))
        (period_stats (record { entries = (t, c) ∷ (t + g, c') ∷ rest; counter = 2 }))
unfolding period_stats scan_periods
long_gap_negative t g c c' rest h lo hi =
    let p : sub64 (t + g) t ≡ g = omega arith in rw p (refl, wide g lo hi)
