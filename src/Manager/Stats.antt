-- ===== src/Manager/Stats.antt =====
-- The end of the thread of ze_streaming_manager.c: the statistics of the periods between the
-- logged samples.
pub mod Scanned
pub mod Summed
pub mod Printed
use ze_sense_server.Prelude.{
  ℕ, zero, suc, ◌+◌, ◌-◌, ◌%◌, ◌^◌, ◌==◌, ltb, Bool, if◌then◌else◌, List, [], ◌∷◌,
}
use ze_sense_server.Prelude.Result.{Result, ok, ◌>>=◌, read}
use ze_sense_server.Manager.Loop.{Log, Queues}

-- An `int64_t` and an `int` are their bit patterns. The difference of two times, the comparison of
-- two `int64_t`, the conversion to an `int`, and the one from an `int`.
abbrev pub sub64 : ℕ → ℕ → ℕ
sub64 a b = (a + 2 ^ 64 - b) % 2 ^ 64

abbrev pub less64 : ℕ → ℕ → Bool
less64 a b = ltb ((a + 2 ^ 63) % 2 ^ 64) ((b + 2 ^ 63) % 2 ^ 64)

abbrev pub to_int : ℕ → ℕ
to_int a = a % 2 ^ 32

abbrev pub from_int : ℕ → ℕ
from_int a = if ltb a (2 ^ 31) then a else a + (2 ^ 64 - 2 ^ 32)

pub record Extremes : Type 0 where
  pub max_period : ℕ
  pub min_period : ℕ

-- One round of the first loop, once its period is known.
unfoldable pub widen : (k period : ℕ) → Extremes → Extremes
widen k period e =
    let min0 = if k == 0 then to_int period else e.min_period in
    record {
      max_period = if less64 (from_int e.max_period) period then to_int period else e.max_period;
      min_period = if less64 period (from_int min0) then to_int period else min0;
    }

-- The first loop, from the index `k` on for `n` rounds, with the array of periods that it fills.
unfoldable pub scan_periods : List (ℕ × ℕ) → (n k : ℕ) → Extremes → Result (List ℕ × Extremes)
scan_periods entries zero k e = ok ([], e)
scan_periods entries (suc n) k e = do
  next ← read entries (k + 1)
  this ← read entries k
  let period = sub64 next.0 this.0
  (periods, e') ← scan_periods entries n (k + 1) (widen k period e)
  ok (period ∷ periods, e')

-- The second loop.
unfoldable pub sum_periods : List ℕ → (incsum : ℕ) → ℕ
sum_periods [] incsum = incsum
sum_periods (p ∷ ps) incsum = sum_periods ps ((incsum + p) % 2 ^ 64)

-- What is logged of a sensor type; the average is `incsum` by one less than the samples taken.
pub record Stats : Type 0 where
  pub periods : List ℕ
  pub extremes : Extremes
  pub incsum : ℕ

unfoldable pub period_stats : Log → Result Stats
period_stats l = do
  (periods, e) ←
      scan_periods l.entries (l.counter - 1) 0 (record { max_period = 0; min_period = 0 })
  ok (record { periods = periods; extremes = e; incsum = sum_periods periods 0 })

pub record Report : Type 0 where
  pub accel : Stats
  pub orient : Stats
  pub lights : Stats
  pub prox : Stats
  pub gyro : Stats

unfoldable pub statistics : Queues → Result Report
statistics q = do
  accel ← period_stats q.accel
  orient ← period_stats q.orient
  lights ← period_stats q.lights
  prox ← period_stats q.prox
  gyro ← period_stats q.gyro
  ok (record { accel = accel; orient = orient; lights = lights; prox = prox; gyro = gyro })
