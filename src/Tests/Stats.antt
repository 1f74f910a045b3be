-- ===== src/Tests/Stats.antt =====
-- The statistics of a few samples.
use ze_sense_server.Prelude.{zero, suc, ◌+◌, ◌≤◌, ◌^◌, ◌≡◌, [], ◌∷◌, arith}
use ze_sense_server.Prelude.Result.{Returns}
use ze_sense_server.Manager.Loop.{Log}
use ze_sense_server.Manager.Stats.{period_stats}
use ze_sense_server.Manager.Stats.Scanned.{Calm}
use ze_sense_server.Manager.Stats.Summed.{Summed, period_stats-Summed, long_gap_negative}

abbrev pub three : Log
three = record { entries = (100, 1) ∷ (350, 2) ∷ (500, 3) ∷ (0, 0) ∷ []; counter = 3 }

pub three-Calm : Calm three.entries 2
three-Calm zero h = omega arith
three-Calm (suc zero) h = omega arith
three-Calm (suc (suc i)) h = absurd (omega arith)

period_stats-Summed_example : Returns (Summed three) (period_stats three)
period_stats-Summed_example = period_stats-Summed three (omega arith) (omega arith) three-Calm

long_gap :
    Returns
      (λ s. (s.periods ≡ 3_000_000_000 ∷ []) × (2 ^ 31 ≤ s.extremes.max_period))
      (period_stats (record { entries = (7, 1) ∷ (7 + 3_000_000_000, 2) ∷ []; counter = 2 }))
long_gap = long_gap_negative 7 3_000_000_000 1 2 [] (omega arith) (omega arith) (omega arith)
