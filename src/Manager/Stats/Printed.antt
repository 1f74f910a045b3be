-- ===== src/Manager/Stats/Printed.antt =====
-- The end of the thread of ze_streaming_manager.c: its statistics, as they go to the log file.
pub mod Written
use Prim.Native.String.{String}
use ze_sense_server.Prelude.{ℕ, suc, ◌+◌, ◌-◌, ◌%◌, ◌^◌, List, [], ◌∷◌, ◌++◌}
use ze_sense_server.Prelude.Result.{Result, ok, ◌>>=◌, read}
use ze_sense_server.Codes.{accelerometer, proximity, gyroscope, light}
use ze_sense_server.LogFile.{LogFile, codes, write_line, write_lines}
use ze_sense_server.Manager.{Stream, Sensor}
use ze_sense_server.Manager.Loop.{Log, Queues}
use ze_sense_server.Manager.Stats.{Extremes, Stats, Report, statistics}

-- What `sprintf` prints: "%d" of an `int`, "%e" of the quotient of an `int64_t` by an `int` in the
-- arithmetic of double, and "%e" of an `int` as a double. All are their bit patterns.
pub record Formats : Type 0 where
  pub print_d : ℕ → List ℕ
  pub print_average : (incsum divisor : ℕ) → List ℕ
  pub print_period : ℕ → List ℕ

module _ (w : Formats) where
  abbrev pub period_line : String → Log → Stats → List ℕ
  period_line name l st =
      codes name
      ++ codes " periods average "
      ++ w.print_average st.incsum ((l.counter + 2 ^ 32 - 1) % 2 ^ 32)
      ++ codes ", max:"
      ++ w.print_period st.extremes.max_period
      ++ codes ", min:"
      ++ w.print_period st.extremes.min_period
      ++ codes "\n"

  abbrev pub period_lines : Queues → Report → List (List ℕ)
  period_lines q r =
      period_line "Accel" q.accel r.accel
      ∷ period_line "Orient" q.orient r.orient
      ∷ period_line "Light" q.lights r.lights
      ∷ period_line "Prox" q.prox r.prox
      ∷ period_line "Gyro" q.gyro r.gyro
      ∷ []

  abbrev pub stream_line : String → ℕ → Stream → List ℕ
  stream_line name si sf =
      codes name
      ++ codes " stream "
      ++ w.print_d si
      ++ codes ", samples sent:"
      ++ w.print_d sf.samples_sent
      ++ codes "\n"

  -- The loop over the streams of a sensor.
  unfoldable pub log_streams : String → List Stream → (si : ℕ) → LogFile → Result LogFile
  log_streams name [] si logfd = ok logfd
  log_streams name (sf ∷ ss) si logfd = do
    f ← write_line (stream_line name si sf) logfd
    log_streams name ss (suc si) f

  -- The loop over the streams of a sensor of the manager.
  unfoldable pub log_sensor : String → (k : ℕ) → List Sensor → LogFile → Result LogFile
  log_sensor name k sensors logfd = do s ← read sensors k; log_streams name s.streams 1 logfd

  -- What is printed between the two locks of the mutex of the log file.
  unfoldable pub log_report : Queues → Report → LogFile → Result LogFile
  log_report q r logfd = do
    a ← write_line (codes "-- Streaming Manager stats start ----\n") logfd
    b ← write_lines (period_lines q r) a
    c ← log_sensor "Accelerometer" accelerometer q.sensors b
    d ← log_sensor "Proximity" proximity q.sensors c
    e ← log_sensor "Gyroscope" gyroscope q.sensors d
    f ← log_sensor "Light" light q.sensors e
    write_line (codes "-- Streaming Manager stats end -----\n\n") f

  unfoldable pub log_end : Queues → LogFile → Result LogFile
  log_end q logfd = do r ← statistics q; log_report q r logfd
