-- ===== src/Manager/Stats/Printed/Written.antt =====
-- What the statistics of ze_streaming_manager.c write, and that no line overflows `logstr`.
use Prim.Native.String.{String}
use mathlib.Core.List.{append_assoc, append-nil}
use mathlib.Core.Path.{subst}
use ze_sense_server.Prelude.{
  ℕ, zero, suc, ◌+◌, ◌-◌, ◌%◌, ◌^◌, ◌≤◌, ◌<◌, ◌≡◌, refl, sym, ap, List, [], ◌∷◌, ◌++◌, length,
  length-append, get_elem?, none, some, arith,
}
use ze_sense_server.Prelude.Result.{ok, read, Returns, Returns->>=}
use ze_sense_server.Codes.{accelerometer, proximity, gyroscope, light, ze_numsensors, charlen}
use ze_sense_server.LogFile.{LogFile, codes, AllFit, ShortNumbers, write_line-fits, write_lines-fit}
use ze_sense_server.Manager.{Stream, Sensor}
use ze_sense_server.Manager.Loop.{Log, Queues}
use ze_sense_server.Manager.Stats.{Stats, Report, period_stats, statistics}
use ze_sense_server.Manager.Stats.Scanned.{Calm}
use ze_sense_server.Manager.Stats.Summed.{Summed, period_stats-Summed}
use ze_sense_server.Manager.Stats.Printed.{
  Formats, period_line, period_lines, stream_line, log_streams, log_sensor, log_report, log_end,
}

-- A log of samples in order, with gaps that fit an `int`.
pub record IsCalm (l : Log) : Type 0 where
  pub taken : 0 < l.counter
  pub room : l.counter ≤ length l.entries
  pub calm : Calm l.entries (l.counter - 1)

abbrev pub AllCalm : Queues → Type 0
AllCalm q = IsCalm q.accel × IsCalm q.orient × IsCalm q.lights × IsCalm q.prox × IsCalm q.gyro

abbrev pub AllSummed : Queues → Report → Type 0
AllSummed q r =
    Summed q.accel r.accel
    × Summed q.orient r.orient
    × Summed q.lights r.lights
    × Summed q.prox r.prox
    × Summed q.gyro r.gyro

summed : (l : Log) → IsCalm l → Returns (Summed l) (period_stats l)
summed l h = period_stats-Summed l h.taken h.room h.calm

statistics-AllSummed : (q : Queues) → AllCalm q → Returns (AllSummed q) (statistics q)
unfolding statistics
statistics-AllSummed q (ac, oc, lc, pc, gc) =
    let all = AllSummed q in
    Returns->>= (Summed q.accel) all _ _ (summed q.accel ac) (λ a ha.
      Returns->>= (Summed q.orient) all _ _ (summed q.orient oc) (λ o ho.
        Returns->>= (Summed q.lights) all _ _ (summed q.lights lc) (λ l hl.
          Returns->>= (Summed q.prox) all _ _ (summed q.prox pc) (λ p hp.
            Returns->>= (Summed q.gyro) all _ _ (summed q.gyro gc)
              (λ g hg. (ha, ho, hl, hp, hg))))))

abbrev pub streams_of : List Sensor → ℕ → List Stream
streams_of ss k = elim (get_elem? ss k) [ none ↦ [] | some s ↦ s.streams ]

read-streams_of :
    (ss : List Sensor) (k : ℕ)
    → k < length ss
    → (s : Sensor) × (read ss k ≡ ok s) × (streams_of ss k ≡ s.streams)
read-streams_of [] k h = absurd (omega arith)
read-streams_of (s ∷ ss) zero h = (s, refl, refl)
read-streams_of (s ∷ ss) (suc k) h = read-streams_of ss k (omega arith)

-- What the printing of numbers leaves of a line.
pub record Fits (w : Formats) : Type 0 where
  pub ints : ShortNumbers w.print_d
  pub averages : (incsum divisor : ℕ) → length (w.print_average incsum divisor) < charlen
  pub periods : (period : ℕ) → length (w.print_period period) < charlen

module _ (w : Formats) where
  -- The lines as they are to read.
  abbrev pub period_text : String → Log → Stats → List ℕ
  period_text name l st =
      codes name
      ++ codes " periods average "
      ++ w.print_average st.incsum ((l.counter + 2 ^ 32 - 1) % 2 ^ 32)
      ++ codes ", max:"
      ++ w.print_period st.extremes.max_period
      ++ codes ", min:"
      ++ w.print_period st.extremes.min_period
      ++ codes "\n"

  abbrev pub period_texts : Queues → Report → List (List ℕ)
  period_texts q r =
      period_text "Accel" q.accel r.accel
      ∷ period_text "Orient" q.orient r.orient
      ∷ period_text "Light" q.lights r.lights
      ∷ period_text "Prox" q.prox r.prox
      ∷ period_text "Gyro" q.gyro r.gyro
      ∷ []

  abbrev pub stream_text : String → ℕ → Stream → List ℕ
  stream_text name si sf =
      codes name
      ++ codes " stream "
      ++ w.print_d si
      ++ codes ", samples sent:"
      ++ w.print_d sf.samples_sent
      ++ codes "\n"

  -- The streams of a sensor with their numbers, from `si` on.
  abbrev pub stream_lines : String → ℕ → List Stream → List (List ℕ)
  stream_lines name si [] = []
  stream_lines name si (sf ∷ ss) = stream_text name si sf ∷ stream_lines name (suc si) ss

  abbrev pub end_lines : Queues → Report → List (List ℕ)
  end_lines q r =
      codes "-- Streaming Manager stats start ----\n" ∷ period_texts q r
      ++ stream_lines "Accelerometer" 1 (streams_of q.sensors accelerometer)
      ++ stream_lines "Proximity" 1 (streams_of q.sensors proximity)
      ++ stream_lines "Gyroscope" 1 (streams_of q.sensors gyroscope)
      ++ stream_lines "Light" 1 (streams_of q.sensors light)
      ++ codes "-- Streaming Manager stats end -----\n\n" ∷ []

  length-period_line :
      (name : String) (l : Log) (st : Stats)
      → Fits w
      → length (codes name) ≤ 6
      → length (period_line w name l st) < 100
  length-period_line name l st fits short =
      let average = w.print_average st.incsum ((l.counter + 2 ^ 32 - 1) % 2 ^ 32) in
      let greatest = w.print_period st.extremes.max_period in
      let least = w.print_period st.extremes.min_period in
      let x1 = codes name ++ codes " periods average " in
      let x2 = x1 ++ average ++ codes ", max:" in
      let x3 = x2 ++ greatest ++ codes ", min:" in
      omega (
        arith,
        length-append (codes name) (codes " periods average "),
        length-append (x1 ++ average) (codes ", max:"),
        length-append x1 average,
        length-append (x2 ++ greatest) (codes ", min:"),
        length-append x2 greatest,
        length-append (x3 ++ least) (codes "\n"),
        length-append x3 least,
        fits.averages st.incsum ((l.counter + 2 ^ 32 - 1) % 2 ^ 32),
        fits.periods st.extremes.max_period,
        fits.periods st.extremes.min_period,
      )

  length-stream_line :
      (name : String) (si : ℕ) (sf : Stream)
      → Fits w
      → length (codes name) ≤ 13
      → length (stream_line w name si sf) < 100
  length-stream_line name si sf fits short =
      let x1 = codes name ++ codes " stream " in
      let x2 = x1 ++ w.print_d si ++ codes ", samples sent:" in
      omega (
        arith,
        length-append (codes name) (codes " stream "),
        length-append (x1 ++ w.print_d si) (codes ", samples sent:"),
        length-append x1 (w.print_d si),
        length-append (x2 ++ w.print_d sf.samples_sent) (codes "\n"),
        length-append x2 (w.print_d sf.samples_sent),
        fits.ints si,
        fits.ints sf.samples_sent,
      )

  log_streams-Written :
      (name : String) (ss : List Stream) (si : ℕ) (logfd : LogFile)
      → Fits w
      → length (codes name) ≤ 13
      → log_streams w name ss si logfd ≡ ok (logfd ++ stream_lines name si ss)
  unfolding log_streams
  log_streams-Written name [] si logfd fits short = ap ok (sym (append-nil logfd))
  log_streams-Written name (sf ∷ ss) si logfd fits short =
      let line = stream_line w name si sf in
      rw
        (
          write_line-fits line logfd (length-stream_line name si sf fits short),
          log_streams-Written name ss (suc si) (logfd ++ line ∷ []) fits short,
        )
        (simp append_assoc)

  period_lines-AllFit : (q : Queues) (r : Report) → Fits w → AllFit (period_lines w q r)
  period_lines-AllFit q r fits =
      let fit = length-period_line in
      (
        fit "Accel" q.accel r.accel fits (omega arith),
        (
          fit "Orient" q.orient r.orient fits (omega arith),
          (
            fit "Light" q.lights r.lights fits (omega arith),
            (
              fit "Prox" q.prox r.prox fits (omega arith),
              (fit "Gyro" q.gyro r.gyro fits (omega arith), tt),
            ),
          ),
        ),
      )

  log_sensor-Written :
      (name : String) (k : ℕ) (sensors : List Sensor) (logfd : LogFile)
      → Fits w
      → length (codes name) ≤ 13
      → k < length sensors
      → log_sensor w name k sensors logfd ≡ ok (logfd ++ stream_lines name 1 (streams_of sensors k))
  unfolding log_sensor
  log_sensor-Written name k sensors logfd fits short h =
      let (s, e, same) = read-streams_of sensors k h in
      rw (e, same) (log_streams-Written name s.streams 1 logfd fits short)

  log_report-Written :
      (q : Queues) (r : Report) (logfd : LogFile)
      → Fits w
      → length q.sensors ≡ ze_numsensors
      → log_report w q r logfd ≡ ok (logfd ++ end_lines q r)
  unfolding log_report
  log_report-Written q r logfd fits all =
      let start = codes "-- Streaming Manager stats start ----\n" in
      let last = codes "-- Streaming Manager stats end -----\n\n" in
      let a = logfd ++ start ∷ [] in
      let b = a ++ period_lines w q r in
      let c = b ++ stream_lines "Accelerometer" 1 (streams_of q.sensors accelerometer) in
      let d = c ++ stream_lines "Proximity" 1 (streams_of q.sensors proximity) in
      let e = d ++ stream_lines "Gyroscope" 1 (streams_of q.sensors gyroscope) in
      let f = e ++ stream_lines "Light" 1 (streams_of q.sensors light) in
      rw
        (
          write_line-fits start logfd (omega arith),
          write_lines-fit (period_lines w q r) a (period_lines-AllFit q r fits),
          log_sensor-Written "Accelerometer" accelerometer q.sensors b fits (omega arith)
              (omega (arith, all)),
          log_sensor-Written "Proximity" proximity q.sensors c fits (omega arith)
              (omega (arith, all)),
          log_sensor-Written "Gyroscope" gyroscope q.sensors d fits (omega arith)
              (omega (arith, all)),
          log_sensor-Written "Light" light q.sensors e fits (omega arith) (omega (arith, all)),
          write_line-fits last f (omega arith),
        )
        (simp append_assoc)

  -- The log file at the end, with the statistics that its lines print.
  pub record Ended (q : Queues) (logfd f : LogFile) : Type 0 where
    report : Report
    summed : AllSummed q report
    written : f ≡ logfd ++ end_lines q report

  -- With five logs that each hold a sample, in order, with gaps that fit an int, all sensors of the
  -- manager, and numbers that print in the space that a float has, or in eleven characters for an
  -- int, the statistics of the Streaming Manager do not fault: no line overflows the hundred
  -- characters of `logstr`. What is added to the log file is the first line, a line for each of the
  -- five logs, of what is printed for the quotient of the sum of its gaps and for the greatest and
  -- the least of them, a line for every stream of four of the sensors, numbered from one on for
  -- each, and the last line.
  pub log_end-Ended :
      (q : Queues) (logfd : LogFile)
      → AllCalm q
      → length q.sensors ≡ ze_numsensors
      → Fits w
      → Returns (Ended q logfd) (log_end w q logfd)
  unfolding log_end
  log_end-Ended q logfd calm all fits =
      Returns->>= (AllSummed q) (Ended q logfd) (statistics q) _ (statistics-AllSummed q calm)
        (λ r h.
          subst (Returns (Ended q logfd)) (sym (log_report-Written q r logfd fits all))
            (record { report = r; summed = h; written = refl }))
