-- ===== src/Carrier/Period.antt =====
-- The sleep of a carrier thread between two events, by the frequency of its sensor, and the
-- clock of ze_timing.c.
use ze_sense_server.Prelude.{ℕ, ◌+◌, ◌*◌, ◌%◌, ◌^◌, ◌≡◌, refl, ◌==◌, if◌then◌else◌}
use ze_sense_server.Prelude.Result.{Result, ok, fault, bad_conversion}
use ze_sense_server.Double.{Double, doublings, quotient, whole, fraction}

-- `struct timespec`.
pub record Timespec : Type 0 where
  pub tv_sec : ℕ
  pub tv_nsec : ℕ

-- What `get_ntp` makes of the time that `clock_gettime` has filled in: an `int64_t`.
unfoldable pub get_ntp : Timespec → ℕ
get_ntp t = (t.tv_sec * 1_000_000_000 + t.tv_nsec) % 2 ^ 64

-- The period in seconds, its decimal part, and that in nanoseconds.
abbrev pub period : ℕ → Double
period fr = quotient doublings 1 fr 0

abbrev pub decpart : ℕ → Double
decpart fr = fraction (period fr)

abbrev pub scaled : Double → Double
scaled d = quotient doublings (d.mantissa * 1_000_000_000) (2 ^ d.places) 0

-- The period of the frequency zero is infinite, and its cast to an `int` is undefined.
unfoldable pub sleep_time : ℕ → Result Timespec
sleep_time fr =
    if fr == 0
    then fault bad_conversion
    else ok (record { tv_sec = whole (period fr); tv_nsec = whole (scaled (decpart fr)) })

sleeps_ten : sleep_time 10 ≡ ok (record { tv_sec = 0; tv_nsec = 100_000_000 })
unfolding sleep_time quotient
sleeps_ten = refl
