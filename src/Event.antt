-- ===== src/Event.antt =====
-- `ASensorEvent` of the Android NDK, as far as the server reads it.
use ze_sense_server.Prelude.{ℕ}

-- `kind` is the field `type`. The three floats are the first of the union: `distance` and `light`
-- are the first one, a vector's x, y and z (azimuth, pitch and roll) all three. A float is its
-- 32-bit pattern: the server only copies and prints it.
pub record Event : Type 0 where
  pub kind : ℕ
  pub timestamp : ℕ
  pub v0 : ℕ
  pub v1 : ℕ
  pub v2 : ℕ

-- What `memset` leaves.
abbrev pub zero_event : Event
zero_event = record { kind = 0; timestamp = 0; v0 = 0; v1 = 0; v2 = 0 }
