-- ===== src/Manager/Invariant.antt =====
-- What holds of a sensor of the Streaming Manager between two operations.
use ze_sense_server.Prelude.{ℕ, ◌<◌, ◌≤◌, ◌≡◌, refl, false, List, [], length, arith}
use ze_sense_server.Codes.{repetition_off, source_buffer_size}
use ze_sense_server.Manager.{Stream, Sensor, zero_sensor}
use ze_sense_server.Manager.Sensors.Flags.{Handled}
use ze_sense_server.Manager.Streams.Lists.{Distinct, All, All-map}

-- A stream on a sensor that delivers at `freq`: its own frequency is no higher, its buffers have
-- their size, and between two samples they are empty.
pub record IsReady (freq : ℕ) (t : Stream) : Type 0 where
  pub positive : 0 < t.freq
  pub covered : t.freq ≤ freq
  pub single : t.repeat ≡ repetition_off
  pub level : t.event_buffer_level ≡ 0
  pub slots : length t.event_buffer ≡ source_buffer_size
  pub rtp_slots : length t.event_rtpts_buffer ≡ source_buffer_size

-- Tickets are distinct, every stream is covered by the sensor's frequency, an inactive sensor
-- serves nobody, and an active one has its handle.
pub record IsValid (sensor : ℕ) (s : Sensor) : Type 0 where
  pub distinct : Distinct s.streams
  pub ready : All (IsReady s.freq) s.streams
  pub idle : s.is_active ≡ false → (s.streams ≡ []) × (s.oneshots ≡ [])
  pub handled : Handled sensor s

pub IsReady-mono : {m n : ℕ} (t : Stream) → m ≤ n → IsReady m t → IsReady n t
IsReady-mono t h r = record {
  positive = r.positive;
  covered = omega (arith, r.covered);
  single = r.single;
  level = r.level;
  slots = r.slots;
  rtp_slots = r.rtp_slots;
}

pub All-IsReady-mono : {m n : ℕ} (l : List Stream) → m ≤ n → All (IsReady m) l → All (IsReady n) l
All-IsReady-mono {m} {n} l h = All-map (IsReady m) (IsReady n) l (λ t. IsReady-mono t h)

pub zero_sensor-IsValid : (i : ℕ) → IsValid i (zero_sensor i)
zero_sensor-IsValid i = record {
  distinct = tt;
  ready = tt;
  idle = λ h. (refl, refl);
  handled = λ h. cc;
}
