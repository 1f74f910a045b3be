-- ===== src/Manager.antt =====
-- The state of ze_streaming_manager.c and .h, and what the module takes from its surroundings.
pub mod Sensors
pub mod Streams
pub mod Ledger
pub mod Invariant
pub mod Helpers
pub mod Requests
pub mod Dispatch
pub mod Runs
pub mod Loop
pub mod Thread
pub mod Stats
pub mod Prepare
use ze_sense_server.Prelude.{
  ℕ, Bool, true, false, List, [], ◌∷◌, Option, none, some, length, replicate, set, zero, suc, ◌+◌,
}
use ze_sense_server.Prelude.Utlist.{Utlist}
use ze_sense_server.Prelude.Result.{Result, ok, fault, ◌>>=◌, read}
use ze_sense_server.Codes.{ze_numsensors, source_buffer_size}
use ze_sense_server.Event.{Event, zero_event}
use ze_sense_server.Encode.{Packet}
use ze_sense_server.ResBuf.{Response}
use ze_sense_server.ReqBuf.{Request}

-- `ze_stream_t`, without its `next`. The two buffers are arrays of SOURCE_BUFFER_SIZE.
pub record Stream : Type 0 where
  pub reg : ℕ
  pub event_buffer : List Event
  pub event_rtpts_buffer : List ℕ
  pub event_buffer_level : ℕ
  pub freq : ℕ
  pub retransmit : ℕ
  pub repeat : ℕ
  pub last_wts : ℕ
  pub last_rtpts : ℕ
  pub freq_div : ℕ
  pub samples_sent : ℕ

-- `ze_sensor_t`, without the handles that never change, the mutex, and the two status variables
-- that no function reads or writes. A oneshot is the ticket that it holds. Frequencies come from
-- the requests and are not negative.
pub record Sensor : Type 0 where
  pub sensor : ℕ
  pub android_handle : Option ℕ
  pub carrier_thread_started : Bool
  pub is_active : Bool
  pub event_cache : Event
  pub cache_valid : Bool
  pub streams : List Stream
  pub oneshots : List ℕ
  pub freq : ℕ

-- A sensor after `memset` and the assignment of its type.
abbrev pub zero_sensor : ℕ → Sensor
zero_sensor i = record {
  sensor = i;
  android_handle = none;
  carrier_thread_started = false;
  is_active = false;
  event_cache = zero_event;
  cache_valid = false;
  streams = [];
  oneshots = [];
  freq = 0;
}

-- What the module does to its surroundings, in the order in which it does it: calls of Android
-- and of the GPS manager, the start of a carrier thread, and a response handed to
-- `put_response_helper`.
pub data Effect : Type 0 where
  enable_sensor : ℕ → Effect
  set_event_rate : Option ℕ → ℕ → Effect
  disable_sensor : Option ℕ → Effect
  gps_start gps_change gps_stop : Effect
  start_carrier : ℕ → Effect
  respond : Response Packet → Effect

-- The allocations of the module.
pub data Alloc : Type 0 where
  a_stream a_oneshot a_packet a_payload : Alloc

-- What the surroundings answer during one operation: Android, the GPS manager, threads, memory,
-- the random numbers, the clock, the printing of floats, and the list macros.
pub record Platform : Type 0 where
  pub default_sensor : ℕ → Option ℕ
  pub rate_fails : Option ℕ → ℕ → Bool
  pub disable_fails : Option ℕ → Bool
  pub gps_started : Bool
  pub gps_changed : Bool
  pub gps_stopped : Bool
  pub thread_created : ℕ → Bool
  pub malloc : Alloc → Bool
  pub random : ℕ
  pub ntp : ℕ
  pub print_e : ℕ → List ℕ
  pub stream_list : Utlist Stream
  pub oneshot_list : Utlist ℕ

-- What an operation on a sensor leaves: the sensor, what it did, and what it returned.
pub record Done {ℓ} (R : Type ℓ) : Type ℓ where
  pub sensor : Sensor
  pub effects : List Effect
  pub result : R

-- The responses among the effects, in their order.
unfoldable pub responses : List Effect → List (Response Packet)
responses [] = []
responses (respond r ∷ es) = r ∷ responses es
responses (_ ∷ es) = responses es
