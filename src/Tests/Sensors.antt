-- ===== src/Tests/Sensors.antt =====
-- The Streaming Manager's theorems at one accelerometer.
use ze_sense_server.Prelude.{
  ◌⊎◌, none, ℕ, ◌<◌, ◌≤◌, ◌≡◌, ◌≢◌, refl, inl, true, false, List, [], ◌∷◌, some, replicate, arith,
}
use ze_sense_server.Prelude.Result.{ok, fault, null_pointer, Returns}
use ze_sense_server.Codes.{accelerometer, source_buffer_size, con, repetition_off}
use ze_sense_server.Event.{zero_event}
use ze_sense_server.Manager.{Stream, Sensor, a_stream, zero_sensor}
use ze_sense_server.Manager.Invariant.{IsReady, IsValid, zero_sensor-IsValid}
use ze_sense_server.Manager.Streams.{find_stream, sm_start_stream, sm_stop_stream}
use ze_sense_server.Manager.Streams.Start.{Started, start_stream-Answered}
use ze_sense_server.Manager.Streams.Stop.{Stopped, stop_stream-Stopped, stop_stream_pending_faults}
use ze_sense_server.Manager.Streams.Lists.{remove}
use ze_sense_server.Manager.Dispatch.Sent.{Sent}
use ze_sense_server.Manager.Runs.{Act, a_request, an_event, run}
use ze_sense_server.Manager.Runs.Balance.{Ran, run-Ran}
use ze_sense_server.Tests.{
  platform, platform-Works, platform-Able, start_request, oneshot_request, sample,
}

abbrev fresh : Sensor
fresh = zero_sensor accelerometer

abbrev a_stream_at : ℕ → ℕ → Stream
a_stream_at reg freq = record {
  reg = reg;
  event_buffer = replicate source_buffer_size zero_event;
  event_rtpts_buffer = replicate source_buffer_size 0;
  event_buffer_level = 0;
  freq = freq;
  retransmit = con;
  repeat = repetition_off;
  last_wts = 0;
  last_rtpts = 442;
  freq_div = 0;
  samples_sent = 0;
}

-- Two streams, and a oneshot that is pending.
abbrev busy : Sensor
busy = record {
  sensor = accelerometer;
  android_handle = some 1;
  carrier_thread_started = false;
  is_active = true;
  event_cache = zero_event;
  cache_valid = false;
  streams = a_stream_at 7 50 ∷ a_stream_at 8 20 ∷ [];
  oneshots = 9 ∷ [];
  freq = 50;
}

at_most_50 : (reg freq : ℕ) → 0 < freq → freq ≤ 50 → IsReady 50 (a_stream_at reg freq)
at_most_50 reg freq h k = record {
  positive = h;
  covered = k;
  single = refl;
  level = refl;
  slots = refl;
  rtp_slots = refl;
}

busy-IsValid : IsValid accelerometer busy
unfolding find_stream
busy-IsValid = record {
  distinct = (refl, (refl, tt));
  ready = (
    at_most_50 7 50 (omega arith) (omega arith),
    (at_most_50 8 20 (omega arith) (omega arith), tt),
  );
  idle = λ off. absurd (cc);
  handled = λ on other none. cc;
}

one_left : remove 7 busy.streams ≢ []
unfolding remove
one_left e = cc

abbrev acts : List Act
acts = a_request start_request ∷ a_request oneshot_request ∷ an_event true sample ∷ []

run-Ran_example : Returns (Ran accelerometer acts fresh) (run platform accelerometer acts fresh)
run-Ran_example =
    run-Ran platform accelerometer acts fresh (zero_sensor-IsValid accelerometer)
      (platform-Able accelerometer)
      (
        ((λ e. omega arith), λ e. absurd (omega (arith, e))),
        λ d e. (
          ((λ e'. absurd (omega (arith, e'))), λ e'. absurd (omega (arith, e'))),
          λ d' e'. λ d'' e''. tt,
        ),
      )

start_stream-Answered_example :
    ((platform.malloc a_stream ≡ true)
      × Returns
          (Started accelerometer busy 7 100)
          (sm_start_stream platform accelerometer busy 7 100))
    ⊎ ((platform.malloc a_stream ≡ false)
        × (sm_start_stream platform accelerometer busy 7 100
            ≡ ok (record { sensor = busy; effects = []; result = none })))
start_stream-Answered_example =
    start_stream-Answered platform accelerometer busy 7 100 busy-IsValid
      (platform-Works accelerometer) (omega arith)

stop_stream-Stopped_example :
    Returns (Stopped platform accelerometer busy 7) (sm_stop_stream platform accelerometer busy 7)
stop_stream-Stopped_example =
    stop_stream-Stopped platform accelerometer busy 7 busy-IsValid (inl one_left)

abbrev last_one : Sensor
last_one = record busy { streams = a_stream_at 7 50 ∷ [] }

stop_stream_pending_faults_example :
    sm_stop_stream platform accelerometer last_one 7 ≡ fault null_pointer
stop_stream_pending_faults_example =
    stop_stream_pending_faults platform accelerometer last_one (a_stream_at 7 50) refl (λ e. cc)
