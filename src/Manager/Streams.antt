-- ===== src/Manager/Streams.antt =====
-- The stream helpers of ze_streaming_manager.c, for the sensor of type `sensor` in the state `s`.
-- A pointer to a stream is its position in the sensor's list.
pub mod Lists
pub mod Start
pub mod Stop
use mathlib.Core.Option
use ze_sense_server.Prelude.{
  ℕ, zero, suc, ◌+◌, ◌%◌, ◌==◌, ltb, ◌||◌, ◌&&◌, not, Bool, true, false, if◌then◌else◌, List, [],
  ◌∷◌, ◌++◌, Option, none, some, replicate,
}
use ze_sense_server.Prelude.Utlist.{Utlist}
use ze_sense_server.Prelude.Result.{Result, ok, fault, null_pointer, ◌>>=◌}
use ze_sense_server.Codes.{source_buffer_size, con, repetition_off, sm_error}
use ze_sense_server.Event.{zero_event}
use ze_sense_server.Manager.{Stream, Sensor, Platform, Done, Effect, a_stream, a_oneshot}
use ze_sense_server.Manager.Sensors.{
  android_sensor_activate, android_sensor_changef, android_sensor_turnoff,
}

-- `memset` to zero, then `next` and the level.
unfoldable pub sm_new_stream : (malloc : Bool) → Option Stream
sm_new_stream malloc =
    if malloc
    then some (record {
      reg = 0;
      event_buffer = replicate source_buffer_size zero_event;
      event_rtpts_buffer = replicate source_buffer_size 0;
      event_buffer_level = 0;
      freq = 0;
      retransmit = 0;
      repeat = 0;
      last_wts = 0;
      last_rtpts = 0;
      freq_div = 0;
      samples_sent = 0;
    })
    else none

unfoldable pub find_stream : List Stream → ℕ → Option ℕ
find_stream [] reg = none
find_stream (t ∷ ts) reg = if t.reg == reg then some 0 else Option.map suc (find_stream ts reg)

unfoldable pub sm_find_stream : Sensor → ℕ → Option ℕ
unfolding find_stream
sm_find_stream s reg = find_stream s.streams reg

find_ticket : List ℕ → ℕ → Option ℕ
find_ticket [] one = none
find_ticket (t ∷ ts) one = if t == one then some 0 else Option.map suc (find_ticket ts one)

pub sm_find_oneshot : Sensor → ℕ → Option ℕ
unfolding find_ticket
sm_find_oneshot s one = find_ticket s.oneshots one

unfoldable pub sm_new_oneshot : (malloc : Bool) → ℕ → Option ℕ
sm_new_oneshot malloc one = if malloc then some one else none

-- The maximum that the loop of `sm_stop_stream` leaves in `freq`.
pub max_freq : ℕ → List Stream → ℕ
max_freq freq [] = freq
max_freq freq (t ∷ ts) = max_freq (if ltb freq t.freq then t.freq else freq) ts

module _ (p : Platform) (sensor : ℕ) where
  -- The new stream of `sm_start_stream`, filled in.
  pub fresh_stream : Stream → (reg freq : ℕ) → Stream
  fresh_stream t reg freq = record t {
    reg = reg;
    freq = freq;
    last_rtpts = p.random % 100 + 400;
    last_wts = 0;
    samples_sent = 0;
    retransmit = con;
    repeat = repetition_off;
  }

  -- The sensor is turned on, or its frequency raised, or it is left as it is. What the two calls
  -- return is ignored.
  unfoldable pub raise_sensor : Sensor → ℕ → Result (Done ℕ)
  raise_sensor s freq =
      if not s.is_active
      then android_sensor_activate p sensor (record s { freq = freq }) freq
      else if ltb s.freq freq
      then android_sensor_changef p sensor (record s { freq = freq }) freq
      else ok (record { sensor = s; effects = []; result = 0 })

  -- The list with the new stream in it. A stream with the same ticket makes room, and then the
  -- caller gets NULL.
  unfoldable pub insert_stream : Done ℕ → Option ℕ → Stream → Done (Option Stream)
  insert_stream d none t = record {
    sensor = record (d.sensor) { streams = p.stream_list.ll_append d.sensor.streams t };
    effects = d.effects;
    result = some t;
  }
  insert_stream d (some sub) t = record {
    sensor = record (d.sensor) {
      streams = p.stream_list.ll_append (p.stream_list.ll_delete d.sensor.streams sub) t;
    };
    effects = d.effects;
    result = none;
  }

  unfoldable pub start_with :
      Option Stream → Sensor → (reg freq : ℕ) → Result (Done (Option Stream))
  unfolding raise_sensor insert_stream fresh_stream
  start_with none s reg freq = ok (record { sensor = s; effects = []; result = none })
  start_with (some t) s reg freq = do
    d ← raise_sensor s freq
    ok (insert_stream d (sm_find_stream d.sensor reg) (fresh_stream t reg freq))

  unfoldable pub sm_start_stream : Sensor → (reg freq : ℕ) → Result (Done (Option Stream))
  unfolding start_with
  sm_start_stream s reg freq = start_with (sm_new_stream (p.malloc a_stream)) s reg freq

  -- What is done once the stream is unlinked. With no stream left but a oneshot pending, the code
  -- follows the NULL head of the list.
  pub settle : List Stream → List ℕ → Sensor → Result (Done ℕ)
  settle [] [] s =
      let d = android_sensor_turnoff p sensor s in
      ok (record d { sensor = record (d.sensor) { freq = 0 }; result = 0 })
  settle [] (one ∷ ones) s = fault null_pointer
  settle (t ∷ ts) ones s = do
    let freq = max_freq t.freq (t ∷ ts)
    d ← android_sensor_changef p sensor (record s { freq = freq }) freq
    ok (record d { result = 0 })

  stop_at : Option ℕ → Sensor → Result (Done ℕ)
  unfolding settle
  stop_at none s = ok (record { sensor = s; effects = []; result = sm_error })
  stop_at (some del) s =
      let streams = p.stream_list.ll_delete s.streams del in
      settle streams s.oneshots (record s { streams = streams })

  pub sm_stop_stream : Sensor → (reg : ℕ) → Result (Done ℕ)
  unfolding stop_at
  sm_stop_stream s reg = stop_at (sm_find_stream s reg) s
