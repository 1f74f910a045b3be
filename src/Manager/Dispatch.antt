-- ===== src/Manager/Dispatch.antt =====
-- The second part of the thread loop of ze_streaming_manager.c: one event is sent to those who
-- wait for it.
pub mod Updates
pub mod Sent
use ze_sense_server.Prelude.{
  ℕ, ◌+◌, ◌/◌, ◌%◌, ◌^◌, ◌==◌, ltb, if◌then◌else◌, not, Bool, true, false, List, [], ◌∷◌, ◌++◌,
  Option, none, some, set,
}
use ze_sense_server.Prelude.Result.{Result, ok, fault, division_by_zero, ◌>>=◌, deref, read, store}
use ze_sense_server.Codes.{
  stream_update, oneshot, source_buffer_size, repetition_off, rtp_tsclock_freq, con,
}
use ze_sense_server.Event.{Event}
use ze_sense_server.Encode.{Packet, encode}
use ze_sense_server.Manager.{Stream, Sensor, Platform, Done, Effect, a_packet, a_payload}
use ze_sense_server.Manager.Sensors.{android_sensor_turnoff}
use ze_sense_server.Manager.Requests.{answer, oneshot_packet}

-- `stream->last_rtpts+(RTP_TSCLOCK_FREQ / stream->freq)`; an `int` keeps 32 bits.
pub next_rtpts : Stream → Result ℕ
next_rtpts t =
    if t.freq == 0
    then fault division_by_zero
    else ok ((t.last_rtpts + rtp_tsclock_freq / t.freq) % 2 ^ 32)

module _ (p : Platform) where
  -- The sample is saved where there is room.
  pub buffer_sample : Event → Stream → Result Stream
  unfolding next_rtpts
  buffer_sample event t =
      if ltb t.event_buffer_level source_buffer_size
      then (do
        events ← store t.event_buffer t.event_buffer_level event
        tsa ← next_rtpts t
        stamps ← store t.event_rtpts_buffer t.event_buffer_level tsa
        ok (record t {
          event_buffer = events;
          event_rtpts_buffer = stamps;
          last_rtpts = tsa;
          last_wts = event.timestamp;
          event_buffer_level = t.event_buffer_level + 1;
        }))
      else ok t

  -- The packet of the buffered samples.
  pub bundle : Stream → Result Packet
  bundle t = do
    pk ←
        deref
          (← encode p.print_e (p.malloc a_packet) (p.malloc a_payload) t.event_buffer
            t.event_rtpts_buffer source_buffer_size)
    ok (record pk { conf = t.retransmit })

  -- A full buffer is sent and emptied. `samples_sent` counts what is sent, on 32 bits.
  pub flush : Stream → Result (Stream × List Effect)
  unfolding bundle
  flush t =
      if t.event_buffer_level == source_buffer_size
      then (do
        pk ← bundle t
        ok (
          record t {
            samples_sent = (t.samples_sent + source_buffer_size) % 2 ^ 32;
            event_buffer_level = 0;
          },
          answer stream_update t.reg (some pk) ∷ [],
        ))
      else ok (t, [])

  -- The branch that repeats the previous sample. It writes the second place of the buffers, which
  -- have only one.
  pub repeat_sample : Event → Stream → Result (Stream × List Effect)
  unfolding next_rtpts bundle
  repeat_sample event t = do
    tsa ← next_rtpts t
    events ← if t.event_buffer_level == 0 then store t.event_buffer 0 event else ok t.event_buffer
    stamps ←
        if t.event_buffer_level == 0
        then store t.event_rtpts_buffer 0 tsa
        else ok t.event_rtpts_buffer
    events' ← store events 1 event
    stamps' ← store stamps 1 tsa
    let level = if t.event_buffer_level == 0 then 1 else t.event_buffer_level
    let full = record t {
      event_buffer = events';
      event_rtpts_buffer = stamps';
      event_buffer_level = level;
      last_rtpts = tsa;
      last_wts = event.timestamp;
    }
    pk ← bundle full
    events'' ← store events' 0 event
    stamps'' ← store stamps' 0 tsa
    ok (
      record full {
        samples_sent = (t.samples_sent + 1) % 2 ^ 32;
        event_buffer = events'';
        event_rtpts_buffer = stamps'';
      },
      answer stream_update t.reg (some pk) ∷ [],
    )

  pub update_stream : Event → Stream → Result (Stream × List Effect)
  update_stream event t =
      if t.repeat == repetition_off
      then (do t' ← buffer_sample event t; flush t')
      else repeat_sample event t

  pub update_streams : Event → List Stream → Result (List Stream × List Effect)
  update_streams event [] = ok ([], [])
  update_streams event (t ∷ ts) = do
    (t', sent) ← update_stream event t
    (ts', rest) ← update_streams event ts
    ok (t' ∷ ts', sent ++ rest)

  -- Each pending oneshot is answered by a packet of its own.
  pub answer_oneshots : Event → List ℕ → Result (List Effect)
  answer_oneshots event [] = ok []
  answer_oneshots event (one ∷ ones) = do
    pk ← oneshot_packet p event con
    rest ← answer_oneshots event ones
    ok (answer oneshot one (some pk) ∷ rest)

  module _ (sensor : ℕ) where
    -- With the oneshots cleared and no stream left, the sensor is turned off.
    pub clear_oneshots : List ℕ → List Stream → Event → Sensor → Result (Done (Unit {0}))
    clear_oneshots [] streams event s = ok (record { sensor = s; effects = []; result = tt })
    clear_oneshots (one ∷ ones) (t ∷ ts) event s = do
      sent ← answer_oneshots event (one ∷ ones)
      ok (record { sensor = record s { oneshots = [] }; effects = sent; result = tt })
    clear_oneshots (one ∷ ones) [] event s = do
      sent ← answer_oneshots event (one ∷ ones)
      let d = android_sensor_turnoff p sensor (record s { oneshots = [] })
      ok (record { sensor = d.sensor; effects = sent ++ d.effects; result = tt })

    -- The cache is written for an event of Android's queue, not for one of a carrier.
    pub cache_event : (from_samples : Bool) → Event → Sensor → Sensor
    cache_event from_samples event s =
        if from_samples then record s { event_cache = event; cache_valid = true } else s

    pub dispatch_event : (from_samples : Bool) → Event → Sensor → Result (Done (Unit {0}))
    unfolding cache_event
    dispatch_event from_samples event s = do
      let s' = cache_event from_samples event s
      d ← clear_oneshots s'.oneshots s'.streams event s'
      (streams, sent) ← update_streams event d.sensor.streams
      ok (record {
        sensor = record (d.sensor) { streams = streams };
        effects = d.effects ++ sent;
        result = tt;
      })
