-- ===== src/Manager/Requests.antt =====
-- The first part of the thread loop of ze_streaming_manager.c: one request is served.
pub mod Books
pub mod Start
pub mod Stop
pub mod Oneshot
pub mod Served
use ze_sense_server.Prelude.{
  ℕ, ◌==◌, ◌||◌, ◌^◌, ◌-◌, if◌then◌else◌, not, Bool, List, [], ◌∷◌, ◌++◌, Option, none, some, set,
}
use ze_sense_server.Prelude.Utlist.{Utlist}
use ze_sense_server.Prelude.Result.{Result, ok, fault, ◌>>=◌, deref, read}
use ze_sense_server.Codes.{
  sm_req_start, sm_req_stop, sm_req_oneshot, stream_stopped, oneshot, sm_error, default_freq, non,
}
use ze_sense_server.Event.{Event}
use ze_sense_server.Encode.{Packet, encode}
use ze_sense_server.ReqBuf.{Request}
use ze_sense_server.ResBuf.{Response}
use ze_sense_server.Manager.{
  Stream, Sensor, Platform, Done, Effect, respond, a_packet, a_payload, a_oneshot,
}
use ze_sense_server.Manager.Sensors.{android_sensor_activate}
use ze_sense_server.Manager.Streams.{sm_start_stream, sm_stop_stream, sm_new_oneshot}

-- `put_response_helper` is given a response type, a ticket and a packet.
abbrev pub answer : ℕ → ℕ → Option Packet → Effect
answer rtype ticket pk = respond (record { rtype = rtype; ticket = ticket; pk = pk })

unfoldable pub start_answer : Option Stream → List Effect → (ticket : ℕ) → List Effect
start_answer none effects ticket = effects ++ answer stream_stopped ticket none ∷ []
start_answer (some t) effects ticket = effects

module _ (p : Platform) where
  -- A packet of one event with the fake timestamp, and the reliability that is desired. The code
  -- follows the pointer that `encode` returns.
  pub oneshot_packet : Event → (conf : ℕ) → Result Packet
  oneshot_packet event conf = do
    pk ← deref (← encode p.print_e (p.malloc a_packet) (p.malloc a_payload) (event ∷ []) (0 ∷ []) 1)
    ok (record pk { conf = conf })

  module _ (sensor : ℕ) where
    -- NULL from `sm_start_stream` is answered by STREAM_STOPPED.
    unfoldable pub serve_start : Sensor → Request → Result (Done (Unit {0}))
    unfolding start_answer
    serve_start s req = do
      d ← sm_start_stream p sensor s req.ticket req.freq
      ok (record {
        sensor = d.sensor;
        effects = start_answer d.result d.effects req.ticket;
        result = tt;
      })

    unfoldable pub serve_stop : Sensor → Request → Result (Done (Unit {0}))
    serve_stop s req = do
      d ← sm_stop_stream p sensor s req.ticket
      ok (record {
        sensor = d.sensor;
        effects =
            if d.result == sm_error
            then d.effects
            else d.effects ++ answer stream_stopped req.ticket none ∷ [];
        result = tt;
      })

    -- A valid cache answers at once. Otherwise the sensor is activated, whatever its state, and
    -- the ticket is registered.
    unfoldable pub serve_oneshot : Sensor → Request → Result (Done (Unit {0}))
    serve_oneshot s req =
        if s.cache_valid
        then (do
          pk ← oneshot_packet s.event_cache non
          ok (record {
            sensor = s;
            effects = answer oneshot req.ticket (some pk) ∷ [];
            result = tt;
          }))
        else (do
          d ← android_sensor_activate p sensor s default_freq
          one ← deref (sm_new_oneshot (p.malloc a_oneshot) req.ticket)
          ok (record {
            sensor = record (d.sensor) {
              oneshots = p.oneshot_list.ll_append d.sensor.oneshots one;
            };
            effects = d.effects;
            result = tt;
          }))

    unfoldable pub serve_sensor : Sensor → Request → Result (Done (Unit {0}))
    serve_sensor s req =
        if req.rtype == sm_req_start
        then serve_start s req
        else if req.rtype == sm_req_stop
        then serve_stop s req
        else if req.rtype == sm_req_oneshot
        then serve_oneshot s req
        else ok (record { sensor = s; effects = []; result = tt })

  -- The request served on `mngr->sensors`. A request of another type touches no sensor.
  unfoldable pub serve_request : List Sensor → Request → Result (List Sensor × List Effect)
  serve_request sensors req =
      if req.rtype == sm_req_start || (req.rtype == sm_req_stop || req.rtype == sm_req_oneshot)
      then (do
        s ← read sensors req.sensor
        d ← serve_sensor req.sensor s req
        ok (set sensors req.sensor d.sensor, d.effects))
      else ok (sensors, [])
