-- ===== src/Manager/Runs.antt =====
-- The requests and events of one sensor in any order, as the thread of ze_streaming_manager.c takes
-- them from its queues one after the other.
pub mod Balance
pub mod Made
use ze_sense_server.Prelude.{ℕ, Bool, List, [], ◌∷◌, ◌++◌}
use ze_sense_server.Prelude.Result.{Result, ok, fault, ◌>>=◌}
use ze_sense_server.Event.{Event}
use ze_sense_server.ReqBuf.{Request}
use ze_sense_server.Manager.{Sensor, Platform, Done, Effect}
use ze_sense_server.Manager.Requests.{serve_sensor}
use ze_sense_server.Manager.Dispatch.{dispatch_event}

pub data Act : Type 0 where
  a_request : Request → Act
  an_event : (from_samples : Bool) → Event → Act

module _ (p : Platform) (sensor : ℕ) where
  unfoldable pub act : Act → Sensor → Result (Done (Unit {0}))
  act (a_request req) s = serve_sensor p sensor s req
  act (an_event from_samples event) s = dispatch_event p sensor from_samples event s

  unfoldable pub run : List Act → Sensor → Result (Done (Unit {0}))
  run [] s = ok (record { sensor = s; effects = []; result = tt })
  run (a ∷ acts) s = do
    d ← act a s
    d' ← run acts d.sensor
    ok (record { sensor = d'.sensor; effects = d.effects ++ d'.effects; result = tt })
