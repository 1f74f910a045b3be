-- ===== src/Tests/Carrier.antt =====
-- The carrier thread of a proximity sensor.
use ze_sense_server.Prelude.{ℕ, refl, Bool, true, false, List, [], ◌∷◌, arith}
use ze_sense_server.Prelude.Result.{Returns}
use ze_sense_server.Codes.{proximity}
use ze_sense_server.Carriers.{CarriersQueue}
use ze_sense_server.Carrier.{Tick, carrier_loop}
use ze_sense_server.Carrier.Period.{sleep_time}
use ze_sense_server.Carrier.Sleep.{IsPeriod, sleep_time-IsPeriod}
use ze_sense_server.Carrier.Rounds.{running, IsSound, Carries, carrier_loop-Carries}
use ze_sense_server.Carrier.Lost.{
  HasCarrier, Doomed, Lost, oneshot_carrier_faults, start_loses_carrier,
}
use ze_sense_server.Manager.{Sensor, zero_sensor}
use ze_sense_server.Manager.Requests.{serve_oneshot}
use ze_sense_server.Manager.Streams.{sm_start_stream}
use ze_sense_server.Tests.{utlist, platform, platform-Works, oneshot_request}

abbrev streaming : Bool → Sensor
streaming active = record (zero_sensor proximity) {
  carrier_thread_started = true;
  is_active = active;
  cache_valid = true;
  freq = 20;
}

abbrev tick : ℕ → Bool → Bool → Tick
tick sec active malloc = record {
  globalexit = false;
  sensor = streaming active;
  clock = record { tv_sec = sec; tv_nsec = 5 };
  malloc = malloc;
}

abbrev ticks : List Tick
ticks = tick 1 true true ∷ tick 2 true false ∷ tick 3 false true ∷ tick 4 true true ∷ []

abbrev queue : CarriersQueue
queue = record { head = []; counter = 0 }

ticks-IsSound : IsSound (running ticks)
unfolding running
ticks-IsSound = omega arith

carrier_loop-Carries_example : Returns (Carries ticks queue) (carrier_loop utlist ticks queue)
carrier_loop-Carries_example = carrier_loop-Carries utlist ticks queue ticks-IsSound

sleep_time-IsPeriod_example : Returns (IsPeriod 30) (sleep_time 30)
sleep_time-IsPeriod_example = sleep_time-IsPeriod 30 (omega arith) (omega arith)

proximity-HasCarrier : HasCarrier platform proximity
proximity-HasCarrier = record {
  works = platform-Works proximity;
  based = refl;
  created = refl;
  memory = (refl, refl);
}

oneshot_carrier_faults_example :
    Returns
      (Doomed utlist)
      (serve_oneshot platform proximity (zero_sensor proximity) oneshot_request)
oneshot_carrier_faults_example =
    oneshot_carrier_faults platform proximity proximity-HasCarrier utlist (zero_sensor proximity)
      oneshot_request refl refl refl

start_loses_carrier_example :
    Returns Lost (sm_start_stream platform proximity (streaming false) 7 20)
start_loses_carrier_example =
    start_loses_carrier platform proximity proximity-HasCarrier (streaming false) 7 20 refl refl
      (omega arith)
