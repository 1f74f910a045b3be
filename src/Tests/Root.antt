-- ===== src/Tests/Root.antt =====
-- A start of the server, with an exit asked for in the third second, and the sensors.
use ze_sense_server.Prelude.{
  ℕ, ◌≡◌, refl, ◌==◌, ◌||◌, if◌then◌else◌, Bool, true, false, [], ◌∷◌, none, some, replicate,
}
use ze_sense_server.Prelude.Result.{Returns}
use ze_sense_server.Codes.{ze_numsensors, proximity, orientation}
use ze_sense_server.Manager.{zero_sensor}
use ze_sense_server.Manager.Prepare.{prepare_sensors, numbered, prepare_sensors-numbered}
use ze_sense_server.Root.{Address, Host, Poll, ze_server_root, any_fits}
use ze_sense_server.Root.Watch.{Held}
use ze_sense_server.Root.Held.{ze_server_root-Held}

abbrev address : ℕ → Bool → Address
address len makes = record { addrlen = len; makes_context = makes }

abbrev host : Host
host = record {
  addresses = some (address 99 true ∷ address 16 false ∷ address 28 true ∷ []);
  test_addresses = some (address 16 true ∷ []);
  addr_size = 28;
  socket_made = true;
  bound = true;
  manager_made = true;
  request_buffer_made = true;
  response_buffer_made = true;
  class_ref = true;
  context_ref = false;
  log_opened = true;
  manager_started = true;
  server_started = true;
}

abbrev poll : Bool → Poll
poll interrupted = record { globalexit = false; interrupted = interrupted }

test_fits : any_fits 28 (address 16 true ∷ []) ≡ true
unfolding any_fits
test_fits = refl

ze_server_root-Held_example :
    Returns
      (Held host (poll false ∷ poll false ∷ poll true ∷ []))
      (ze_server_root host (poll false ∷ poll false ∷ poll true ∷ []))
ze_server_root-Held_example =
    ze_server_root-Held host (poll false ∷ poll false ∷ poll true ∷ []) refl refl test_fits

abbrev only_proximity : ℕ → Bool
only_proximity i = i == proximity

prepare_sensors-numbered_example :
    prepare_sensors only_proximity ze_numsensors 0 (replicate ze_numsensors (zero_sensor 0)) ≡ (
      if only_proximity orientation || only_proximity proximity
      then none
      else some (numbered ze_numsensors 0))
prepare_sensors-numbered_example = prepare_sensors-numbered only_proximity
