-- ===== src/Tests.antt =====
-- Concrete surroundings and data on which the theorems are applied.
mod Buffers
mod Payload
mod Phase
mod Sensors
mod Server
mod Carrier
mod Root
mod Stats
mod Printed
mod Loop
mod Thread
mod Rtp
mod System
mod Buffered
use mathlib.Core.Path.{ap}
use ze_sense_server.Prelude.{
  ℕ, zero, suc, ◌≡◌, refl, Bool, true, false, List, [], ◌∷◌, ◌++◌, length, Option, none, some,
  arith,
}
use ze_sense_server.Prelude.Utlist.{Utlist}
use ze_sense_server.Codes.{sm_req_start, sm_req_stop, sm_req_oneshot, accelerometer, stream_update}
use ze_sense_server.Event.{Event}
use ze_sense_server.Encode.{Packet}
use ze_sense_server.ReqBuf.{Request}
use ze_sense_server.ResBuf.{Response}
use ze_sense_server.Manager.{Platform}
use ze_sense_server.Manager.Sensors.Flags.{Works}
use ze_sense_server.Manager.Requests.Books.{Able}

module _ {A : Type 0} where
  abbrev pub delete : List A → ℕ → List A
  delete [] i = []
  delete (x ∷ xs) zero = xs
  delete (x ∷ xs) (suc i) = x ∷ delete xs i

  pub delete-append : (xs ys : List A) (x : A) → delete (xs ++ x ∷ ys) (length xs) ≡ xs ++ ys
  delete-append [] ys x = refl
  delete-append (y ∷ xs) ys x = ap (λ l. y ∷ l) (delete-append xs ys x)

  -- The macros on lists, as they are documented.
  abbrev pub utlist : Utlist A
  utlist = record {
    ll_append = λ xs x. xs ++ x ∷ [];
    ll_delete = delete;
    append_lem = λ xs x. refl;
    delete_lem = delete-append;
  }

-- Android knows every sensor, nothing fails, and a float prints as one character.
abbrev pub platform : Platform
platform = record {
  default_sensor = λ i. some i;
  rate_fails = λ h us. false;
  disable_fails = λ h. false;
  gps_started = true;
  gps_changed = true;
  gps_stopped = true;
  thread_created = λ i. true;
  malloc = λ a. true;
  random = 42;
  ntp = 0;
  print_e = λ v. 48 ∷ [];
  stream_list = utlist;
  oneshot_list = utlist;
}

pub platform-Works : (sensor : ℕ) → Works platform sensor
platform-Works sensor = record { gps = refl; handle = sensor; known = refl }

pub platform-Able : (sensor : ℕ) → Able platform sensor
platform-Able sensor = record {
  memory = λ a. refl;
  fits = λ v. omega arith;
  works = platform-Works sensor;
}

abbrev pub start_request : Request
start_request = record { rtype = sm_req_start; sensor = accelerometer; ticket = 7; freq = 50 }

abbrev pub stop_request : Request
stop_request = record { rtype = sm_req_stop; sensor = accelerometer; ticket = 7; freq = 0 }

abbrev pub oneshot_request : Request
oneshot_request = record { rtype = sm_req_oneshot; sensor = accelerometer; ticket = 9; freq = 0 }

abbrev pub sample : Event
sample = record { kind = accelerometer; timestamp = 1000; v0 = 1; v1 = 2; v2 = 3 }

abbrev pub update_response : Response Packet
update_response = record { rtype = stream_update; ticket = 7; pk = none }
