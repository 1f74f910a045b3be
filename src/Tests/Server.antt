-- ===== src/Tests/Server.antt =====
-- The CoAP side: one registration that is served, and a client that sends two requests.
use ze_sense_server.Prelude.{
  ℕ, ◌+◌, ◌-◌, ◌^◌, ◌<◌, ◌≡◌, ◌⊎◌, refl, inl, inr, ◌==◌, if◌then◌else◌, Bool, true, false, List, [],
  ◌∷◌, none, some, arith,
}
use ze_sense_server.Prelude.Result.{ok, fault, null_pointer, ◌>>=◌, Returns}
use ze_sense_server.Codes.{stream_update, stream_stopped, oneshot, con, non, accelerometer}
use ze_sense_server.Encode.{Packet}
use ze_sense_server.ResBuf.{Response}
use ze_sense_server.Manager.{zero_sensor}
use ze_sense_server.Manager.Ledger.{owed}
use ze_sense_server.Server.State.{Registration, Libcoap, Server}
use ze_sense_server.Server.{form_sr_payload, sr_timestamp}
use ze_sense_server.Server.Report.{report_bytes, form_sr_payload_layout}
use ze_sense_server.Server.Increment.{Ahead, Behind, sr_timestamp-Moved}
use ze_sense_server.Server.Ready.{serve_responses, AllReady, Covers, refs_of}
use ze_sense_server.Server.Serving.{responses_of, Responded, serve_responses-Responded}
use ze_sense_server.Resources.{Pdu, Coap, Context, generic_on_unregister, generic_get_handler}
use ze_sense_server.Resources.Handlers.{Asks, generic_get_handler-Asks}
use ze_sense_server.Resources.Tickets.{serve_all, get_handler, observe_then_get_faults}
use ze_sense_server.Tests.{platform, platform-Able}

abbrev pub libcoap : Libcoap
libcoap = record {
  obs_max_fail = 3;
  obs_max_non = 10;
  find_async = λ t. some (record { id = t; peer = 1; token = 5 ∷ [] });
  ntp = 123456789;
  payload_allocated = true;
  data_allocated = true;
}

abbrev pub registration : Registration
registration = record {
  reskey = 4;
  subscriber = 1;
  token = 5 ∷ [];
  fail_cnt = 0;
  non_cnt = 10;
  notcnt = 77;
  datapackcount = 0;
  octcount = 0;
  last_sr_octcount = 0;
  last_sr_packcount = 0;
  ntptwin = 0;
  rtptwin = 0;
  refs = 2;
}

abbrev pub server : Server
server = record { registrations = (7, registration) ∷ []; first_sr_sent = 0; sr_sent_counter = 0 }

abbrev pub packet : ℕ → Packet
packet conf = record { ntpts = 1; rtpts = 2; conf = conf; payload = some (1 ∷ 2 ∷ []); length = 2 }

form_sr_payload_layout_example :
    form_sr_payload libcoap registration ≡ ok (some (report_bytes libcoap registration))
form_sr_payload_layout_example = form_sr_payload_layout libcoap registration refl refl

-- Three seconds after the last sample.
abbrev later : Libcoap
later = record libcoap { ntp = 3_000_000_000 }

sr_timestamp-Moved_example :
    ((later.ntp - registration.ntptwin < 2 ^ 31)
      × Ahead 0 (later.ntp - registration.ntptwin) (sr_timestamp later registration))
    ⊎ ((2 ^ 31 < later.ntp - registration.ntptwin)
        × Behind 0 (2 ^ 32 - (later.ntp - registration.ntptwin)) (sr_timestamp later registration))
sr_timestamp-Moved_example =
    sr_timestamp-Moved later registration (omega arith) (omega arith) (omega arith)
      (λ e. absurd (omega (arith, e))) (omega arith)

abbrev rounds : List (Libcoap × Response Packet)
rounds =
    (libcoap, record { rtype = stream_update; ticket = 7; pk = some (packet con) })
    ∷ (libcoap, record { rtype = oneshot; ticket = 9; pk = some (packet non) })
    ∷ (libcoap, record { rtype = stream_stopped; ticket = 7; pk = none })
    ∷ []

rounds-Covers : Covers (owed (responses_of rounds) 0) server.registrations
unfolding owed refs_of
rounds-Covers t = ground arith

rounds-AllReady : AllReady 10 rounds
rounds-AllReady = (
  record {
    limited = refl;
    payload_memory = refl;
    data_memory = refl;
    cases = inr (inr (inl (refl, (packet con, refl, inl refl))));
  },
  (
    record {
      limited = refl;
      payload_memory = refl;
      data_memory = refl;
      cases = inr (inl (refl, (packet non, refl, inr refl)));
    },
    (record { limited = refl; payload_memory = refl; data_memory = refl; cases = inl refl }, tt),
  ),
)

serve_responses-Responded_example :
    Returns (Responded 10 server rounds) (serve_responses rounds server)
serve_responses-Responded_example =
    serve_responses-Responded 10 rounds server rounds-AllReady rounds-Covers
      (record { unconfirmed = omega arith; reported = omega arith; recent = omega arith }, tt)

-- A libcoap whose state is the number of registrations: every client gets the registration 7.
abbrev coap : Coap ℕ
coap = record {
  add_registration = λ c resource peer token. (7, c + 1);
  registration_checkout = λ c reg. (reg, c);
  register_async = λ c request. (some 9, c);
  find_registration = λ c resource peer. if c == 0 then none else some 7;
  invalidate = λ c reg. c;
  checkout_lem = λ c reg. refl;
}

abbrev context : Context ℕ
context = record {
  coap = 0;
  puts = [];
  accel_rr_received = 0;
  prox_rr_received = 0;
  light_rr_received = 0;
  gyro_rr_received = 0;
  location_rr_received = 0;
  orient_rr_received = 0;
  rr_rec_counter = 0;
}

abbrev request : Bool → Pdu
request observe = record { observe = observe; peer = 1; token = 5 ∷ []; id = 3 }

generic_get_handler-Asks_example :
    Returns (Asks coap 0 accelerometer true (request false) context) (
      generic_get_handler coap 0 true
        (λ reg x. generic_on_unregister coap reg accelerometer x)
        (request false)
        accelerometer
        context)
generic_get_handler-Asks_example =
    generic_get_handler-Asks coap 0 accelerometer true (request false) context 9 refl

observe_then_get_faults_example :
    (k' : Context ℕ) × ((get_handler coap 0 accelerometer (request true) context
        >>= get_handler coap 0 accelerometer (request false))
      ≡ ok k')
    × (serve_all platform accelerometer k'.puts (zero_sensor accelerometer) ≡ fault null_pointer)
observe_then_get_faults_example =
    observe_then_get_faults coap 0 accelerometer platform (request true) (request false) context 9
      (platform-Able accelerometer) refl refl refl refl refl
