-- ===== src/Tests/System.antt =====
-- One client's stream and oneshot, from the requests to the messages.
use ze_sense_server.Prelude.{refl, true, none, List, [], ◌∷◌, arith}
use ze_sense_server.Prelude.Result.{Returns}
use ze_sense_server.Codes.{accelerometer}
use ze_sense_server.Manager.{zero_sensor}
use ze_sense_server.Manager.Runs.{Act, a_request, an_event}
use ze_sense_server.Server.State.{Libcoap, Server}
use ze_sense_server.Manager.Ledger.{requested}
use ze_sense_server.Manager.Runs.Balance.{handed_in}
use ze_sense_server.Server.Ready.{refs_of}
use ze_sense_server.System.{system, IsSteady, CheckedOut, Accounted, system-Accounted}
use ze_sense_server.Tests.{platform, platform-Able, start_request, oneshot_request, sample}

abbrev libcoap : Libcoap
libcoap = record {
  obs_max_fail = 3;
  obs_max_non = 10;
  find_async = λ t. none;
  ntp = 5000;
  payload_allocated = true;
  data_allocated = true;
}

abbrev server : Server
server = record {
  registrations =
      (
        7,
        record {
          reskey = 4;
          subscriber = 1;
          token = 5 ∷ [];
          fail_cnt = 0;
          non_cnt = 0;
          notcnt = 1;
          datapackcount = 0;
          octcount = 0;
          last_sr_octcount = 0;
          last_sr_packcount = 0;
          ntptwin = 0;
          rtptwin = 0;
          refs = 2;
        },
      )
      ∷ [];
  first_sr_sent = 0;
  sr_sent_counter = 0;
}

abbrev acts : List Act
acts = a_request start_request ∷ a_request oneshot_request ∷ an_event true sample ∷ []

all-CheckedOut : CheckedOut acts server.registrations
unfolding handed_in requested refs_of
all-CheckedOut t = ground arith

steady : IsSteady 10 (λ k. libcoap)
steady = record { limited = λ k. refl; payload_memory = λ k. refl; data_memory = λ k. refl }

system-Accounted_example :
    Returns
      (Accounted platform accelerometer 10 (λ k. libcoap) acts server)
      (system platform accelerometer (λ k. libcoap) acts (zero_sensor accelerometer) server)
system-Accounted_example =
    system-Accounted platform accelerometer 10 (λ k. libcoap) acts server
      (platform-Able accelerometer)
      (
        ((λ e. omega arith), λ e. absurd (omega (arith, e))),
        λ d e. (
          ((λ e'. absurd (omega (arith, e'))), λ e'. absurd (omega (arith, e'))),
          λ d' e'. λ d'' e''. tt,
        ),
      )
      steady
      (record { unconfirmed = omega arith; reported = omega arith; recent = omega arith }, tt)
      all-CheckedOut
