-- ===== src/Tests/Buffered.antt =====
-- A stream that is started twice: the checkout of the first start goes through the response buffer
-- to the CoAP server.
use ze_sense_server.Prelude.{
  ℕ, zero, suc, ◌≡◌, refl, ap, sym, ◌∙◌, false, List, [], ◌∷◌, none, arith,
}
use ze_sense_server.Prelude.Result.{Result, ok, fault, Returns}
use ze_sense_server.Codes.{accelerometer, stream_stopped}
use ze_sense_server.Encode.{Packet}
use ze_sense_server.Ring.{Ring, init, get_item, insert_item}
use ze_sense_server.ResBuf.{Response, zero_response, get_response_buf_item}
use ze_sense_server.Manager.{Done, responses, zero_sensor}
use ze_sense_server.Manager.Sensors.{android_sensor_activate, android_sensor_changef}
use ze_sense_server.Manager.Streams.{
  sm_new_stream, find_stream, sm_find_stream, raise_sensor, insert_stream, start_with,
  sm_start_stream,
}
use ze_sense_server.Manager.Requests.{start_answer, serve_start, serve_sensor}
use ze_sense_server.Manager.Runs.{Act, a_request, run, act}
use ze_sense_server.Ring.Contents.{IsValid}
use ze_sense_server.Server.Ready.{refs_of}
use ze_sense_server.Manager.Ledger.{owed, requested}
use ze_sense_server.Manager.Runs.Balance.{handed_in}
use ze_sense_server.System.{CheckedOut}
use ze_sense_server.System.Buffered.{
  IsSteadyRounds, AllSteady, Settled, both_threads, both_threads-Settled,
}
use ze_sense_server.Server.Loop.{Round, arrive}
use ze_sense_server.Server.Loop.Drained.{drained, admitted, inside}
use ze_sense_server.Server.Thread.{Pass}
use ze_sense_server.Server.Thread.Served.{passes_drained}
use ze_sense_server.Tests.{platform, platform-Able, start_request}
use ze_sense_server.Tests.Server.{libcoap, server}
use ze_sense_server.Tests.Thread.{busy, idle, registers-IsOrderly}
use ze_sense_server.Tests.Loop.{first_time, again, sendings, one_less}

abbrev acts : List Act
acts = a_request start_request ∷ a_request start_request ∷ []

abbrev stopped : Response Packet
stopped = record { rtype = stream_stopped; ticket = 7; pk = none }

abbrev puts : ℕ → List (Response Packet)
puts zero = stopped ∷ []
puts (suc k) = []

abbrev round : ℕ → Round
round k = record { globalexit = false; env = libcoap; arrivals = puts k }

abbrev passes : List (Pass (List (ℕ × ℕ)))
passes = record busy { rounds = round } ∷ idle ∷ []

abbrev empty : Ring (Response Packet)
empty = init zero_response

all_put : (passes_drained passes empty).accepted ≡ stopped ∷ []
unfolding passes_drained drained admitted arrive get_response_buf_item get_item insert_item init
all_put = refl

abbrev responses_in : Result (Done (Unit {0})) → List (Response Packet)
responses_in (ok d) = responses d.effects
responses_in (fault e) = []

run_responses :
    responses_in (run platform accelerometer acts (zero_sensor accelerometer)) ≡ stopped ∷ []
unfolding run act serve_sensor serve_start sm_start_stream sm_new_stream android_sensor_activate
    android_sensor_changef start_with insert_stream raise_sensor find_stream sm_find_stream
    start_answer responses
run_responses = refl

given_up :
    (d : Done (Unit {0}))
    → run platform accelerometer acts (zero_sensor accelerometer) ≡ ok d
    → responses d.effects ≡ stopped ∷ []
given_up d e = ap responses_in (sym e) ∙ run_responses

round_steady : IsSteadyRounds 10 round
round_steady = record { limited = λ k. refl; payload_memory = λ k. refl; data_memory = λ k. refl }

all-Steady : AllSteady first_time again sendings one_less 10 passes empty
unfolding passes_drained drained arrive get_response_buf_item get_item insert_item init owed
all-Steady = (
  record {
    fuel = omega arith;
    orderly = registers-IsOrderly _ (omega arith);
    rounds = round_steady;
  },
  (
    record {
      fuel = omega arith;
      orderly = registers-IsOrderly _ (omega arith);
      rounds = record { limited = λ k. refl; payload_memory = λ k. refl; data_memory = λ k. refl };
    },
    tt,
  ),
)

all-CheckedOut : CheckedOut acts server.registrations
unfolding handed_in requested refs_of
all-CheckedOut t = ground arith

empty-IsValid : IsValid empty
unfolding init
empty-IsValid = record { slots = refl; head_in = omega arith; tail_at = refl; fits = omega arith }

empty_inside : inside empty ≡ []
unfolding init
empty_inside = refl

both_threads-Settled_example :
    Returns
      (λ (s, b, sv, calls). Settled 10 acts passes empty server.registrations s (b, sv, calls))
      (both_threads first_time again sendings one_less 10 platform accelerometer acts passes empty
        server.registrations)
both_threads-Settled_example =
    both_threads-Settled first_time again sendings one_less 10 platform accelerometer acts passes
      empty server.registrations (platform-Able accelerometer)
      (
        ((λ e. omega arith), λ e. absurd (omega (arith, e))),
        λ d e. (((λ e'. omega arith), λ e'. absurd (omega (arith, e'))), λ d' e'. tt),
      )
      all-CheckedOut
      (record { unconfirmed = omega arith; reported = omega arith; recent = omega arith }, tt)
      empty-IsValid empty_inside all-Steady (λ d e. all_put ∙ sym (given_up d e))
