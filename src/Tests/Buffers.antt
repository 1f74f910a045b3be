-- ===== src/Tests/Buffers.antt =====
-- The buffers between the threads, full and half full.
use ze_sense_server.Prelude.{
  ◌+◌, ◌≡◌, refl, ◌⊎◌, ◌==◌, if◌then◌else◌, true, false, List, [], ◌∷◌, ◌++◌, replicate, some,
  arith,
}
use ze_sense_server.Ring.{rbuf_size}
use ze_sense_server.Codes.{etimedout}
use ze_sense_server.Event.{zero_event}
use ze_sense_server.Encode.{Packet}
use ze_sense_server.ReqBuf.{Request, ReqBuf, put_request_buf_item, get_request_buf_item}
use ze_sense_server.ReqBuf.Fifo as Requests
use ze_sense_server.ReqBuf.Fifo.{requests_fifo, put_spurious}
use ze_sense_server.ResBuf.Fifo as Responses
use ze_sense_server.ResBuf.Fifo.{Wait, put_waited, put_waited_fifo, responses_fifo}
use ze_sense_server.Carriers.{CarriersQueue}
use ze_sense_server.Carriers.Fifo as Carriers
use ze_sense_server.Carriers.Fifo.{events_fifo}
use ze_sense_server.Manager.Helpers.{ResBuf, Helped, chain, put_response_helper, after_helper}
use ze_sense_server.Manager.Helpers.Delivery.{rounds, quiet, put_response_helper_loses}
use ze_sense_server.Tests.{utlist, start_request, stop_request, sample, update_response}

-- A request buffer that is full, and whose oldest item stands in slot 3.
abbrev full_requests : ReqBuf
full_requests = record {
  rbuf = replicate rbuf_size start_request;
  gethere = 3;
  puthere = 3;
  counter = 20;
}

full_requests-IsValid : Requests.IsValid full_requests
full_requests-IsValid = record {
  slots = refl;
  head_in = omega arith;
  tail_at = omega arith;
  fits = omega arith;
}

abbrev pub full_responses : ResBuf
full_responses = record {
  rbuf = replicate rbuf_size update_response;
  gethere = 19;
  puthere = 19;
  counter = 20;
}

pub full_responses-IsValid : Responses.IsValid full_responses
full_responses-IsValid = record {
  slots = refl;
  head_in = omega arith;
  tail_at = omega arith;
  fits = omega arith;
}

abbrev pub signalled : Wait
signalled = record { timed_out = false; taken = 1 }

abbrev pub late : Wait
late = record { timed_out = true; taken = 0 }

abbrev request_ops : List Requests.Op
request_ops = Requests.put stop_request 1 ∷ Requests.get ∷ Requests.put start_request 2 ∷ []

requests_fifo_example :
    let (xs, b') = Requests.run full_requests request_ops in
    (Requests.pending full_requests ++ Requests.puts request_ops ≡ xs ++ Requests.pending b')
    × Requests.IsValid b'
requests_fifo_example =
    requests_fifo request_ops full_requests full_requests-IsValid (omega arith, (omega arith, tt))

put_spurious_example :
    let b' =
      put_request_buf_item
        (λ c. c)
        full_requests
        stop_request.rtype
        stop_request.sensor
        stop_request.ticket
        stop_request.freq in
    (b'.counter ≡ rbuf_size + 1)
    × ¬ Requests.IsValid b'
    × ((get_request_buf_item b').0 ≡ stop_request)
put_spurious_example = put_spurious full_requests stop_request full_requests-IsValid refl

abbrev response_ops : List (Responses.Op Packet)
response_ops =
    Responses.put update_response late
    ∷ Responses.put update_response signalled
    ∷ Responses.get
    ∷ []

responses_fifo_example :
    let t = Responses.run full_responses response_ops in
    (Responses.pending full_responses ++ t.accepted ≡ t.delivered ++ Responses.pending t.buf)
    × Responses.IsValid t.buf
responses_fifo_example =
    responses_fifo response_ops full_responses full_responses-IsValid
      ((λ e. cc), ((λ e. omega arith), tt))

put_waited_fifo_example :
    let (timeout, b') = put_waited late full_responses update_response in
    Responses.IsValid b'
    × (Responses.pending full_responses ++ (if timeout == 0 then update_response ∷ [] else [])
        ≡ Responses.received late full_responses ++ Responses.pending b')
    × ((timeout ≡ 0) ⊎ ((timeout ≡ etimedout) × (full_responses.counter ≡ rbuf_size)))
put_waited_fifo_example =
    put_waited_fifo late full_responses update_response full_responses-IsValid (λ e. cc)

abbrev event_queue : CarriersQueue
event_queue = record { head = zero_event ∷ []; counter = 0 }

abbrev event_ops : List Carriers.Op
event_ops = Carriers.put true sample ∷ Carriers.put false sample ∷ Carriers.get zero_event ∷ []

events_fifo_example :
    let t = Carriers.run utlist event_queue event_ops in
    event_queue.head ++ t.accepted ≡ t.delivered ++ t.queue.head
events_fifo_example = events_fifo utlist event_ops event_queue

put_response_helper_loses_example :
    (h : Helped) × (x : Request) × (put_response_helper utlist
        (rounds (quiet (late ∷ signalled ∷ [])))
        full_responses
        update_response
        full_requests
        []
      ≡ some h)
    × (Requests.pending full_requests ≡ x ∷ Requests.pending h.smreqbuf)
    × (after_helper [] h.adqueue ≡ chain [])
put_response_helper_loses_example =
    put_response_helper_loses utlist late signalled full_responses update_response full_requests
      refl refl refl full_requests-IsValid (omega arith)
