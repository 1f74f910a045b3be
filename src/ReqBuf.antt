-- ===== src/ReqBuf.antt =====
-- ze_sm_reqbuf.c and .h: the buffer of requests from the CoAP server to the Streaming Manager.
-- Each function body runs under the buffer's mutex, so it is one step; what the other threads do
-- while `pthread_cond_wait` has released the mutex is an argument of the put.
pub mod Fifo
use ze_sense_server.Prelude.{ℕ, leb, if◌then◌else◌, Bool, Option, none, some}
use ze_sense_server.Codes.{sm_req_invalid}
use ze_sense_server.Ring.{Ring, rbuf_size, init, get_item, insert_item}

pub record Request : Type 0 where
  pub rtype : ℕ
  pub sensor : ℕ
  pub ticket : ℕ
  pub freq : ℕ

abbrev pub ReqBuf : Type 0
ReqBuf = Ring Request

-- What `memset` leaves in a slot.
abbrev pub zero_request : Request
zero_request = record { rtype = 0; sensor = 0; ticket = 0; freq = 0 }

-- `temp` at an empty buffer. Only its type is set, and only its type is read by the callers.
abbrev pub invalid_request : Request
invalid_request = record zero_request { rtype = sm_req_invalid }

-- `malloc` says whether the allocation succeeds; a failing mutex is only logged.
unfoldable pub init_sm_buf : (malloc : Bool) → Option ReqBuf
init_sm_buf malloc = if malloc then some (init zero_request) else none

unfoldable pub get_request_buf_item : ReqBuf → Request × ReqBuf
get_request_buf_item = get_item zero_request invalid_request

-- `wait b` is the buffer when `pthread_cond_wait` returns. The test is an `if`: it is not made
-- again after the wait.
unfoldable pub put_request_buf_item :
    (ReqBuf → ReqBuf) → ReqBuf → (rtype sensor ticket freq : ℕ) → ReqBuf
put_request_buf_item wait b rtype sensor ticket freq =
    insert_item (record { rtype = rtype; sensor = sensor; ticket = ticket; freq = freq })
      (if leb rbuf_size b.counter then wait b else b)
