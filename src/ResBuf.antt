-- ===== src/ResBuf.antt =====
-- ze_sm_resbuf.c and .h: the buffer of responses from the Streaming Manager to the CoAP server.
-- A get is that of the request buffer. A put on a full buffer waits two seconds at most.
pub mod Fifo
use ze_sense_server.Prelude.{ℕ, leb, ◌==◌, if◌then◌else◌, Bool, Option, none, some}
use ze_sense_server.Codes.{invalid_response}
use ze_sense_server.Ring.{Ring, rbuf_size, init, get_item, insert_item}

-- `pk` is an opaque pointer, NULL for a response with no packet.
pub record Response (P : Type 0) : Type 0 where
  pub rtype : ℕ
  pub ticket : ℕ
  pub pk : Option P

module _ {P : Type 0} where
  -- What `memset` leaves in a slot.
  abbrev pub zero_response : Response P
  zero_response = record { rtype = 0; ticket = 0; pk = none }

  -- `temp` at an empty buffer. Only its type is set, and only its type is read by the callers.
  abbrev pub invalid_item : Response P
  invalid_item = record { rtype = invalid_response; ticket = 0; pk = none }

  -- `malloc` says whether the allocation succeeds; a failing mutex is only logged.
  unfoldable pub init_coap_buf : (malloc : Bool) → Option (Ring (Response P))
  init_coap_buf malloc = if malloc then some (init zero_response) else none

  unfoldable pub get_response_buf_item : Ring (Response P) → Response P × Ring (Response P)
  get_response_buf_item = get_item zero_response invalid_item

  -- `wait b` is what `pthread_cond_timedwait` returns, zero or an error such as ETIMEDOUT, with
  -- the buffer at that moment. An error leaves the buffer to the other thread's changes alone.
  unfoldable pub put_response_buf_item :
      (Ring (Response P) → ℕ × Ring (Response P))
      → Ring (Response P)
      → (rtype ticket : ℕ) (pk : Option P) → ℕ × Ring (Response P)
  put_response_buf_item wait b rtype ticket pk =
      let (timeout, b') = if leb rbuf_size b.counter then wait b else (0, b) in
      (
        timeout,
        if timeout == 0
            then insert_item (record { rtype = rtype; ticket = ticket; pk = pk }) b'
            else b',
      )
