-- ===== src/Server/Loop.antt =====
-- The thread loop of ze_coap_server_core.c around the service of one response: the
-- retransmissions that are due, and the service of some responses out of their buffer.
pub mod Drained
pub mod Service
pub mod Retransmitted
use ze_sense_server.Prelude.{
  ℕ, zero, suc, ◌+◌, ltb, leb, if◌then◌else◌, ◌&&◌, not, Bool, true, false, List, [], ◌∷◌, ◌++◌,
  Option, none, some,
}
use ze_sense_server.Prelude.Result.{Result, ok, ◌>>=◌}
use ze_sense_server.Encode.{Packet}
use ze_sense_server.Ring.{Ring, rbuf_size, insert_item}
use ze_sense_server.ResBuf.{Response, get_response_buf_item}
use ze_sense_server.Server.State.{Libcoap, Server, Call}
use ze_sense_server.Server.{serve_response}

abbrev pub smreq_ratio : ℕ
smreq_ratio = 5

-- libcoap's queue of messages to be sent again: the time of the first one, and what is left after
-- that one is popped and retransmitted.
module _ {Q : Type 0} (peek_next : Q → Option ℕ) (retransmit_next : Q → Q) where
  -- The test of the loop, on the first message: whether it goes on.
  unfoldable pub is_due : (globalexit : Bool) → (now : ℕ) → Option ℕ → Bool
  is_due globalexit now none = false
  is_due globalexit now (some t) = leb t now && not globalexit

  -- `globalexit` is read before every round. The fuel is spent only if the code would loop on.
  unfoldable pub retransmissions : (globalexit : ℕ → Bool) → (fuel now : ℕ) → Q → Option Q
  unfolding is_due
  retransmissions globalexit zero now q = none
  retransmissions globalexit (suc fuel) now q =
      let rest = retransmissions globalexit fuel now (retransmit_next q) in
      if is_due (globalexit fuel) now (peek_next q) then rest else some q

-- What a round of the service meets: the flag, what libcoap and the clock answer, and the
-- responses that the Streaming Manager wants to put during the sleep.
pub record Round : Type 0 where
  pub globalexit : Bool
  pub env : Libcoap
  pub arrivals : List (Response Packet)

-- The puts of the Streaming Manager, which wait while the buffer is full.
unfoldable pub arrive : List (Response Packet) → Ring (Response Packet) → Ring (Response Packet)
arrive [] b = b
arrive (r ∷ rs) b = if ltb b.counter rbuf_size then arrive rs (insert_item r b) else b

-- The loop for `n` rounds, from round `k` on.
unfoldable pub serve_rounds :
    (ℕ → Round)
    → (n k : ℕ) → Ring (Response Packet)
    → Server
    → Result (Ring (Response Packet) × Server × List Call)
serve_rounds rounds zero k b sv = ok (b, sv, [])
serve_rounds rounds (suc n) k b sv =
    let (r, b') = get_response_buf_item b in
    if (rounds k).globalexit then ok (b, sv, []) else (do
      (sv', calls) ← serve_response (rounds k).env sv r
      (b'', sv'', rest) ← serve_rounds rounds n (k + 1) (arrive (rounds k).arrivals b') sv'
      ok (b'', sv'', calls ++ rest))

-- The loop as the thread enters it.
unfoldable pub serve_sm :
    (ℕ → Round)
    → Ring (Response Packet)
    → Server
    → Result (Ring (Response Packet) × Server × List Call)
serve_sm rounds b sv = serve_rounds rounds smreq_ratio 0 b sv
