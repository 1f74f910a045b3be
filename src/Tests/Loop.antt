-- ===== src/Tests/Loop.antt =====
-- A service loop of the CoAP server on a buffer with two responses, and a queue of messages.
use ze_sense_server.Prelude.{
  ℕ, zero, suc, ◌+◌, ◌<◌, ◌≡◌, refl, false, List, [], ◌∷◌, ◌++◌, Option, none, some, replicate,
  arith,
}
use ze_sense_server.Codes.{oneshot, stream_update, con, non}
use ze_sense_server.Ring.{Ring}
use ze_sense_server.Ring.Contents.{IsValid}
use ze_sense_server.Encode.{Packet}
use ze_sense_server.ResBuf.{Response, zero_response}
use ze_sense_server.Server.Loop.{Round, retransmissions}
use ze_sense_server.Server.Loop.Retransmitted.{Ended, retransmissions-Ended}
use ze_sense_server.Tests.Server.{libcoap, packet}

abbrev update : Response Packet
update = record { rtype = stream_update; ticket = 7; pk = some (packet con) }

abbrev answer : Response Packet
answer = record { rtype = oneshot; ticket = 9; pk = some (packet non) }

abbrev pub two : Ring (Response Packet)
two = record {
  rbuf = update ∷ replicate 18 zero_response ++ (answer ∷ []);
  gethere = 19;
  puthere = 1;
  counter = 2;
}

pub two-IsValid : IsValid two
two-IsValid = record {
  slots = refl;
  head_in = omega arith;
  tail_at = omega arith;
  fits = omega arith;
}

abbrev pub round : ℕ → Round
round k = record { globalexit = false; env = libcoap; arrivals = [] }

-- A queue of messages by their times and the sendings left. The first one is put back behind the
-- others, for a later time.
abbrev pub first_time : List (ℕ × ℕ) → Option ℕ
first_time [] = none
first_time ((t, k) ∷ ms) = some t

abbrev pub again : List (ℕ × ℕ) → List (ℕ × ℕ)
again [] = []
again ((t, zero) ∷ ms) = ms
again ((t, suc k) ∷ ms) = ms ++ (t + 100, k) ∷ []

abbrev pub sendings : List (ℕ × ℕ) → ℕ
sendings [] = 0
sendings ((t, k) ∷ ms) = 1 + k + sendings ms

sendings-append : (ms : List (ℕ × ℕ)) (t k : ℕ) → sendings (ms ++ (t, k) ∷ []) ≡ sendings ms + 1 + k
sendings-append [] t k = omega arith
sendings-append ((u, j) ∷ ms) t k = omega (arith, sendings-append ms t k)

pub one_less : (t : ℕ) (q : List (ℕ × ℕ)) → first_time q ≡ some t → sendings (again q) < sendings q
one_less t [] e = absurd (cc)
one_less t ((u, zero) ∷ ms) e = omega arith
one_less t ((u, suc k) ∷ ms) e = omega (arith, sendings-append ms (u + 100) k)

abbrev pub messages : List (ℕ × ℕ)
messages = (10, 2) ∷ (30, 0) ∷ (250, 4) ∷ []

retransmissions-Ended_example :
    Ended first_time again sendings one_less
      (λ i. false)
      200
      (retransmissions first_time again (λ i. false) 10 200 messages)
retransmissions-Ended_example =
    retransmissions-Ended first_time again sendings one_less (λ i. false) 10 200 messages
      (omega arith)
