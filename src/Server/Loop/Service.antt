-- ===== src/Server/Loop/Service.antt =====
-- What one service loop of the thread does, and its retransmissions.
use ze_sense_server.Prelude.{
  length, ℕ, zero, suc, ◌+◌, ◌≤◌, ◌≡◌, ◌⊎◌, inl, inr, refl, ap, ◌∙◌, ◌==◌, Bool-cases, true, false,
  List, [], ◌++◌, arith,
}
use ze_sense_server.Prelude.Result.{Result, ok, fault, ◌>>=◌, Returns, Returns->>=}
use ze_sense_server.Encode.{Packet}
use ze_sense_server.Ring.{Ring}
use ze_sense_server.Ring.Contents.{IsValid, get_item-IsValid, get_item-Gets}
use ze_sense_server.ResBuf.{Response, zero_response, invalid_item, get_response_buf_item}
use ze_sense_server.Manager.Ledger.{owed}
use ze_sense_server.Server.State.{Libcoap, Server, Call}
use ze_sense_server.Server.{serve_response}
use ze_sense_server.Server.Ready.{serve_responses, AllPaced, AllReady, Covers}
use ze_sense_server.Server.Serving.{responses_of, Responded, serve_responses-Responded}
use ze_sense_server.Server.Loop.{Round, smreq_ratio, arrive, serve_rounds, serve_sm}
use ze_sense_server.Server.Loop.Drained.{
  drained, arrive_lem, drained-InOrder, drained-served, inside,
}

-- An invalid response, which an empty buffer gives, is served by doing nothing.
invalid-serve_response :
    (c : Libcoap) (sv : Server) → serve_response c sv invalid_item ≡ ok (sv, [])
unfolding serve_response
invalid-serve_response c sv = refl

-- The buffer beside the server, through one response and the rest.
beside :
    Ring (Response Packet)
    → Server × List Call
    → Result (Ring (Response Packet) × Server × List Call)
beside buf (sv, calls) = ok (buf, sv, calls)

tail_lem :
    (f : Result (Server × List Call)) (g : Result (Ring (Response Packet) × Server × List Call))
    (buf : Ring (Response Packet)) (calls : List Call)
    → g ≡ (f >>= beside buf)
    → (g >>= (λ y. ok (y.0, y.1, calls ++ y.2)))
      ≡ ((f >>= (λ y. ok (y.0, calls ++ y.1))) >>= beside buf)
unfolding beside
tail_lem (ok y) g buf calls h = rw h refl
tail_lem (fault e) g buf calls h = rw h refl

joined :
    (m : Result (Server × List Call)) (f : Server → Result (Server × List Call))
    (g : Server → Result (Ring (Response Packet) × Server × List Call))
    (buf : Ring (Response Packet))
    → ((sv : Server) → g sv ≡ (f sv >>= beside buf))
    → (m >>= (λ x. g x.0 >>= (λ y. ok (y.0, y.1, x.1 ++ y.2))))
      ≡ ((m >>= (λ x. f x.0 >>= (λ y. ok (y.0, x.1 ++ y.1)))) >>= beside buf)
joined (ok x) f g buf h = tail_lem (f x.0) (g x.0) buf x.1 (h x.0)
joined (fault e) f g buf h = refl

idle_lem :
    (m : Result (Server × List Call))
    (g : Server → Result (Ring (Response Packet) × Server × List Call)) (sv : Server)
    → m ≡ ok (sv, [])
    → (m >>= (λ x. g x.0 >>= (λ y. ok (y.0, y.1, x.1 ++ y.2)))) ≡ g sv
idle_lem m g sv h = rw h (same (g sv))
  where
    same :
        (r : Result (Ring (Response Packet) × Server × List Call))
        → (r >>= (λ y. ok (y.0, y.1, [] ++ y.2))) ≡ r
    same (ok y) = refl
    same (fault e) = refl

-- The loop does on the server what serving the responses taken out does.
serve_rounds-drained :
    (rounds : ℕ → Round) (n k : ℕ) (b : Ring (Response Packet)) (sv : Server)
    → IsValid b
    → serve_rounds rounds n k b sv
      ≡ (serve_responses (drained rounds n k b).served sv >>= beside (drained rounds n k b).buf)
unfolding serve_rounds drained serve_responses beside get_response_buf_item
serve_rounds-drained rounds zero k b sv v = refl
serve_rounds-drained rounds (suc n) k b sv v =
    let b' = (get_response_buf_item b).1 in
    let r = (get_response_buf_item b).0 in
    let c = (rounds k).env in
    let b2 = arrive (rounds k).arrivals b' in
    let arr = arrive_lem (rounds k).arrivals b' (get_item-IsValid zero_response invalid_item b v) in
    let d = drained rounds n (k + 1) b2 in
    let ih = λ (x : Server). serve_rounds-drained rounds n (k + 1) b2 x arr.0 in
    elim (Bool-cases (rounds k).globalexit) [
      | inl on ↦ rw on refl
      | inr off ↦ rw off (elim (get_item-Gets zero_response invalid_item b v) [
        | inl g ↦
            let z : (b.counter == 0) ≡ true = ground (arith, g.0) in
            rw z (
              idle_lem (serve_response c sv r) (serve_rounds rounds n (k + 1) b2) sv
                (ap (serve_response c sv) g.2 ∙ invalid-serve_response c sv)
              ∙ ih sv)
        | inr g ↦
            let z : (b.counter == 0) ≡ false = ground (arith, g.0) in
            rw z (
              joined (serve_response c sv r) (serve_responses d.served)
                (serve_rounds rounds n (k + 1) b2) d.buf ih)
      ])
    ]

-- The buffer and the server after the loop.
pub record Drains (limit : ℕ) (rounds : ℕ → Round) (b : Ring (Response Packet)) (sv : Server)
    (out : Ring (Response Packet) × Server × List Call) : Type 0 where
  pub valid : IsValid out.0
  pub left : out.0 ≡ (drained rounds smreq_ratio 0 b).buf
  pub fifo :
      let d = drained rounds smreq_ratio 0 b in
      inside b ++ d.accepted ≡ responses_of d.served ++ inside out.0
  pub responded : Responded limit sv (drained rounds smreq_ratio 0 b).served (out.1, out.2)
  pub enough :
      ((i : ℕ) × ((rounds i).globalexit ≡ true))
      ⊎ (smreq_ratio ≤ length (drained rounds smreq_ratio 0 b).served)
      ⊎ (b.counter ≤ length (drained rounds smreq_ratio 0 b).served)

pub serve_sm-Drains :
    (limit : ℕ) (rounds : ℕ → Round) (b : Ring (Response Packet)) (sv : Server)
    → IsValid b
    → AllReady limit (drained rounds smreq_ratio 0 b).served
    → Covers (owed (responses_of (drained rounds smreq_ratio 0 b).served) 0) sv.registrations
    → AllPaced limit sv.registrations
    → Returns (Drains limit rounds b sv) (serve_sm rounds b sv)
unfolding serve_sm beside
serve_sm-Drains limit rounds b sv v ready covers paced =
    let d = drained rounds smreq_ratio 0 b in
    let o = drained-InOrder rounds smreq_ratio 0 b v in
    rw (serve_rounds-drained rounds smreq_ratio 0 b sv v) (
      Returns->>= (Responded limit sv d.served) (Drains limit rounds b sv) _ (beside d.buf)
        (serve_responses-Responded limit d.served sv ready covers paced)
        (λ out p. record {
          valid = o.0;
          left = refl;
          fifo = o.1;
          responded = p;
          enough = drained-served rounds smreq_ratio 0 b v;
        }))
