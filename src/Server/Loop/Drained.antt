-- ===== src/Server/Loop/Drained.antt =====
-- What the service loop takes out of the buffer, and what its responses have become.
use mathlib.Core.List.{append_assoc, append-nil}
use ze_sense_server.Prelude.{
  length, ℕ, zero, suc, ◌+◌, ◌≤◌, ◌<◌, ◌≡◌, ◌⊎◌, inl, inr, ap, sym, ◌∙◌, ◌==◌, ltb, if◌then◌else◌,
  Bool-cases, true, false, List, [], ◌∷◌, ◌++◌, arith,
}
use ze_sense_server.Encode.{Packet}
use ze_sense_server.Ring.{Ring, rbuf_size, insert_item}
use ze_sense_server.Ring.Contents.{
  IsValid, contents, get_item-IsValid, get_item-Gets, insert_item-IsValid, contents-insert_item,
}
use ze_sense_server.ResBuf.{Response, zero_response, invalid_item, get_response_buf_item}
use ze_sense_server.Server.State.{Libcoap}
use ze_sense_server.Server.Serving.{responses_of}
use ze_sense_server.Server.Loop.{Round, arrive}

-- The puts that find room.
unfoldable pub admitted : List (Response Packet) → Ring (Response Packet) → List (Response Packet)
admitted [] b = []
admitted (r ∷ rs) b = if ltb b.counter rbuf_size then r ∷ admitted rs (insert_item r b) else []

-- What the buffer alone does in the rounds: the responses taken out, each with the answers of its
-- round, those put in, and the buffer then.
pub record Drained : Type 0 where
  pub served : List (Libcoap × Response Packet)
  pub accepted : List (Response Packet)
  pub buf : Ring (Response Packet)

unfoldable pub drained : (ℕ → Round) → (n k : ℕ) → Ring (Response Packet) → Drained
drained rounds zero k b = record { served = []; accepted = []; buf = b }
drained rounds (suc n) k b =
    let (r, b') = get_response_buf_item b in
    let d = drained rounds n (k + 1) (arrive (rounds k).arrivals b') in
    if (rounds k).globalexit then record { served = []; accepted = []; buf = b } else record {
      served = if b.counter == 0 then d.served else ((rounds k).env, r) ∷ d.served;
      accepted = admitted (rounds k).arrivals b' ++ d.accepted;
      buf = d.buf;
    }

abbrev pub inside : Ring (Response Packet) → List (Response Packet)
inside = contents zero_response

-- The buffer is valid, and what went in came out in order or is still there.
abbrev pub InOrder : Ring (Response Packet) → Drained → Type 0
InOrder b d = IsValid d.buf × (inside b ++ d.accepted ≡ responses_of d.served ++ inside d.buf)

pub arrive_lem :
    (rs : List (Response Packet)) (b : Ring (Response Packet))
    → IsValid b
    → IsValid (arrive rs b) × (inside (arrive rs b) ≡ inside b ++ admitted rs b)
unfolding arrive admitted
arrive_lem [] b v = (v, sym (append-nil (inside b)))
arrive_lem (r ∷ rs) b v = elim (Bool-cases (ltb b.counter rbuf_size)) [
  | inl room ↦
      let fits : b.counter < rbuf_size = ground arith in
      let rest = arrive_lem rs (insert_item r b) (insert_item-IsValid zero_response b r v fits) in
      rw room (
        rest.0,
        rest.1
            ∙ ap (λ l. l ++ admitted rs (insert_item r b))
                (contents-insert_item zero_response b r v fits)
            ∙ append_assoc (inside b) (r ∷ []) _,
      )
  | inr full ↦ rw full (v, sym (append-nil (inside b)))
]

-- A round that has taken `pre` out, before the others.
round_lem :
    (b b' b2 : Ring (Response Packet)) (pre new : List (Response Packet)) (d : Drained)
    → inside b ≡ pre ++ inside b'
    → inside b2 ≡ inside b' ++ new
    → InOrder b2 d
    → inside b ++ (new ++ d.accepted) ≡ pre ++ (responses_of d.served ++ inside d.buf)
round_lem b b' b2 pre new d e arr ih =
    ap (λ l. l ++ (new ++ d.accepted)) e
    ∙ append_assoc pre (inside b') _
    ∙ ap (λ l. pre ++ l)
        (sym (append_assoc (inside b') new d.accepted) ∙ ap (λ l. l ++ d.accepted) (sym arr) ∙ ih.1)

pub drained-InOrder :
    (rounds : ℕ → Round) (n k : ℕ) (b : Ring (Response Packet))
    → IsValid b
    → InOrder b (drained rounds n k b)
unfolding drained get_response_buf_item
drained-InOrder rounds zero k b v = (v, append-nil (inside b))
drained-InOrder rounds (suc n) k b v =
    let b' = (get_response_buf_item b).1 in
    let v' = get_item-IsValid zero_response invalid_item b v in
    let arr = arrive_lem (rounds k).arrivals b' v' in
    let b2 = arrive (rounds k).arrivals b' in
    let ih = drained-InOrder rounds n (k + 1) b2 arr.0 in
    let d = drained rounds n (k + 1) b2 in
    let new = admitted (rounds k).arrivals b' in
    elim (Bool-cases (rounds k).globalexit) [
      | inl on ↦ rw on (v, append-nil (inside b))
      | inr off ↦ rw off (elim (get_item-Gets zero_response invalid_item b v) [
        | inl g ↦
            let z : (b.counter == 0) ≡ true = ground (arith, g.0) in
            rw z (ih.0, round_lem b b' b2 [] new d (ap inside (sym g.3)) arr.1 ih)
        | inr g ↦
            let z : (b.counter == 0) ≡ false = ground (arith, g.0) in
            rw z (ih.0, round_lem b b' b2 ((get_response_buf_item b).0 ∷ []) new d g.1 arr.1 ih)
      ])
    ]

arrive-counter :
    (rs : List (Response Packet)) (b : Ring (Response Packet)) → b.counter ≤ (arrive rs b).counter
unfolding arrive insert_item
arrive-counter [] b = omega arith
arrive-counter (r ∷ rs) b = ground (arith, arrive-counter rs (insert_item r b))

-- Without an exit every round takes a response while there is one.
pub drained-served :
    (rounds : ℕ → Round) (n k : ℕ) (b : Ring (Response Packet))
    → IsValid b
    → ((i : ℕ) × ((rounds i).globalexit ≡ true))
      ⊎ (n ≤ length (drained rounds n k b).served)
      ⊎ (b.counter ≤ length (drained rounds n k b).served)
unfolding drained get_response_buf_item
drained-served rounds zero k b v = inr (inl (omega arith))
drained-served rounds (suc n) k b v =
    let b' = (get_response_buf_item b).1 in
    let arr = arrive_lem (rounds k).arrivals b' (get_item-IsValid zero_response invalid_item b v) in
    let ih = drained-served rounds n (k + 1) (arrive (rounds k).arrivals b') arr.0 in
    let more = arrive-counter (rounds k).arrivals b' in
    elim (Bool-cases (rounds k).globalexit) [
      | inl leave ↦ inl (k, leave)
      | inr stay ↦ rw stay (elim (get_item-Gets zero_response invalid_item b v) [
        | inl g ↦ inr (inr (omega (arith, g.0)))
        | inr g ↦
            let z : (b.counter == 0) ≡ false = ground (arith, g.0) in
            rw z (elim ih [
              | inl exit ↦ inl exit
              | inr (inl x) ↦ inr (inl (omega (arith, x)))
              | inr (inr x) ↦ inr (inr (omega (arith, x, more, g.0)))
            ])
      ])
    ]
