-- ===== src/ResBuf/Fifo.antt =====
-- The response buffer seen by its producer and its consumer.
use mathlib.Core.List.{append-nil}
use ze_sense_server.Prelude.{
  some, ℕ, ◌<◌, ◌≡◌, refl, ◌∙◌, inl, inr, ◌⊎◌, leb, ◌==◌, Bool, true, false, Bool-cases, List, [],
  ◌∷◌, ◌++◌, if◌then◌else◌, arith, splice,
}
use ze_sense_server.Codes.{etimedout}
use ze_sense_server.Ring.{Ring, rbuf_size, consume}
use ze_sense_server.Ring.Contents
use ze_sense_server.ResBuf.{
  Response, zero_response, invalid_item, init_coap_buf, put_response_buf_item,
}

-- How a timed wait ended, and how many responses the consumer took in the meantime.
pub record Wait : Type 0 where
  pub timed_out : Bool
  pub taken : ℕ

-- A wait that is signalled has been ended by a get.
abbrev pub Signalled : Wait → Type 0
Signalled w = w.timed_out ≡ false → 0 < w.taken

module _ {P : Type 0} where
  abbrev pub IsValid : Ring (Response P) → Type 0
  IsValid = Contents.IsValid

  -- The responses not yet taken, oldest first.
  abbrev pub pending : Ring (Response P) → List (Response P)
  pending = Contents.contents zero_response

  abbrev pub served : ℕ → Ring (Response P) → List (Response P) × Ring (Response P)
  served = consume zero_response invalid_item

  abbrev pub waited : Wait → Ring (Response P) → ℕ × Ring (Response P)
  waited w b = (if w.timed_out then etimedout else 0, (served w.taken b).1)

  -- What the consumer receives while a put waits.
  pub received : Wait → Ring (Response P) → List (Response P)
  received w b = if leb rbuf_size b.counter then (served w.taken b).0 else []

  unfoldable pub put_waited : Wait → Ring (Response P) → Response P → ℕ × Ring (Response P)
  put_waited w b r = put_response_buf_item (waited w) b r.rtype r.ticket r.pk

  -- On a valid buffer, and if its wait, where it is signalled, has been ended by a get, a put
  -- returns zero and has added its response behind those still pending, or returns ETIMEDOUT and
  -- has added nothing. In both cases no other response is lost, repeated or reordered. It can time
  -- out only where the buffer was full.
  pub put_waited_fifo :
      (w : Wait) (b : Ring (Response P)) (r : Response P)
      → IsValid b
      → Signalled w
      → let (timeout, b') = put_waited w b r in
        IsValid b'
        × (pending b ++ (if timeout == 0 then r ∷ [] else []) ≡ received w b ++ pending b')
        × ((timeout ≡ 0) ⊎ ((timeout ≡ etimedout) × (b.counter ≡ rbuf_size)))
  unfolding put_response_buf_item received put_waited
  put_waited_fifo w b r v h = elim (Bool-cases (leb rbuf_size b.counter)) [
    | inr space ↦ rw space (
        let (v', e) = Contents.insert_item_fifo zero_response b b [] r refl v (ground arith) in
        (v', e, inl refl))
    | inl full ↦
        let (split, room, v') = Contents.consume_lem zero_response invalid_item w.taken b v in
        elim (Bool-cases w.timed_out) [
          | inl late ↦
              rw (full, late) (v', append-nil (pending b) ∙ split, inr (refl, ground (arith, v)))
          | inr signal ↦
              rw (full, signal)
                (let (v'', e) =
                    Contents.insert_item_fifo zero_response b (served w.taken b).1
                      (served w.taken b).0 r split v' (omega (arith, room, h signal, v)) in
                  (v'', e, inl refl))
        ]
  ]

-- A call of the producer, with the wait that it makes if the buffer is full, or of the consumer.
pub data Op (P : Type 0) : Type 0 where
  put : Response P → Wait → Op P
  get : Op P

-- What the consumer received, what the puts that returned zero were given, and the buffer.
pub record Trace (P : Type 0) : Type 0 where
  pub delivered : List (Response P)
  pub accepted : List (Response P)
  pub buf : Ring (Response P)

module _ {P : Type 0} where
  pub run : Ring (Response P) → List (Op P) → Trace P
  run b [] = record { delivered = []; accepted = []; buf = b }
  run b (put r w ∷ ops) =
      let t = run (put_waited w b r).1 ops in
      record t {
        delivered = received w b ++ t.delivered;
        accepted = (if (put_waited w b r).0 == 0 then r ∷ [] else []) ++ t.accepted;
      }
  run b (get ∷ ops) =
      let t = run (served 1 b).1 ops in record t { delivered = (served 1 b).0 ++ t.delivered }

  -- Each wait that is signalled in a schedule has been ended by a get.
  abbrev pub AllSignalled : List (Op P) → Type 0
  AllSignalled [] = Unit
  AllSignalled (put r w ∷ ops) = Signalled w × AllSignalled ops
  AllSignalled (get ∷ ops) = AllSignalled ops

  pub put_waited_signalled :
      (w : Wait) (b : Ring (Response P)) (r : Response P)
      → w.timed_out ≡ false
      → (put_waited w b r).0 ≡ 0
  unfolding put_waited put_response_buf_item
  put_waited_signalled w b r h = ground arith

  pub put_waited_late :
      (w : Wait) (b : Ring (Response P)) (r : Response P)
      → w.timed_out ≡ true
      → b.counter ≡ rbuf_size
      → (put_waited w b r).0 ≡ etimedout
  unfolding put_waited put_response_buf_item
  put_waited_late w b r h full = ground arith

  -- From a valid buffer, if each wait that is signalled is ended by a get, no schedule of the two
  -- threads loses, repeats or reorders a response whose put returned zero, and none delivers a
  -- response whose put timed out: what the consumer has received, followed by what is pending, is what was pending at first
  -- followed by the accepted responses in their order.
  pub responses_fifo :
      (ops : List (Op P)) (b : Ring (Response P))
      → IsValid b
      → AllSignalled ops
      → let t = run b ops in
        (pending b ++ t.accepted ≡ t.delivered ++ pending t.buf) × IsValid t.buf
  unfolding run
  responses_fifo [] b v s = (append-nil (pending b), v)
  responses_fifo (put r w ∷ ops) b v s =
      let (v', e, _) = put_waited_fifo w b r v s.0 in
      let (rest, v'') = responses_fifo ops (put_waited w b r).1 v' s.1 in
      (splice (pending b) _ (received w b) (pending (put_waited w b r).1) _ _ _ e rest, v'')
  responses_fifo (get ∷ ops) b v s =
      let (e, _, v') = Contents.consume_lem zero_response invalid_item 1 b v in
      let (rest, v'') = responses_fifo ops (served 1 b).1 v' s in
      (
        splice (pending b) [] (served 1 b).0 (pending (served 1 b).1) _ _ _
            (append-nil (pending b) ∙ e) rest,
        v'',
      )

  -- A fresh buffer is valid and holds nothing.
  pub init_coap_buf-IsValid :
      (b : Ring (Response P)) × (init_coap_buf true ≡ some b) × IsValid b × (pending b ≡ [])
  unfolding init_coap_buf
  init_coap_buf-IsValid =
      (_, refl, Contents.init-IsValid zero_response, Contents.contents-init zero_response)
