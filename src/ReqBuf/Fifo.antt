-- ===== src/ReqBuf/Fifo.antt =====
-- The request buffer seen by its producer and its consumer.
use mathlib.Core.List.{append_assoc, append-nil}
use ze_sense_server.Prelude.{
  true, some, ℕ, ◌+◌, ◌<◌, ◌≡◌, refl, ap, sym, ◌∙◌, inl, inr, get_or-set_self, leb, Bool-cases,
  List, [], ◌∷◌, ◌++◌, if◌then◌else◌, arith,
}
use ze_sense_server.Ring.{rbuf_size, consume, insert_item, get_item}
use ze_sense_server.Ring.Contents
use ze_sense_server.ReqBuf.{
  Request, ReqBuf, zero_request, invalid_request, init_sm_buf, get_request_buf_item,
  put_request_buf_item,
}

abbrev pub IsValid : ReqBuf → Type 0
IsValid = Contents.IsValid

-- The pending requests, oldest first.
abbrev pub pending : ReqBuf → List Request
pending = Contents.contents zero_request

-- The consumer makes `k` calls of get while the producer waits.
abbrev pub served : ℕ → ReqBuf → List Request × ReqBuf
served = consume zero_request invalid_request

-- A call of the producer, with the number of gets that are served while it waits if the buffer is
-- full, or a call of the consumer.
pub data Op : Type 0 where
  put : Request → ℕ → Op
  get : Op

-- What the consumer receives while `put` waits.
received : ReqBuf → ℕ → List Request
received b k = if leb rbuf_size b.counter then (served k b).0 else []

put_woken : ReqBuf → Request → ℕ → ReqBuf
put_woken b r k = put_request_buf_item (λ c. (served k c).1) b r.rtype r.sensor r.ticket r.freq

-- The requests that the consumer receives, and the buffer at the end.
pub run : ReqBuf → List Op → List Request × ReqBuf
run b [] = ([], b)
run b (put r k ∷ ops) = let (xs, b') = run (put_woken b r k) ops in (received b k ++ xs, b')
run b (get ∷ ops) = let (xs, b') = served 1 b in let (ys, b'') = run b' ops in (xs ++ ys, b'')

abbrev pub puts : List Op → List Request
puts [] = []
puts (put r k ∷ ops) = r ∷ puts ops
puts (get ∷ ops) = puts ops

-- No wait ends before the consumer has made room: the wait is woken by a get, never spuriously.
abbrev pub Woken : List Op → Type 0
Woken [] = Unit
Woken (put r k ∷ ops) = (0 < k) × Woken ops
Woken (get ∷ ops) = Woken ops

-- One put, waiting if it has to, adds its request behind those still pending.
put_woken_fifo :
    (b : ReqBuf) (r : Request) (k : ℕ)
    → IsValid b
    → 0 < k
    → IsValid (put_woken b r k) × (pending b ++ r ∷ [] ≡ received b k ++ pending (put_woken b r k))
unfolding put_request_buf_item received put_woken
put_woken_fifo b r k v h = elim (Bool-cases (leb rbuf_size b.counter)) [
  | inl full ↦
      let (split, room, v') = Contents.consume_lem zero_request invalid_request k b v in
      rw full (Contents.insert_item_fifo zero_request b _ _ r split v' (omega (arith, room, v)))
  | inr space ↦ rw space (Contents.insert_item_fifo zero_request b b [] r refl v (ground arith))
]

-- No schedule of the two threads loses, repeats or reorders a request, if each wait of a put is
-- ended by a get: what the consumer has received, followed by what is still pending, is what was
-- pending at first followed by the requests put, in their order.
pub requests_fifo :
    (ops : List Op) (b : ReqBuf)
    → IsValid b
    → Woken ops
    → let (xs, b') = run b ops in (pending b ++ puts ops ≡ xs ++ pending b') × IsValid b'
unfolding run
requests_fifo [] b v w = (append-nil (pending b), v)
requests_fifo (put r k ∷ ops) b v w =
    let (v', e) = put_woken_fifo b r k v w.0 in
    let (rest, v'') = requests_fifo ops (put_woken b r k) v' w.1 in
    (
      sym (append_assoc (pending b) (r ∷ []) (puts ops))
          ∙ ap (λ l. l ++ puts ops) e
          ∙ append_assoc (received b k) _ (puts ops)
          ∙ ap (λ l. received b k ++ l) rest
          ∙ sym (append_assoc (received b k) _ _),
      v'',
    )
requests_fifo (get ∷ ops) b v w =
    let (e, _, v') = Contents.consume_lem zero_request invalid_request 1 b v in
    let (rest, v'') = requests_fifo ops (served 1 b).1 v' w in
    (
      ap (λ l. l ++ puts ops) e
          ∙ append_assoc (served 1 b).0 _ (puts ops)
          ∙ ap (λ l. (served 1 b).0 ++ l) rest
          ∙ sym (append_assoc (served 1 b).0 _ _),
      v'',
    )

-- A get on a buffer that is not empty takes the oldest pending request.
pub pending-get :
    (b : ReqBuf)
    → IsValid b
    → 0 < b.counter
    → pending b ≡ (get_request_buf_item b).0 ∷ pending (get_request_buf_item b).1
unfolding get_request_buf_item
pending-get b v h = elim (Contents.get_item-Gets zero_request invalid_request b v) [
  | inl (none_left, _, _, _) ↦ absurd (omega (arith, none_left))
  | inr (_, split) ↦ split
]

-- A fresh buffer is valid and holds nothing.
pub init_sm_buf-IsValid : (b : ReqBuf) × (init_sm_buf true ≡ some b) × IsValid b × (pending b ≡ [])
unfolding init_sm_buf
init_sm_buf-IsValid =
    (_, refl, Contents.init-IsValid zero_request, Contents.contents-init zero_request)

-- A wait that returns with the buffer still full, as POSIX allows, lets the put write over the
-- oldest request: the buffer then counts one item too many, and the next get returns the request
-- just put in place of the oldest.
pub put_spurious :
    (b : ReqBuf) (r : Request)
    → IsValid b
    → b.counter ≡ rbuf_size
    → let b' = put_request_buf_item (λ c. c) b r.rtype r.sensor r.ticket r.freq in
      (b'.counter ≡ rbuf_size + 1) × ¬ IsValid b' × ((get_request_buf_item b').0 ≡ r)
unfolding put_request_buf_item get_request_buf_item get_item insert_item
put_spurious b r v full = (
  ground arith,
  λ v'. ground (arith, v'.fits),
  ground (arith, get_or-set_self b.rbuf b.gethere r zero_request),
)
