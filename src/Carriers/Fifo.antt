-- ===== src/Carriers/Fifo.antt =====
-- The carriers queue seen by its producers and its consumer.
use mathlib.Core.List.{append_assoc, append-nil}
use ze_sense_server.Prelude.{
  ◌⊎◌, ℕ, ◌≡◌, refl, ap, sym, ◌∙◌, ◌==◌, Bool, true, false, List, [], ◌∷◌, ◌++◌, if◌then◌else◌,
  arith,
}
use ze_sense_server.Prelude.Utlist.{Utlist}
use ze_sense_server.Event.{Event}
use ze_sense_server.Carriers.{CarriersQueue, get_carrier_event, put_carrier_event}

-- A call of a carrier thread, with the outcome of its allocation, or of the Streaming Manager,
-- with the event that it passes to be filled.
pub data Op : Type 0 where
  put : Bool → Event → Op
  get : Event → Op

-- What the consumer received where get returned one, what the puts that returned one were given,
-- and the queue.
pub record Trace : Type 0 where
  pub delivered : List Event
  pub accepted : List Event
  pub queue : CarriersQueue

abbrev pub when_done : ℕ → Event → List Event
when_done n e = if n == 1 then e ∷ [] else []

module _ (ll : Utlist Event) where
  pub run : CarriersQueue → List Op → Trace
  run q [] = record { delivered = []; accepted = []; queue = q }
  run q (put malloc e ∷ ops) =
      let (done, q') = put_carrier_event ll malloc q e in
      let t = run q' ops in record t { accepted = when_done done e ++ t.accepted }
  run q (get event ∷ ops) =
      let (done, e, q') = get_carrier_event q event in
      let t = run q' ops in record t { delivered = when_done done e ++ t.delivered }

  -- A get returns zero on the empty queue, and otherwise splits off the oldest event.
  get_step :
      (q : CarriersQueue) (event : Event)
      → let (done, e, q') = get_carrier_event q event in q.head ≡ when_done done e ++ q'.head
  unfolding get_carrier_event
  get_step q event = go q.head refl
    where
      go :
          (l : List Event)
          → q.head ≡ l
          → let (done, e, q') = get_carrier_event q event in q.head ≡ when_done done e ++ q'.head
      go [] h = ground arith
      go (x ∷ xs) h = ground arith

  put_step :
      (malloc : Bool) (q : CarriersQueue) (e : Event)
      → let (done, q') = put_carrier_event ll malloc q e in q.head ++ when_done done e ≡ q'.head
  unfolding put_carrier_event
  put_step true q e = sym (ll.append_lem q.head e)
  put_step false q e = append-nil q.head

  -- Whatever the order of the calls, an event whose put returned one is delivered once and in
  -- order, and one whose put returned zero never is: what the gets have delivered, followed by the
  -- queue, is the queue at first followed by the events accepted.
  pub events_fifo :
      (ops : List Op) (q : CarriersQueue)
      → let t = run q ops in q.head ++ t.accepted ≡ t.delivered ++ t.queue.head
  unfolding run
  events_fifo [] q = append-nil q.head
  events_fifo (put malloc e ∷ ops) q =
      let (done, q') = put_carrier_event ll malloc q e in
      sym (append_assoc q.head (when_done done e) _)
      ∙ ap (λ l. l ++ (run q' ops).accepted) (put_step malloc q e)
      ∙ events_fifo ops q'
  events_fifo (get event ∷ ops) q =
      let (done, e, q') = get_carrier_event q event in
      ap (λ l. l ++ (run q' ops).accepted) (get_step q event)
      ∙ append_assoc (when_done done e) q'.head _
      ∙ ap (λ l. when_done done e ++ l) (events_fifo ops q')
      ∙ sym (append_assoc (when_done done e) _ _)

-- A get by what was in the queue.
pub get_cases :
    (q : CarriersQueue) (event : Event)
    → let (done, e, q') = get_carrier_event q event in
      ((done ≡ 0) × (q' ≡ q)) ⊎ ((done ≡ 1) × (q.head ≡ e ∷ q'.head))
unfolding get_carrier_event
get_cases q event = go q.head refl
  where
    go :
        (l : List Event)
        → q.head ≡ l
        → let (done, e, q') = get_carrier_event q event in
          ((done ≡ 0) × (q' ≡ q)) ⊎ ((done ≡ 1) × (q.head ≡ e ∷ q'.head))
    go [] h = ground arith
    go (x ∷ xs) h = ground arith
