-- ===== src/Carriers.antt =====
-- ze_carriers_queue.c and .h: the unbounded queue of events from the carrier threads to the
-- Streaming Manager. Each function body runs under the queue's mutex, so it is one step.
pub mod Fifo
use ze_sense_server.Prelude.{
  ℕ, Bool, true, false, if◌then◌else◌, List, [], ◌∷◌, Option, none, some, ◌==◌,
}
use ze_sense_server.Prelude.Utlist.{Utlist}
use ze_sense_server.Event.{Event}

-- `counter` is in the struct, and no function moves it.
pub record CarriersQueue : Type 0 where
  pub head : List Event
  pub counter : ℕ

-- `malloc` says whether the allocation succeeds, `error` is what `pthread_mutex_init` returns.
unfoldable pub init_carriers_queue : (malloc : Bool) (error : ℕ) → Option CarriersQueue
init_carriers_queue malloc error =
    if malloc then (if error == 0 then some (record { head = []; counter = 0 }) else none) else none

pop_head : CarriersQueue → List Event → Event → ℕ × Event × CarriersQueue
pop_head q [] event = (0, event, q)
pop_head q (e ∷ es) event = (1, e, record q { head = es })

-- The event is what `*event` holds afterwards: it is left alone where the queue is empty.
unfoldable pub get_carrier_event : CarriersQueue → Event → ℕ × Event × CarriersQueue
unfolding pop_head
get_carrier_event q event = pop_head q q.head event

module _ (ll : Utlist Event) where
  unfoldable pub put_carrier_event : (malloc : Bool) → CarriersQueue → Event → ℕ × CarriersQueue
  put_carrier_event malloc q event =
      if malloc then (1, record q { head = ll.ll_append q.head event }) else (0, q)
