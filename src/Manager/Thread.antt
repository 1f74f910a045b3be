-- ===== src/Manager/Thread.antt =====
-- The loop of the thread of ze_streaming_manager.c: in each turn one request is served, and then
-- the rounds over the two event queues are made, on all sensors; their responses are put into the
-- response buffer.
pub mod Safe
use ze_sense_server.Prelude.{Bool, true, false, if◌then◌else◌, ℕ, List, [], ◌∷◌, ◌++◌}
use ze_sense_server.Prelude.Result.{Result, ok, ◌>>=◌}
use ze_sense_server.Event.{Event}
use ze_sense_server.Prelude.Utlist.{Utlist}
use ze_sense_server.ReqBuf.{Request, ReqBuf}
use ze_sense_server.Manager.{Platform, responses}
use ze_sense_server.Manager.Helpers.{Round, Channels, get_request_helper, put_responses}
use ze_sense_server.Manager.Requests.{serve_request}
use ze_sense_server.Manager.Loop.{Queues, queue_phase}

-- What a turn meets: the flag, what the surroundings answer, the events that arrive in its rounds,
-- the rounds of the helper in each of its puts, how many responses the CoAP server takes out before
-- each of them, and what the server does to the request buffer by the end of the turn.
pub record Turn : Type 0 where
  pub globalexit : Bool
  pub platform : Platform
  pub request_list : Utlist Request
  pub new : ℕ → List Event × List Event
  pub puts : ℕ → List Round
  pub taken : ℕ → ℕ
  pub others : ReqBuf → ReqBuf

-- The two buffers with the thread's own queue, and the rest of its state.
pub record Thread : Type 0 where
  pub channels : Channels
  pub queues : Queues

-- A turn. No branch looks at the result of a put, nor at the buffers before the next turn, so the
-- puts of all its responses stand together at its end, in their order.
unfoldable pub turn : Turn → Thread → Result Thread
turn t s = do
  (req, smreqbuf, adqueue) ← get_request_helper s.channels.smreqbuf s.channels.adqueue
  (sensors, effects) ← serve_request t.platform s.queues.sensors req
  queues ← queue_phase t.platform t.new (record (s.queues) { sensors = sensors; effects = effects })
  c ←
      put_responses t.request_list t.puts t.taken 0 (responses queues.effects)
        (record { notbuf = s.channels.notbuf; smreqbuf = smreqbuf; adqueue = adqueue })
  ok (record {
    channels = record c { smreqbuf = t.others c.smreqbuf };
    queues = record queues { effects = s.queues.effects ++ queues.effects };
  })

-- The turns until an exit is asked for, or those of the list.
unfoldable pub turns : List Turn → Thread → Result Thread
turns [] s = ok s
turns (t ∷ ts) s = if t.globalexit then ok s else (do s' ← turn t s; turns ts s')
