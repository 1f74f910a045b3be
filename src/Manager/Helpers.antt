-- ===== src/Manager/Helpers.antt =====
-- put_response_helper and get_request_helper of ze_streaming_manager.c, which are to break the
-- deadlock of two threads that wait for room in each other's buffer.
pub mod Delivery
pub mod Puts
use ze_sense_server.Prelude.{
  ℕ, ◌==◌, ◌+◌, ◌-◌, ◌^◌, if◌then◌else◌, Bool, List, [], ◌∷◌, Option, none, some,
}
use ze_sense_server.Prelude.Utlist.{Utlist}
use ze_sense_server.Prelude.Result.{Result, ok, fault, dangling_pointer, out_of_fuel, ◌>>=◌}
use ze_sense_server.Codes.{etimedout}
use ze_sense_server.Ring.{Ring, consume}
use ze_sense_server.ReqBuf.{Request, ReqBuf, get_request_buf_item}
use ze_sense_server.ResBuf.{Response, zero_response, invalid_item, put_response_buf_item}
use ze_sense_server.Encode.{Packet}

abbrev pub ResBuf : Type 0
ResBuf = Ring (Response Packet)

-- The variable `adqueue` of the thread: the chain that it points to (empty for NULL), or an element
-- that has been freed.
pub data AdQueue : Type 0 where
  chain : List Request → AdQueue
  freed : AdQueue

-- The surroundings of one round: how a wait on the response buffer ends, what the other thread has
-- done to the request buffer by then, and whether an allocation succeeds.
pub record Round : Type 0 where
  pub wait : ResBuf → ℕ × ResBuf
  pub others : ReqBuf → ReqBuf
  pub malloc : Bool

-- What the helper leaves: its result, the buffers, and the chain behind its own parameter.
pub record Helped : Type 0 where
  pub result : ℕ
  pub notbuf : ResBuf
  pub smreqbuf : ReqBuf
  pub adqueue : List Request

module _ (ll : Utlist Request) where
  -- One round for each element of the list; `none` if the helper is still at work after them.
  pub put_response_helper :
      List Round → ResBuf → Response Packet → ReqBuf → List Request → Option Helped
  put_response_helper [] notbuf r smreqbuf adqueue = none
  put_response_helper (e ∷ es) notbuf r smreqbuf adqueue =
      let (code, notbuf') = put_response_buf_item e.wait notbuf r.rtype r.ticket r.pk in
      let smreqbuf' = e.others smreqbuf in
      let (req, smreqbuf'') = get_request_buf_item smreqbuf' in
      let again = put_response_helper es notbuf' r smreqbuf'' (ll.ll_append adqueue req) in
      let failed : Option Helped = some (record {
        result = 2 ^ 32 - 1;
        notbuf = notbuf';
        smreqbuf = smreqbuf';
        adqueue = adqueue;
      }) in
      let done : Option Helped =
        some (record { result = 1; notbuf = notbuf'; smreqbuf = smreqbuf'; adqueue = adqueue }) in
      if code == etimedout then (if e.malloc then again else failed) else done

-- The parameter is a copy of the thread's variable: a NULL variable stays NULL whatever the helper
-- appends to its copy, and another one points to the chain that has grown.
pub after_helper : List Request → List Request → AdQueue
after_helper [] local = chain []
after_helper (x ∷ xs) local = chain local

-- The two buffers, and the variable `adqueue`.
pub record Channels : Type 0 where
  pub notbuf : ResBuf
  pub smreqbuf : ReqBuf
  pub adqueue : AdQueue

-- The result of the helper is not looked at.
abbrev pub after_put : List Request → Option Helped → Result Channels
after_put adqueue none = fault out_of_fuel
after_put adqueue (some h) =
    ok (record {
      notbuf = h.notbuf;
      smreqbuf = h.smreqbuf;
      adqueue = after_helper adqueue h.adqueue;
    })

module _ (ll : Utlist Request) where
  -- A call of the helper by the thread. The value of a pointer to a freed element is not usable.
  abbrev pub put_response :
      List Round → Response Packet → ResBuf → ReqBuf → AdQueue → Result Channels
  put_response es r notbuf smreqbuf (chain adqueue) =
      after_put adqueue (put_response_helper ll es notbuf r smreqbuf adqueue)
  put_response es r notbuf smreqbuf freed = fault dangling_pointer

  -- The puts of some responses, from number `k` on. Before each of them the CoAP server takes some
  -- responses out.
  unfoldable pub put_responses :
      (ℕ → List Round)
      → (taken : ℕ → ℕ) → (k : ℕ) → List (Response Packet)
      → Channels
      → Result Channels
  put_responses es taken k [] c = ok c
  put_responses es taken k (r ∷ rs) c = do
    c' ←
        put_response (es k) r (consume zero_response invalid_item (taken k) c.notbuf).1 c.smreqbuf
          c.adqueue
    put_responses es taken (k + 1) rs c'

-- The element at the head is freed and its request returned. The thread's own variable, of which
-- `adqueue` is a copy, still points to the element.
unfoldable pub get_request_helper : ReqBuf → AdQueue → Result (Request × ReqBuf × AdQueue)
get_request_helper smreqbuf (chain []) =
    let (req, smreqbuf') = get_request_buf_item smreqbuf in ok (req, smreqbuf', chain [])
get_request_helper smreqbuf (chain (x ∷ xs)) = ok (x, smreqbuf, freed)
get_request_helper smreqbuf freed = fault dangling_pointer
