-- ===== src/Manager/Helpers/Puts.antt =====
-- The puts of several responses, one after the other.
use mathlib.Core.List.{append-nil}
use ze_sense_server.Prelude.{
  splice, ℕ, ◌+◌, ◌≡◌, refl, ◌∙◌, List, [], ◌∷◌, ◌++◌, Option, none, some,
}
use ze_sense_server.Prelude.Utlist.{Utlist}
use ze_sense_server.Prelude.Result.{Returns, Returns->>=, Returns-mono}
use ze_sense_server.Encode.{Packet}
use ze_sense_server.ReqBuf.{Request, ReqBuf}
use ze_sense_server.Ring.{consume}
use ze_sense_server.Ring.Contents
use ze_sense_server.ResBuf.{Response, zero_response, invalid_item}
use ze_sense_server.ResBuf.Fifo
use ze_sense_server.Manager.Helpers.{
  ResBuf, AdQueue, chain, Helped, Channels, after_put, after_helper, put_response,
  put_response_helper, put_responses,
}
use ze_sense_server.Manager.Helpers.Delivery.{
  Try, rounds, Ends, Delivered, put_response_helper-Delivered,
}

-- The responses that are put are in the buffer behind those that were pending, in order, and each
-- of them is still there or has been taken out by the server. The thread's own queue stays NULL.
pub record AllPut (b : ResBuf) (rs : List (Response Packet)) (c : Channels) : Type 0 where
  pub empty : c.adqueue ≡ chain []
  pub valid : Fifo.IsValid c.notbuf
  pub taken : List (Response Packet)
  pub fifo : Fifo.pending b ++ rs ≡ taken ++ Fifo.pending c.notbuf

after_put-AllPut :
    (b : ResBuf) (r : Response Packet) (o : Option Helped)
    → Delivered b r o
    → Returns (AllPut b (r ∷ [])) (after_put [] o)
unfolding after_helper
after_put-AllPut b r none d = absurd d
after_put-AllPut b r (some h) (one, v, (xs, e)) = record {
  empty = refl;
  valid = v;
  taken = xs;
  fifo = e;
}

-- A put behind what the server has taken out before it, and the puts that follow.
AllPut-cons :
    (b b' : ResBuf) (xs rs : List (Response Packet)) (r : Response Packet) (c d : Channels)
    → Fifo.pending b ≡ xs ++ Fifo.pending b'
    → AllPut b' (r ∷ []) c
    → AllPut c.notbuf rs d
    → AllPut b (r ∷ rs) d
AllPut-cons b b' xs rs r c d e p q = record {
  empty = q.empty;
  valid = q.valid;
  taken = (xs ++ p.taken) ++ q.taken;
  fifo =
      splice (Fifo.pending b) (r ∷ []) (xs ++ p.taken) (Fifo.pending c.notbuf) rs q.taken
        (Fifo.pending d.notbuf)
        (splice (Fifo.pending b) [] xs (Fifo.pending b') (r ∷ []) p.taken (Fifo.pending c.notbuf)
          (append-nil (Fifo.pending b) ∙ e) p.fifo)
        q.fifo;
}

module _ (ll : Utlist Request) where
  put_response-AllPut :
      (ts : List Try) (r : Response Packet) (b : ResBuf) (s : ReqBuf) (ad : AdQueue)
      → Fifo.IsValid b
      → ad ≡ chain []
      → Ends ts
      → Returns (AllPut b (r ∷ [])) (put_response ll (rounds ts) r b s ad)
  put_response-AllPut ts r b s ad v empty h = rw empty (
      after_put-AllPut b r (put_response_helper ll (rounds ts) b r s [])
        (put_response_helper-Delivered ll ts b r s [] v h))

  -- Where every put has a wait that does not time out, all responses are put.
  pub put_responses-AllPut :
      (tries : ℕ → List Try) (taken : ℕ → ℕ) (k : ℕ) (rs : List (Response Packet)) (c : Channels)
      → Fifo.IsValid c.notbuf
      → c.adqueue ≡ chain []
      → ((i : ℕ) → Ends (tries i))
      → Returns (AllPut c.notbuf rs) (put_responses ll (λ i. rounds (tries i)) taken k rs c)
  unfolding put_responses
  put_responses-AllPut tries taken k [] c v empty h = record {
    empty = empty;
    valid = v;
    taken = [];
    fifo = append-nil (Fifo.pending c.notbuf);
  }
  put_responses-AllPut tries taken k (r ∷ rs) c v empty h =
      let (xs, b') = consume zero_response invalid_item (taken k) c.notbuf in
      let (split, _, v') = Contents.consume_lem zero_response invalid_item (taken k) c.notbuf v in
      Returns->>= (AllPut b' (r ∷ [])) (AllPut c.notbuf (r ∷ rs)) _ _
        (put_response-AllPut (tries k) r b' c.smreqbuf c.adqueue v' empty (h k))
        (λ c' p.
          Returns-mono (AllPut c'.notbuf rs) (AllPut c.notbuf (r ∷ rs)) _
            (put_responses-AllPut tries taken (k + 1) rs c' p.valid p.empty h)
            (λ d q. AllPut-cons c.notbuf b' xs rs r c' d split p q))
