-- ===== src/Manager/Helpers/Delivery.antt =====
-- put_response_helper of ze_streaming_manager.c: its response, and the requests that it takes.
use mathlib.Core.List.{append_assoc, append-nil}
use ze_sense_server.Prelude.{
  ℕ, ◌<◌, ◌≡◌, refl, ap, sym, ◌∙◌, ◌==◌, inl, inr, ◌⊎◌, if◌then◌else◌, true, false, List, [], ◌∷◌,
  ◌++◌, Option, none, some, arith,
}
use ze_sense_server.Prelude.Utlist.{Utlist}
use ze_sense_server.Codes.{etimedout}
use ze_sense_server.Ring.{rbuf_size}
use ze_sense_server.ReqBuf.{Request, ReqBuf, get_request_buf_item}
use ze_sense_server.ReqBuf.Fifo as Requests
use ze_sense_server.ResBuf.{Response}
use ze_sense_server.ResBuf.Fifo
use ze_sense_server.ResBuf.Fifo.{
  Wait, Signalled, waited, received, put_waited, put_waited_fifo, put_waited_signalled,
  put_waited_late,
}
use ze_sense_server.Encode.{Packet}
use ze_sense_server.Manager.Helpers.{
  ResBuf, chain, Round, Helped, put_response_helper, after_helper,
}

-- A try of the helper with memory at hand: how its wait ends, and what the other thread does to the
-- request buffer by then.
abbrev pub Try : Type 0
Try = Wait × (ReqBuf → ReqBuf)

abbrev pub during : Wait → (ReqBuf → ReqBuf) → Round
during w f = record { wait = waited w; others = f; malloc = true }

abbrev pub rounds : List Try → List Round
rounds [] = []
rounds ((w, f) ∷ ts) = during w f ∷ rounds ts

-- Tries during which nobody touches the request buffer.
abbrev pub quiet : List Wait → List Try
quiet [] = []
quiet (w ∷ ws) = (w, λ b. b) ∷ quiet ws

-- Every wait that is signalled is ended by a get, and the last one does not time out.
abbrev pub Ends : List Try → Type 0
Ends [] = ⊥
Ends ((w, f) ∷ []) = Signalled w × (w.timed_out ≡ false)
Ends ((w, f) ∷ t ∷ ts) = Signalled w × Ends (t ∷ ts)

-- The helper has returned 1 with the response behind those that were pending, each of which the
-- consumer has received or will.
abbrev pub Delivered : ResBuf → Response Packet → Option Helped → Type 0
Delivered b r none = ⊥
Delivered b r (some h) =
    (h.result ≡ 1)
    × Fifo.IsValid h.notbuf
    × ((xs : List (Response Packet)) × (Fifo.pending b ++ r ∷ [] ≡ xs ++ Fifo.pending h.notbuf))

-- A round that has added nothing keeps what the later rounds deliver.
Delivered-later :
    (b b' : ResBuf) (ys : List (Response Packet)) (r : Response Packet) (o : Option Helped)
    → Fifo.pending b ≡ ys ++ Fifo.pending b'
    → Delivered b' r o
    → Delivered b r o
Delivered-later b b' ys r none e d = d
Delivered-later b b' ys r (some h) e (one, v, (xs, q)) = (
  one,
  v,
  (
    ys ++ xs,
    ap (λ l. l ++ r ∷ []) e
        ∙ append_assoc ys (Fifo.pending b') (r ∷ [])
        ∙ ap (λ l. ys ++ l) q
        ∙ sym (append_assoc ys xs (Fifo.pending h.notbuf)),
  ),
)

module _ (ll : Utlist Request) where
  -- One round, by whether its put has gone through.
  helper_round :
      (w : Wait) (f : ReqBuf → ReqBuf) (es : List Round) (b : ResBuf) (r : Response Packet)
      (s : ReqBuf) (ad : List Request)
      → Fifo.IsValid b
      → Signalled w
      → ((put_waited w b r).0 ≡ etimedout
          → Delivered (put_waited w b r).1 r (
              put_response_helper ll es
                (put_waited w b r).1
                r
                (get_request_buf_item (f s)).1
                (ll.ll_append ad (get_request_buf_item (f s)).0)))
      → Delivered b r (put_response_helper ll (during w f ∷ es) b r s ad)
  unfolding put_response_helper put_waited
  helper_round w f es b r s ad v h later =
      let (v', e, cases) = put_waited_fifo w b r v h in go v' e cases
    where
      put : ℕ × ResBuf
      put = put_waited w b r

      go :
          Fifo.IsValid put.1
          → Fifo.pending b ++ (if put.0 == 0 then r ∷ [] else [])
            ≡ received w b ++ Fifo.pending put.1
          → (put.0 ≡ 0) ⊎ ((put.0 ≡ etimedout) × (b.counter ≡ rbuf_size))
          → Delivered b r (put_response_helper ll (during w f ∷ es) b r s ad)
      go v' e (inl z) = rw z (refl, v', (received w b, rw z at e))
      go v' e (inr (late, full)) = rw late (
          Delivered-later b put.1 (received w b) r _
            (sym (append-nil (Fifo.pending b)) ∙ (rw late at e)) (later late))

  pub put_response_helper-Delivered :
      (ts : List Try) (b : ResBuf) (r : Response Packet) (s : ReqBuf) (ad : List Request)
      → Fifo.IsValid b
      → Ends ts
      → Delivered b r (put_response_helper ll (rounds ts) b r s ad)
  put_response_helper-Delivered [] b r s ad v h = absurd h
  put_response_helper-Delivered ((w, f) ∷ []) b r s ad v h =
      helper_round w f [] b r s ad v h.0
        (λ late. absurd (omega (arith, late, put_waited_signalled w b r h.1)))
  put_response_helper-Delivered ((w, f) ∷ t ∷ ts) b r s ad v h =
      helper_round w f (rounds (t ∷ ts)) b r s ad v h.0 (λ late.
        put_response_helper-Delivered (t ∷ ts) (put_waited w b r).1 r (get_request_buf_item (f s)).1
          (ll.ll_append ad (get_request_buf_item (f s)).0) (put_waited_fifo w b r v h.0).0 h.1)

  helped_twice :
      (w u : Wait) (b : ResBuf) (r : Response Packet) (s : ReqBuf) (ad : List Request)
      → (put_waited w b r).0 ≡ etimedout
      → (put_waited u (put_waited w b r).1 r).0 ≡ 0
      → put_response_helper ll (rounds (quiet (w ∷ u ∷ []))) b r s ad
        ≡ some (record {
          result = 1;
          notbuf = (put_waited u (put_waited w b r).1 r).1;
          smreqbuf = (get_request_buf_item s).1;
          adqueue = ll.ll_append ad (get_request_buf_item s).0;
        })
  unfolding put_response_helper put_waited
  helped_twice w u b r s ad late ready = rw late (rw ready refl)

  -- A request that the helper has set aside is lost. Where its first wait on a full buffer times out
  -- and its second one does not, the oldest pending request has left the request buffer, and the
  -- thread's own queue is still NULL: nobody will serve the request.
  pub put_response_helper_loses :
      (w u : Wait) (b : ResBuf) (r : Response Packet) (s : ReqBuf)
      → b.counter ≡ rbuf_size
      → w.timed_out ≡ true
      → u.timed_out ≡ false
      → Requests.IsValid s
      → 0 < s.counter
      → (h : Helped) × (x : Request) × (put_response_helper ll
            (rounds (quiet (w ∷ u ∷ [])))
            b
            r
            s
            []
          ≡ some h)
        × (Requests.pending s ≡ x ∷ Requests.pending h.smreqbuf)
        × (after_helper [] h.adqueue ≡ chain [])
  unfolding after_helper
  put_response_helper_loses w u b r s full late ready v some_left = (
    _,
    (get_request_buf_item s).0,
    helped_twice w u b r s [] (put_waited_late w b r late full)
        (put_waited_signalled u (put_waited w b r).1 r ready),
    Requests.pending-get s v some_left,
    refl,
  )
