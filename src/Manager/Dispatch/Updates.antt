-- ===== src/Manager/Dispatch/Updates.antt =====
-- The packets that one event makes: for each oneshot, and for each stream.
use ze_sense_server.Prelude.{
  ℕ, ◌+◌, ◌/◌, ◌%◌, ◌^◌, ◌≡◌, refl, ap, ◌∙◌, ◌==◌, true, List, [], ◌∷◌, ◌++◌, length, set, some,
  arith,
}
use ze_sense_server.Prelude.Result.{ok, Returns, Returns->>=, Returns-if}
use ze_sense_server.Codes.{stream_update, oneshot, repetition_off, rtp_tsclock_freq, con}
use ze_sense_server.Event.{Event}
use ze_sense_server.Encode.{Packet}
use ze_sense_server.Encode.Writes.{Fits}
use ze_sense_server.Encode.Layout.{encode_one}
use ze_sense_server.ResBuf.{Response}
use ze_sense_server.Manager.{Stream, Platform, Alloc, Effect, responses, a_packet, a_payload}
use ze_sense_server.Manager.Ledger.{held}
use ze_sense_server.Manager.Invariant.{IsReady}
use ze_sense_server.Manager.Streams.{find_stream}
use ze_sense_server.Manager.Streams.Lists.{Distinct, All}
use ze_sense_server.Manager.Requests.Books.{oneshot_packet-ok}
use ze_sense_server.Manager.Dispatch.{
  next_rtpts, buffer_sample, bundle, flush, update_stream, update_streams, answer_oneshots,
}

-- The response carries a packet of the event, by its type, ticket, fake timestamp and delivery.
pub record Carries (event : Event) (rtype ticket rtpts conf : ℕ) (r : Response Packet)
    : Type 0 where
  pub packet : Packet
  pub response : r ≡ record { rtype = rtype; ticket = ticket; pk = some packet }
  pub ntpts : packet.ntpts ≡ event.timestamp
  pub stamp : packet.rtpts ≡ rtpts
  pub delivery : packet.conf ≡ conf

-- One answer for each oneshot, in their order, to be confirmed.
abbrev pub Answers : Event → List ℕ → List (Response Packet) → Type 0
Answers event [] [] = Unit
Answers event [] (r ∷ rs) = ⊥
Answers event (one ∷ ones) [] = ⊥
Answers event (one ∷ ones) (r ∷ rs) = Carries event oneshot one 0 con r × Answers event ones rs

-- The stream after the event: its timestamp has moved by one period of its own, on 32 bits.
pub record Updated (event : Event) (t t' : Stream) : Type 0 where
  pub reg : t'.reg ≡ t.reg
  pub freq : t'.freq ≡ t.freq
  pub retransmit : t'.retransmit ≡ t.retransmit
  pub last_rtpts : t'.last_rtpts ≡ (t.last_rtpts + rtp_tsclock_freq / t.freq) % 2 ^ 32
  pub last_wts : t'.last_wts ≡ event.timestamp
  pub samples_sent : t'.samples_sent ≡ (t.samples_sent + 1) % 2 ^ 32

-- One update for each stream, in their order, with its new timestamp and its delivery.
abbrev pub Updates : Event → List Stream → List Stream → List (Response Packet) → Type 0
Updates event [] [] [] = Unit
Updates event (t ∷ ts) (t' ∷ ts') (r ∷ rs) =
    Updated event t t'
    × Carries event stream_update t.reg t'.last_rtpts t.retransmit r
    × Updates event ts ts' rs
Updates event [] [] (r ∷ rs) = ⊥
Updates event [] (t' ∷ ts') rs = ⊥
Updates event (t ∷ ts) [] rs = ⊥
Updates event (t ∷ ts) (t' ∷ ts') [] = ⊥

-- The tickets are those that the streams had.
Updates-find_stream :
    (event : Event) (ts ts' : List Stream) (rs : List (Response Packet)) (reg : ℕ)
    → Updates event ts ts' rs
    → find_stream ts' reg ≡ find_stream ts reg
unfolding find_stream
Updates-find_stream event [] [] [] reg u = refl
Updates-find_stream event [] [] (r ∷ rs) reg u = absurd u
Updates-find_stream event [] (t' ∷ ts') rs reg u = absurd u
Updates-find_stream event (t ∷ ts) [] rs reg u = absurd u
Updates-find_stream event (t ∷ ts) (t' ∷ ts') [] reg u = absurd u
Updates-find_stream event (t ∷ ts) (t' ∷ ts') (r ∷ rs) reg (u, c, us) =
    ground (arith, u.reg, Updates-find_stream event ts ts' rs reg us)

pub Updates-held :
    (event : Event) (ts ts' : List Stream) (rs : List (Response Packet)) (reg : ℕ)
    → Updates event ts ts' rs
    → held ts' reg ≡ held ts reg
unfolding held
Updates-held event [] [] [] reg u = refl
Updates-held event [] [] (r ∷ rs) reg u = absurd u
Updates-held event [] (t' ∷ ts') rs reg u = absurd u
Updates-held event (t ∷ ts) [] rs reg u = absurd u
Updates-held event (t ∷ ts) (t' ∷ ts') [] reg u = absurd u
Updates-held event (t ∷ ts) (t' ∷ ts') (r ∷ rs) reg (u, c, us) =
    ground (arith, u.reg, Updates-held event ts ts' rs reg us)

pub Updates-Distinct :
    (event : Event) (ts ts' : List Stream) (rs : List (Response Packet))
    → Updates event ts ts' rs
    → Distinct ts
    → Distinct ts'
Updates-Distinct event [] [] [] u d = tt
Updates-Distinct event [] [] (r ∷ rs) u d = absurd u
Updates-Distinct event [] (t' ∷ ts') rs u d = absurd u
Updates-Distinct event (t ∷ ts) [] rs u d = absurd u
Updates-Distinct event (t ∷ ts) (t' ∷ ts') [] u d = absurd u
Updates-Distinct event (t ∷ ts) (t' ∷ ts') (r ∷ rs) (u, c, us) d = (
  Updates-find_stream event ts ts' rs t'.reg us ∙ ap (find_stream ts) u.reg ∙ d.0,
  Updates-Distinct event ts ts' rs us d.1,
)

module _ (p : Platform) (memory : (a : Alloc) → p.malloc a ≡ true) (fits : Fits p.print_e) where
  pub answer_oneshots-Answers :
      (event : Event) (ones : List ℕ)
      → Returns (λ sent. Answers event ones (responses sent)) (answer_oneshots p event ones)
  unfolding answer_oneshots responses
  answer_oneshots-Answers event [] = tt
  answer_oneshots-Answers event (one ∷ ones) =
      let (pk, m, n, r, c) = oneshot_packet-ok p event con memory fits in
      rw m (
        Returns->>= _ _ (answer_oneshots p event ones) _ (answer_oneshots-Answers event ones)
          (λ sent k.
            (record { packet = pk; response = refl; ntpts = n; stamp = r; delivery = c }, k)))

  one_slot : {A : Type 0} (xs : List A) (v : A) → length xs ≡ 1 → set xs 0 v ≡ v ∷ []
  one_slot [] v h = absurd (omega arith)
  one_slot (x ∷ []) v h = refl
  one_slot (x ∷ y ∷ ys) v h = absurd (omega arith)

  -- The stream with the sample in its buffers.
  abbrev full : Event → Stream → Stream
  full event t =
      let tsa = (t.last_rtpts + rtp_tsclock_freq / t.freq) % 2 ^ 32 in
      record t {
        event_buffer = event ∷ [];
        event_rtpts_buffer = tsa ∷ [];
        last_rtpts = tsa;
        last_wts = event.timestamp;
        event_buffer_level = 1;
      }

  buffer_sample-full :
      (event : Event) (n : ℕ) (t : Stream)
      → IsReady n t
      → buffer_sample p event t ≡ ok (full event t)
  unfolding buffer_sample next_rtpts
  buffer_sample-full event n t r = ground (
    arith,
    one_slot t.event_buffer event r.slots,
    one_slot t.event_rtpts_buffer ((t.last_rtpts + rtp_tsclock_freq / t.freq) % 2 ^ 32) r.rtp_slots,
  )

  full_packet :
      (event : Event) (t : Stream)
      → (pk : Packet) × (bundle p (full event t) ≡ ok pk)
        × (pk.ntpts ≡ event.timestamp)
        × (pk.rtpts ≡ (full event t).last_rtpts)
        × (pk.conf ≡ t.retransmit)
  unfolding bundle
  full_packet event t =
      let (pk, e, n, r) = encode_one p.print_e event (full event t).last_rtpts fits in
      (
        record pk { conf = t.retransmit },
        rw (memory a_packet, memory a_payload, e) refl,
        n,
        r,
        refl,
      )

  -- A stream that is ready is ready again, updated, and has sent one packet.
  abbrev Renewed : ℕ → Event → Stream → Stream × List Effect → Type 0
  Renewed n event t (t', sent) =
      IsReady n t'
      × Updated event t t'
      × ((r : Response Packet) × ((rest : List Effect)
            → responses (sent ++ rest) ≡ r ∷ responses rest)
          × Carries event stream_update t.reg t'.last_rtpts t.retransmit r)

  flush-Renewed :
      (event : Event) (n : ℕ) (t : Stream)
      → IsReady n t
      → Returns (Renewed n event t) (flush p (full event t))
  unfolding flush responses
  flush-Renewed event n t r =
      let (pk, m, a, b, c) = full_packet event t in
      rw m (
        record {
          positive = r.positive;
          covered = r.covered;
          single = r.single;
          level = refl;
          slots = refl;
          rtp_slots = refl;
        },
        record {
          reg = refl;
          retransmit = refl;
          freq = refl;
          last_rtpts = refl;
          last_wts = refl;
          samples_sent = refl;
        },
        (
          _,
          (λ rest. refl),
          record { packet = pk; response = refl; ntpts = a; stamp = b; delivery = c },
        ),
      )

  update_stream-Renewed :
      (event : Event) (n : ℕ) (t : Stream)
      → IsReady n t
      → Returns (Renewed n event t) (update_stream p event t)
  unfolding update_stream
  update_stream-Renewed event n t r =
      Returns-if (Renewed n event t) (t.repeat == repetition_off) _ _
        (λ e. rw (buffer_sample-full event n t r) (flush-Renewed event n t r))
        (λ e. absurd (ground (arith, r.single)))

  abbrev pub AllRenewed : ℕ → Event → List Stream → List Stream × List Effect → Type 0
  AllRenewed n event ts (ts', sent) = All (IsReady n) ts' × Updates event ts ts' (responses sent)

  pub update_streams-AllRenewed :
      (event : Event) (n : ℕ) (ts : List Stream)
      → All (IsReady n) ts
      → Returns (AllRenewed n event ts) (update_streams p event ts)
  unfolding update_streams responses
  update_streams-AllRenewed event n [] h = (tt, tt)
  update_streams-AllRenewed event n (t ∷ ts) (r, rs) =
      Returns->>= (Renewed n event t) (AllRenewed n event (t ∷ ts)) (update_stream p event t) _
        (update_stream-Renewed event n t r)
        (λ (t', sent) (r', u, (resp, q, c)).
          Returns->>= (AllRenewed n event ts) (AllRenewed n event (t ∷ ts))
            (update_streams p event ts) _ (update_streams-AllRenewed event n ts rs)
            (λ (ts', rest) (rs', us). ((r', rs'), rw (q rest) (u, c, us))))
