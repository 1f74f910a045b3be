-- ===== src/Server/Thread/Served.antt =====
-- What the thread of ze_coap_server_core.c has done at its end.
use mathlib.Core.Path.{subst}
use mathlib.Core.List.{append-nil}
use ze_sense_server.Prelude.{
  splice, ℕ, Bool, ◌<◌, ◌≡◌, refl, ap, sym, ◌∙◌, Bool-cases, inl, inr, List, [], ◌∷◌, ◌++◌, Option,
  none, some, arith,
}
use ze_sense_server.Prelude.Result.{Returns, Returns->>=}
use ze_sense_server.Codes.{stream_stopped}
use ze_sense_server.Encode.{Packet}
use ze_sense_server.Ring.{Ring}
use ze_sense_server.Ring.Contents.{IsValid}
use ze_sense_server.ResBuf.{Response}
use ze_sense_server.Manager.Ledger.{
  answered, answered-append, owed, owed-append, owed_least, owed_mono,
}
use ze_sense_server.Server.State.{Registration, Server, Call, Libcoap}
use ze_sense_server.Server.Notify.{released}
use ze_sense_server.Server.Ready.{AllPaced, Covers, AllReady, released-append}
use ze_sense_server.Server.Serving.{responses_of, Replies}
use ze_sense_server.Server.Loop.{smreq_ratio}
use ze_sense_server.Server.Loop.Drained.{Drained, drained, inside}
use ze_sense_server.Server.Loop.Service.{Drains, serve_sm-Drains}
use ze_sense_server.Server.Loop.Retransmitted.{Ended, retransmissions-Ended}
use ze_sense_server.Server.Thread.{
  Pass, within_fuel, serve_network, resent, core_pass, core_passes, at_start,
  ze_coap_server_core_thread,
}

abbrev pub of_pass : {Q : Type 0} → Pass Q → Ring (Response Packet) → Drained
of_pass p b = drained p.rounds smreq_ratio 0 b

-- What the buffer alone does in the passes, one after the other.
unfoldable pub passes_drained : {Q : Type 0} → List (Pass Q) → Ring (Response Packet) → Drained
passes_drained [] b = record { served = []; accepted = []; buf = b }
passes_drained (p ∷ ps) b =
    let d = of_pass p b in
    let e = passes_drained ps d.buf in
    record { served = d.served ++ e.served; accepted = d.accepted ++ e.accepted; buf = e.buf }

-- The references that the responses of these passes need.
abbrev pub owed_by : {Q : Type 0} → List (Pass Q) → Ring (Response Packet) → ℕ → ℕ
owed_by ps b = owed (responses_of (passes_drained ps b).served) 0

-- What is read from the network makes registrations that are paced. It may destroy some, but
-- leaves the references that are needed: only their owners release them.
pub record IsOrderly (limit : ℕ) (needed : ℕ → ℕ)
    (dispatch : List (ℕ × Registration) → List (ℕ × Registration)) : Type 0 where
  pub paced :
      (regs : List (ℕ × Registration)) → AllPaced limit regs → AllPaced limit (dispatch regs)
  pub covers : (regs : List (ℕ × Registration)) → Covers needed regs → Covers needed (dispatch regs)

serve_network-AllPaced :
    {Q : Type 0} (limit : ℕ) (needed : ℕ → ℕ) (p : Pass Q) (sv : Server)
    → IsOrderly limit needed p.dispatch
    → AllPaced limit sv.registrations
    → AllPaced limit (serve_network p sv).registrations
unfolding serve_network
serve_network-AllPaced limit needed p sv o h = elim (Bool-cases p.readable) [
  | inl yes_data ↦ rw yes_data (o.paced sv.registrations h)
  | inr no_data ↦ rw no_data h
]

serve_network-Covers :
    {Q : Type 0} (limit : ℕ) (needed : ℕ → ℕ) (p : Pass Q) (sv : Server)
    → IsOrderly limit needed p.dispatch
    → Covers needed sv.registrations
    → Covers needed (serve_network p sv).registrations
unfolding serve_network
serve_network-Covers limit needed p sv o h = elim (Bool-cases p.readable) [
  | inl yes_data ↦ rw yes_data (o.covers sv.registrations h)
  | inr no_data ↦ rw no_data h
]

pub responses_of-append :
    (xs ys : List (Libcoap × Response Packet))
    → responses_of (xs ++ ys) ≡ responses_of xs ++ responses_of ys
responses_of-append [] ys = refl
responses_of-append ((c, r) ∷ xs) ys = ap (λ l. r ∷ l) (responses_of-append xs ys)

-- The replies in the passes, one after the other, each pass on what the network has left.
abbrev pub PassReplies :
    {Q : Type 0} → List (Pass Q) → Ring (Response Packet) → Server → Server → List Call → Type 0
PassReplies [] b sv sv' calls = (sv' ≡ sv) × (calls ≡ [])
PassReplies (p ∷ ps) b sv sv'' calls =
    (sv' : Server) × (one : List Call) × (rest : List Call) × Replies (serve_network p sv)
      (of_pass p b).served sv' one
    × PassReplies ps (of_pass p b).buf sv' sv'' rest
    × (calls ≡ one ++ rest)

-- The buffer and the registrations after the passes, by what they have taken out and put in.
pub record Served {Q : Type 0} (limit : ℕ) (ps : List (Pass Q)) (b : Ring (Response Packet))
    (sv : Server) (out : Ring (Response Packet) × Server × List Call) : Type 0 where
  pub replies : PassReplies ps b sv out.1 out.2
  pub valid : IsValid out.0
  pub fifo :
      inside b ++ (passes_drained ps b).accepted
      ≡ responses_of (passes_drained ps b).served ++ inside out.0
  pub paced : AllPaced limit out.1.registrations
  pub releases :
      (t : ℕ)
      → released out.2 t ≡ answered stream_stopped (responses_of (passes_drained ps b).served) t

released_none : (t : ℕ) → released [] t ≡ answered stream_stopped [] t
unfolding released answered
released_none t = refl

-- A pass, and then the others.
joined :
    {Q : Type 0} (limit : ℕ) (p : Pass Q) (ps : List (Pass Q)) (b : Ring (Response Packet))
    (sv : Server) (one : Ring (Response Packet) × Server × List Call)
    (out : Ring (Response Packet) × Server × List Call)
    → Drains limit p.rounds b (serve_network p sv) one
    → Served limit ps (of_pass p b).buf one.1 out
    → Served limit (p ∷ ps) b sv (out.0, out.1, one.2 ++ out.2)
unfolding passes_drained
joined limit p ps b sv (b', sv', calls) (b'', sv'', rest) q r =
    let d = of_pass p b in
    let e = passes_drained ps d.buf in
    record {
      replies = (sv', calls, rest, q.responded.replies, r.replies, refl);
      valid = r.valid;
      fifo =
          splice (inside b) d.accepted (responses_of d.served) (inside d.buf) e.accepted
            (responses_of e.served) (inside b'')
            (subst (λ x. inside b ++ d.accepted ≡ responses_of d.served ++ inside x) q.left q.fifo)
            r.fifo
          ∙ ap (λ l. l ++ inside b'') (sym (responses_of-append d.served e.served));
      paced = r.paced;
      releases = λ t. omega (
        arith,
        released-append calls rest t,
        q.responded.releases t,
        r.releases t,
        answered-append stream_stopped (responses_of d.served) (responses_of e.served) t,
        ap (λ l. answered stream_stopped l t) (responses_of-append d.served e.served),
      );
    }

-- What the responses of a pass and those of the later ones need together.
owed_by-cons :
    {Q : Type 0} (p : Pass Q) (ps : List (Pass Q)) (b : Ring (Response Packet)) (t : ℕ)
    → owed_by (p ∷ ps) b t
      ≡ owed (responses_of (of_pass p b).served) (owed_by ps (of_pass p b).buf t) t
unfolding passes_drained
owed_by-cons p ps b t =
    let d = of_pass p b in
    let e = passes_drained ps d.buf in
    ap (λ l. owed l 0 t) (responses_of-append d.served e.served)
    ∙ owed-append (responses_of d.served) (responses_of e.served) 0 t

module _ {Q : Type 0} (peek_next : Q → Option ℕ) (retransmit_next : Q → Q) (left : Q → ℕ)
    (fewer : (t : ℕ) (q : Q) → peek_next q ≡ some t → left (retransmit_next q) < left q) where
  -- What every pass meets: fuel for the sendings that are left, an orderly network, and responses
  -- that are ready.
  unfoldable pub Met : ℕ → List (Pass Q) → Ring (Response Packet) → Type 0
  Met limit [] b = Unit
  Met limit (p ∷ ps) b =
      (left p.queue < p.fuel)
      × IsOrderly limit (owed_by (p ∷ ps) b) p.dispatch
      × AllReady limit (of_pass p b).served
      × Met limit ps (of_pass p b).buf

  within_fuel_lem :
      (globalexit : ℕ → Bool) (now : ℕ) (o : Option Q)
      → Ended peek_next retransmit_next left fewer globalexit now o
      → Returns (λ q. Unit) (within_fuel o)
  within_fuel_lem globalexit now none h = absurd h
  within_fuel_lem globalexit now (some q) h = tt

  core_pass_lem :
      (limit : ℕ) (p : Pass Q) (b : Ring (Response Packet)) (sv : Server)
      → left p.queue < p.fuel
      → AllReady limit (of_pass p b).served
      → IsValid b
      → AllPaced limit (serve_network p sv).registrations
      → Covers (owed (responses_of (of_pass p b).served) 0) (serve_network p sv).registrations
      → Returns
          (Drains limit p.rounds b (serve_network p sv))
          (core_pass peek_next retransmit_next p b sv)
  unfolding core_pass
  core_pass_lem limit p b sv fuel ready v paced covers =
      let o = resent peek_next retransmit_next p in
      Returns->>= (λ q. Unit) (Drains limit p.rounds b (serve_network p sv)) (within_fuel o) _
        (within_fuel_lem p.globalexit p.now o (
          retransmissions-Ended peek_next retransmit_next left fewer p.globalexit p.fuel p.now
            p.queue fuel))
        (λ q u. serve_sm-Drains limit p.rounds b (serve_network p sv) v ready covers paced)

  core_passes-Served :
      (limit : ℕ) (ps : List (Pass Q)) (b : Ring (Response Packet)) (sv : Server)
      → Met limit ps b
      → IsValid b
      → AllPaced limit sv.registrations
      → Covers (owed_by ps b) sv.registrations
      → Returns (Served limit ps b sv) (core_passes peek_next retransmit_next ps b sv)
  unfolding core_passes passes_drained Met
  core_passes-Served limit [] b sv m v paced covers = record {
    replies = (refl, refl);
    valid = v;
    fifo = append-nil (inside b);
    paced = paced;
    releases = released_none;
  }
  core_passes-Served limit (p ∷ ps) b sv (fuel, orderly, ready, m) v paced covers =
      let net = serve_network p sv in
      let d = of_pass p b in
      let needed = owed_by (p ∷ ps) b in
      let goal = Served limit (p ∷ ps) b sv in
      let found = serve_network-Covers limit needed p sv orderly covers in
      Returns->>= (Drains limit p.rounds b net) goal (core_pass peek_next retransmit_next p b sv) _
        (core_pass_lem limit p b sv fuel ready v
          (serve_network-AllPaced limit needed p sv orderly paced)
          (λ t. omega (
            arith,
            found t,
            owed_by-cons p ps b t,
            owed_mono (responses_of d.served) 0 (owed_by ps d.buf t) t (omega arith),
          )))
        (λ (b', sv', calls) q.
          let same : d.buf ≡ b' = sym q.left in
          Returns->>= (Served limit ps b' sv') goal
            (core_passes peek_next retransmit_next ps b' sv') _
            (core_passes-Served limit ps b' sv' (subst (λ x. Met limit ps x) same m) q.valid
              q.responded.paced
              (subst (λ x. Covers (owed_by ps x) sv'.registrations) same
                (λ t. omega (
                  arith,
                  found t,
                  owed_by-cons p ps b t,
                  owed_least (responses_of d.served) (owed_by ps d.buf t) t,
                  q.responded.refs t,
                ))))
            (λ out r.
              joined limit p ps b sv (b', sv', calls) out q
                (subst (λ x. Served limit ps x sv' out) (sym same) r)))

  -- The whole thread of the CoAP server. Take a valid response buffer, registrations that are paced
  -- and have the references that the responses need, and passes that are met: fuel for the
  -- retransmissions, an orderly network, and responses that are ready. Then the thread does not
  -- fault, and no registration is used after the release of its last reference, which destroys it.
  -- The responses are served in the order in which they were put, each one once, and those that are
  -- not are still in the buffer. Each has its reply, in order: an update one notification of its
  -- packet to its registration, with a report if one is due, or nothing where the registration has
  -- too many failures; a oneshot one answer to its request, if there still is one; a STREAM_STOPPED
  -- one release. The registrations stay paced. A response is ready if its type is known, a oneshot
  -- or an update has a packet with a known delivery, and memory for a report is at hand; a
  -- registration is paced if it has no more unconfirmed notifications in a row than the limit and
  -- no more octets since its last report than the threshold. An orderly network leaves
  -- registrations paced, and releases no reference that a response still needs.
  pub ze_coap_server_core_thread-Served :
      (limit : ℕ) (regs : List (ℕ × Registration)) (ps : List (Pass Q)) (b : Ring (Response Packet))
      → Met limit ps b
      → IsValid b
      → AllPaced limit regs
      → Covers (owed_by ps b) regs
      → Returns
          (Served limit ps b (at_start regs))
          (ze_coap_server_core_thread peek_next retransmit_next ps b regs)
  unfolding ze_coap_server_core_thread
  ze_coap_server_core_thread-Served limit regs ps b m v paced covers =
      core_passes-Served limit ps b (at_start regs) m v paced covers
