-- ===== src/Server/Serving.antt =====
-- The responses served one after the other: the reply to each, what is released, and what stays of
-- the registrations.
use mathlib.Core.Path.{subst}
use ze_sense_server.Prelude.{
  ℕ, ◌+◌, ◌≤◌, ◌≡◌, ◌≢◌, refl, sym, ap, ◌∙◌, ◌==◌, leb, ◌⊎◌, inl, inr, if◌then◌else◌, true, false,
  List, [], ◌∷◌, ◌++◌, Option, none, some, arith,
}
use ze_sense_server.Prelude.Result.{
  ok, ◌>>=◌, Returns, Returns->>=, Returns->>=_eq, Returns-if, deref, deref-Returns,
}
use ze_sense_server.Codes.{con, non, stream_stopped, stream_update, oneshot, invalid_response}
use ze_sense_server.Encode.{Packet}
use ze_sense_server.ResBuf.{Response}
use ze_sense_server.Manager.Ledger.{Deliverable, answered, owed, owed_one}
use ze_sense_server.Server.State.{
  Registration, Async, Message, Call, Libcoap, Server, find_registration, set_registration, release,
  registration_release, send_confirmed, send, pdu_clear, remove_async, payload_of,
}
use ze_sense_server.Server.{
  update_registration, serve_registration, serve_update, answer_async, serve_response,
}
use ze_sense_server.Server.Notify.{
  IsPaced, released, Notified, AfterUpdate, update_registration-Notified,
}
use ze_sense_server.Server.Ready.{
  serve_responses, AllPaced, refs_of, Covers, Ready, AllReady, refs_of-set_registration,
  refs_of-release, release-AllPaced, set_registration-AllPaced, find_registration-IsPaced,
  released-append,
}

abbrev pub responses_of : List (Libcoap × Response Packet) → List (Response Packet)
responses_of [] = []
responses_of ((c, r) ∷ rs) = r ∷ responses_of rs

-- What one response counts for a ticket.
abbrev stop_of : Response Packet → ℕ → ℕ
stop_of r t = if r.rtype == stream_stopped then (if r.ticket == t then 1 else 0) else 0

-- The message that answers an asynchronous request.
abbrev pub async_message : Async → Packet → Message
async_message asy pk = record {
  kind = pk.conf;
  observe = none;
  token = asy.token;
  payload = payload_of pk;
}

-- What is sent for a request of the asynchronous register, which is removed.
abbrev pub async_calls : Async → Packet → List Call
async_calls asy pk =
    if pk.conf == con
    then send_confirmed asy.peer (async_message asy pk) ∷ remove_async asy.id ∷ []
    else send asy.peer (async_message asy pk) ∷ pdu_clear ∷ remove_async asy.id ∷ []

-- The reply to a STREAM_STOPPED: its registration is released.
pub record StoppedReply (sv : Server) (r : Response Packet) (sv' : Server) (calls : List Call)
    : Type 0 where
  pub reg : Registration
  pub found : find_registration sv.registrations r.ticket ≡ ok reg
  pub sent : calls ≡ registration_release reg.reskey r.ticket ∷ []
  pub server : sv' ≡ record sv { registrations = release sv.registrations r.ticket }

-- The reply to an update: one notification of its packet to the registration under the ticket, and
-- a report if one is due; or nothing, where the registration has too many failures.
pub record UpdateReply (c : Libcoap) (sv : Server) (r : Response Packet) (sv' : Server)
    (calls : List Call) : Type 0 where
  pub reg : Registration
  pub found : find_registration sv.registrations r.ticket ≡ ok reg
  pub notified :
      ((leb reg.fail_cnt c.obs_max_fail ≡ false) × (calls ≡ []) × (sv' ≡ sv))
      ⊎ ((leb reg.fail_cnt c.obs_max_fail ≡ true)
          × (pk : Packet) × (r.pk ≡ some pk)
          × (mid : Server) × (reg' : Registration) × Notified c r.ticket sv reg pk mid reg' calls
          × (sv' ≡ record mid { registrations = set_registration sv.registrations r.ticket reg' }))

-- The reply to a ONESHOT: its packet goes to the client of the asynchronous request, if there is
-- one.
abbrev pub OneshotReply : Libcoap → Response Packet → List Call → Type 0
OneshotReply c r calls =
    ((c.find_async r.ticket ≡ none) × (calls ≡ []))
    ⊎ ((asy : Async) × (pk : Packet) × (c.find_async r.ticket ≡ some asy)
        × (r.pk ≡ some pk)
        × (calls ≡ async_calls asy pk))

abbrev pub Replied : Libcoap → Server → Response Packet → Server → List Call → Type 0
Replied c sv r sv' calls =
    ((r.rtype ≡ stream_stopped) × StoppedReply sv r sv' calls)
    ⊎ ((r.rtype ≡ oneshot) × (sv' ≡ sv) × OneshotReply c r calls)
    ⊎ ((r.rtype ≡ stream_update) × UpdateReply c sv r sv' calls)
    ⊎ ((r.rtype ≡ invalid_response) × (sv' ≡ sv) × (calls ≡ []))

-- The replies to the responses, one after the other.
abbrev pub Replies : Server → List (Libcoap × Response Packet) → Server → List Call → Type 0
Replies sv [] sv' calls = (sv' ≡ sv) × (calls ≡ [])
Replies sv ((c, r) ∷ rs) sv'' calls =
    (sv' : Server) × (one : List Call) × (rest : List Call) × Replied c sv r sv' one
    × Replies sv' rs sv'' rest
    × (calls ≡ one ++ rest)

-- What serving responses leaves: the replies, paced registrations, one release for each
-- STREAM_STOPPED, and no other reference less.
pub record Responded (limit : ℕ) (sv : Server) (rs : List (Libcoap × Response Packet))
    (out : Server × List Call) : Type 0 where
  pub replies : Replies sv rs out.0 out.1
  pub paced : AllPaced limit out.0.registrations
  pub refs :
      (t : ℕ)
      → refs_of sv.registrations t
        ≤ refs_of out.0.registrations t + answered stream_stopped (responses_of rs) t
  pub releases : (t : ℕ) → released out.1 t ≡ answered stream_stopped (responses_of rs) t

-- The same of one response.
record One (limit : ℕ) (c : Libcoap) (sv : Server) (r : Response Packet) (out : Server × List Call)
    : Type 0 where
  reply : Replied c sv r out.0 out.1
  paced : AllPaced limit out.0.registrations
  refs : (t : ℕ) → refs_of sv.registrations t ≤ refs_of out.0.registrations t + stop_of r t
  releases : (t : ℕ) → released out.1 t ≡ stop_of r t

answered_one :
    (r : Response Packet) (t : ℕ)
    → answered stream_stopped (r ∷ []) t
      ≡ (if r.rtype == stream_stopped then (if r.ticket == t then 1 else 0) else 0)
unfolding answered
answered_one r t = ground arith

answered_cons :
    (r : Response Packet) (rs : List (Response Packet)) (t : ℕ)
    → answered stream_stopped (r ∷ rs) t
      ≡ answered stream_stopped (r ∷ []) t + answered stream_stopped rs t
unfolding answered
answered_cons r rs t = omega arith

released_stop :
    (reskey ticket t : ℕ)
    → released (registration_release reskey ticket ∷ []) t ≡ (if ticket == t then 1 else 0)
unfolding released
released_stop reskey ticket t = omega arith

released_nil : (t : ℕ) → released [] t ≡ 0
unfolding released
released_nil t = refl

abbrev ticket_of : Response Packet → ℕ → ℕ
ticket_of r t = if r.ticket == t then 1 else 0

stopped_lem : (r : Response Packet) (t : ℕ) → r.rtype ≡ stream_stopped → stop_of r t ≡ ticket_of r t
stopped_lem r t e = ground arith

other_lem : (r : Response Packet) (t : ℕ) → r.rtype ≢ stream_stopped → stop_of r t ≡ 0
other_lem r t e = ground arith

async_calls-released : (asy : Async) (pk : Packet) (t : ℕ) → released (async_calls asy pk) t ≡ 0
unfolding released
async_calls-released asy pk t = ground arith

-- A delivery that the server knows.
abbrev Conf : Packet → Type 0
Conf p = (p.conf ≡ con) ⊎ (p.conf ≡ non)

answer_async_lem :
    (c : Libcoap) (asy : Async) (pk : Packet)
    → Conf pk
    → answer_async c (some asy) (some pk) ≡ ok (async_calls asy pk)
unfolding answer_async
answer_async_lem c asy pk (inl h) = rw h refl
answer_async_lem c asy pk (inr h) = rw h refl

serve_registration-One :
    (limit : ℕ) (c : Libcoap) (sv : Server) (r : Response Packet) (reg : Registration)
    → Ready limit c r
    → r.rtype ≡ stream_update
    → Deliverable r.pk
    → AllPaced limit sv.registrations
    → IsPaced limit reg × (reg.refs ≡ refs_of sv.registrations r.ticket)
    → find_registration sv.registrations r.ticket ≡ ok reg
    → Returns (One limit c sv r) (serve_registration c sv r.ticket r.pk reg)
unfolding serve_registration
serve_registration-One limit c sv r reg h e (pk, q, conf) all (paced, refs) found =
    let none_stopped : (t : ℕ) → stop_of r t ≡ 0 = λ t. other_lem r t (λ x. ground arith) in
    Returns-if (One limit c sv r) (leb reg.fail_cnt c.obs_max_fail) _ _
      (λ valid.
        Returns->>= (λ p. p ≡ pk) (One limit c sv r) (deref r.pk) _
          (deref-Returns (λ p. p ≡ pk) r.pk pk q refl)
          (λ p same. rw same (
            Returns->>= (AfterUpdate c r.ticket sv reg pk) (One limit c sv r)
              (update_registration c r.ticket sv reg pk) _
              (update_registration-Notified c r.ticket sv reg pk h.payload_memory h.data_memory
                conf)
              (λ (mid, reg', calls) n. record {
                reply = inr (
                    inr (
                      inl (
                        e,
                        record {
                          reg = reg;
                          found = found;
                          notified = inr (valid, pk, q, mid, reg', n, refl);
                        },
                      )));
                paced = set_registration-AllPaced limit sv.registrations r.ticket reg' all (
                    subst (λ l. IsPaced l reg') h.limited
                      (n.paced (subst (λ l. IsPaced l reg) (sym h.limited) paced)));
                refs = λ t. omega (
                  arith,
                  refs_of-set_registration sv.registrations r.ticket t reg'
                      (ground (arith, refs, n.refs)),
                );
                releases = λ t. n.kept t ∙ sym (none_stopped t);
              }))))
      (λ failed. record {
        reply = inr (
            inr
              (inl (e, record { reg = reg; found = found; notified = inl (failed, refl, refl) })));
        paced = all;
        refs = λ t. omega arith;
        releases = λ t. released_nil t ∙ sym (none_stopped t);
      })

serve_stopped :
    (c : Libcoap) (sv : Server) (r : Response Packet)
    → r.rtype ≡ stream_stopped
    → serve_response c sv r ≡ (
        find_registration sv.registrations r.ticket >>= λ reg. ok (
          record sv { registrations = release sv.registrations r.ticket },
          registration_release reg.reskey r.ticket ∷ [],
        ))
unfolding serve_response
serve_stopped c sv r e = ground arith

serve_async :
    (c : Libcoap) (sv : Server) (r : Response Packet)
    → r.rtype ≡ oneshot
    → serve_response c sv r
      ≡ (answer_async c (c.find_async r.ticket) r.pk >>= λ calls. ok (sv, calls))
unfolding serve_response
serve_async c sv r e = ground arith

serve_updated :
    (c : Libcoap) (sv : Server) (r : Response Packet)
    → r.rtype ≡ stream_update
    → serve_response c sv r ≡ (
        find_registration sv.registrations r.ticket >>= λ reg.
        serve_registration c sv r.ticket r.pk reg)
unfolding serve_response serve_update
serve_updated c sv r e = ground arith

serve_nothing :
    (c : Libcoap) (sv : Server) (r : Response Packet)
    → r.rtype ≡ invalid_response
    → serve_response c sv r ≡ ok (sv, [])
unfolding serve_response
serve_nothing c sv r e = ground arith

answered_nil : (t : ℕ) → 0 ≡ answered stream_stopped [] t
unfolding answered
answered_nil t = refl

async-One :
    (limit : ℕ) (c : Libcoap) (sv : Server) (r : Response Packet) (pk : Packet)
    → r.rtype ≡ oneshot
    → r.pk ≡ some pk
    → Conf pk
    → AllPaced limit sv.registrations
    → (waiting : Option Async) → c.find_async r.ticket ≡ waiting
    → Returns (One limit c sv r) (answer_async c waiting (some pk) >>= λ calls. ok (sv, calls))
unfolding answer_async
async-One limit c sv r pk e q conf all none gone = record {
  reply = inr (inl (e, refl, inl (gone, refl)));
  paced = all;
  refs = λ t. omega arith;
  releases = λ t. released_nil t ∙ sym (other_lem r t (λ x. ground arith));
}
async-One limit c sv r pk e q conf all (some asy) waits =
    Returns->>= (λ calls. calls ≡ async_calls asy pk) (One limit c sv r)
      (answer_async c (some asy) (some pk)) (λ calls. ok (sv, calls))
      (subst (Returns (λ calls. calls ≡ async_calls asy pk)) (sym (answer_async_lem c asy pk conf))
        refl)
      (λ calls same. record {
        reply = inr (inl (e, refl, inr (asy, pk, waits, q, same)));
        paced = all;
        refs = λ t. omega arith;
        releases = λ t.
            ap (λ l. released l t) same
            ∙ async_calls-released asy pk t
            ∙ sym (other_lem r t (λ x. ground arith));
      })

serve_response-One :
    (limit : ℕ) (c : Libcoap) (sv : Server) (r : Response Packet) (later : ℕ → ℕ)
    → Ready limit c r
    → Covers (λ t. owed_one r (later t) t) sv.registrations
    → AllPaced limit sv.registrations
    → Returns (One limit c sv r) (serve_response c sv r)
serve_response-One limit c sv r later h covers all = elim h.cases [
  | inl e ↦ rw (serve_stopped c sv r e) (
      Returns->>=_eq (λ reg. IsPaced limit reg × (reg.refs ≡ refs_of sv.registrations r.ticket))
        (One limit c sv r) (find_registration sv.registrations r.ticket) _
        (find_registration-IsPaced limit sv.registrations r.ticket all
          (ground (arith, covers r.ticket)))
        (λ reg found _. record {
          reply = inl (e, record { reg = reg; found = found; sent = refl; server = refl });
          paced = release-AllPaced limit sv.registrations r.ticket all;
          refs = λ t. omega (arith, refs_of-release sv.registrations r.ticket t, stopped_lem r t e);
          releases = λ t. released_stop reg.reskey r.ticket t ∙ sym (stopped_lem r t e);
        }))
  | inr (inl (e, (pk, q, conf))) ↦ rw (serve_async c sv r e) (
      subst
        (λ o.
          Returns (One limit c sv r)
            (answer_async c (c.find_async r.ticket) o >>= λ calls. ok (sv, calls)))
        (sym q) (async-One limit c sv r pk e q conf all (c.find_async r.ticket) refl))
  | inr (inr (inl (e, d))) ↦ rw (serve_updated c sv r e) (
      Returns->>=_eq (λ reg. IsPaced limit reg × (reg.refs ≡ refs_of sv.registrations r.ticket))
        (One limit c sv r) (find_registration sv.registrations r.ticket) _
        (find_registration-IsPaced limit sv.registrations r.ticket all
          (ground (arith, covers r.ticket)))
        (λ reg found paced. serve_registration-One limit c sv r reg h e d all paced found))
  | inr (inr (inr e)) ↦ rw (serve_nothing c sv r e) (record {
    reply = inr (inr (inr (e, refl, refl)));
    paced = all;
    refs = λ t. omega arith;
    releases = λ t. released_nil t ∙ sym (other_lem r t (λ x. ground arith));
  })
]

-- What is left after one response is enough for the others.
covers_rest :
    (sv sv' : Server) (r : Response Packet) (rs : List (Response Packet)) (later t : ℕ)
    → owed (r ∷ rs) later t ≤ refs_of sv.registrations t
    → refs_of sv.registrations t ≤ refs_of sv'.registrations t + stop_of r t
    → owed rs later t ≤ refs_of sv'.registrations t
unfolding owed
covers_rest sv sv' r rs later t h k = ground arith

covers_first :
    (sv : Server) (r : Response Packet) (rs : List (Response Packet)) (later t : ℕ)
    → owed (r ∷ rs) later t ≤ refs_of sv.registrations t
    → owed_one r (owed rs later t) t ≤ refs_of sv.registrations t
unfolding owed
covers_first sv r rs later t h = h

-- Take any run of responses that are ready, registrations that are paced, and for every ticket as
-- many references as the run needs: one for each STREAM_STOPPED, and one that is still there when
-- an update is served. Then the server does not fault, and no registration is used after the
-- release of its last reference, which destroys it. Each response has its reply, in order: an
-- update one notification of its packet to its registration, with a report if one is due, or
-- nothing where the registration has too many failures; a oneshot one answer to its request, if
-- there still is one; a STREAM_STOPPED one release. The registrations stay paced, and no reference
-- is lost but by these releases. A response is ready if its type is known, a oneshot or an update
-- has a packet with a known delivery, and memory for a report is at hand; a registration is paced
-- if it has no more unconfirmed notifications in a row than the limit and no more octets since its
-- last report than the threshold.
pub serve_responses-Responded :
    (limit : ℕ) (rs : List (Libcoap × Response Packet)) (sv : Server)
    → AllReady limit rs
    → Covers (owed (responses_of rs) 0) sv.registrations
    → AllPaced limit sv.registrations
    → Returns (Responded limit sv rs) (serve_responses rs sv)
unfolding serve_responses
serve_responses-Responded limit [] sv h covers all = record {
  replies = (refl, refl);
  paced = all;
  refs = λ t. omega arith;
  releases = λ t. released_nil t ∙ answered_nil t;
}
serve_responses-Responded limit ((c, r) ∷ rs) sv (h, hs) covers all =
    Returns->>= (One limit c sv r) (Responded limit sv ((c, r) ∷ rs)) (serve_response c sv r) _
      (serve_response-One limit c sv r (owed (responses_of rs) 0) h
        (λ t. covers_first sv r (responses_of rs) 0 t (covers t)) all)
      (λ (sv', calls) k.
        Returns->>= (Responded limit sv' rs) (Responded limit sv ((c, r) ∷ rs))
          (serve_responses rs sv') _
          (serve_responses-Responded limit rs sv' hs
            (λ t. covers_rest sv sv' r (responses_of rs) 0 t (covers t) (k.refs t)) k.paced)
          (λ (sv'', rest) k'. record {
            replies = (sv', calls, rest, k.reply, k'.replies, refl);
            paced = k'.paced;
            refs = λ t.
                omega (
                  arith,
                  k.refs t,
                  k'.refs t,
                  answered_cons r (responses_of rs) t,
                  answered_one r t,
                );
            releases = λ t. omega (
              arith,
              released-append calls rest t,
              k.releases t,
              k'.releases t,
              answered_cons r (responses_of rs) t,
              answered_one r t,
            );
          }))
