-- ===== src/Server.antt =====
-- The part of the thread of ze_coap_server_core.c that serves the responses of the Streaming
-- Manager, and form_sr_payload. The registrations, the asynchronous requests and the sending of
-- messages belong to libcoap, which the repository does not hold.
pub mod State
pub mod Report
pub mod Increment
pub mod Notify
pub mod Ready
pub mod Serving
pub mod Loop
pub mod Thread
pub mod Socket
pub mod Stats
use ze_sense_server.Prelude.{
  ℕ, ◌+◌, ◌*◌, ◌/◌, ◌%◌, ◌^◌, ◌==◌, ltb, leb, ◌||◌, ◌&&◌, ◌-◌, if◌then◌else◌, Bool, true, false,
  List, [], ◌∷◌, ◌++◌, get_or, Option, none, some, replicate,
}
use ze_sense_server.Prelude.Result.{Result, ok, fault, dangling_pointer, exit_called, ◌>>=◌, deref}
use ze_sense_server.Codes.{
  stream_update, oneshot, stream_stopped, invalid_response, con, non, sendreport,
  rtcp_sr_bandwidth_threshold, rtp_tsclock_freq,
}
use ze_sense_server.Double.{Double, doublings, quotient, whole}
use ze_sense_server.Encode.{Packet, be16, be32, write_at}
use ze_sense_server.ResBuf.{Response}
use ze_sense_server.Server.State.{
  Registration, Async, Message, Call, registration_release, notify_confirmed, send_confirmed, send,
  pdu_clear, remove_async, test_send, Libcoap, Server, find_registration, set_registration, release,
  le64, htonll, cname, payload_of, rtp_ratio, scaled_difference, rtp_increment,
}

module _ (c : Libcoap) where
  open c use {obs_max_fail, obs_max_non, find_async, payload_allocated, data_allocated}

  -- `ntpdiff` and the timestamp; an `int` keeps 32 bits, and `uint64_t` 64.
  unfoldable pub sr_timestamp : Registration → ℕ
  sr_timestamp reg =
      let ntpdiff = (c.ntp + (2 ^ 64 - reg.ntptwin)) % 2 ^ 32 in
      (reg.rtptwin + rtp_increment ntpdiff) % 2 ^ 32

  -- The bytes written into the zeroed payload, one `memcpy` after the other.
  unfoldable pub write_report : Registration → List ℕ → Result (List ℕ)
  write_report reg buf = do
    b0 ← write_at buf 0 (sendreport ∷ 0 ∷ be16 15)
    b1 ← write_at b0 4 (htonll (le64 c.ntp))
    b2 ← write_at b1 12 (be32 (sr_timestamp reg))
    b3 ← write_at b2 16 (be32 reg.datapackcount)
    b4 ← write_at b3 20 (be32 reg.octcount)
    write_at b4 24 cname

  -- NULL if one of the allocations fails.
  unfoldable pub form_sr_payload : Registration → Result (Option (List ℕ))
  form_sr_payload reg =
      if payload_allocated && data_allocated
      then (do bytes ← write_report reg (replicate (4 + 20 + 15) 0); ok (some bytes))
      else ok none

  -- The notification of a sample, before its type is decided.
  abbrev pub update_message : ℕ → Registration → Packet → Message
  update_message kind reg pk = record {
    kind = kind;
    observe = some (be16 reg.notcnt);
    token = reg.token;
    payload = payload_of pk;
  }

  -- Whether the notification has been sent, with `non_cnt` moved: confirmed if the limit of
  -- unconfirmed ones is reached or the packet asks for it. A confirmed one takes a checkout of the
  -- registration with it.
  unfoldable pub notify : ℕ → Registration → Packet → Bool × Registration × List Call
  notify ticket reg pk =
      if leb obs_max_non reg.non_cnt || pk.conf == con
      then (
        true,
        record reg { non_cnt = 0; refs = reg.refs + 1 },
        notify_confirmed reg.subscriber (update_message con reg pk) ticket ∷ [],
      )
      else if pk.conf == non
      then (
        true,
        record reg { non_cnt = reg.non_cnt + 1 },
        send reg.subscriber (update_message non reg pk) ∷ [],
      )
      else (false, reg, [])

  -- The three counters after a notification.
  abbrev pub count_sent : Registration → Packet → Registration
  count_sent reg pk = record reg {
    notcnt = reg.notcnt + 1;
    datapackcount = reg.datapackcount + 1;
    octcount = reg.octcount + pk.length;
  }

  unfoldable pub report_due : Registration → Bool
  report_due reg =
      ltb (reg.last_sr_octcount + rtcp_sr_bandwidth_threshold) reg.octcount
      || reg.datapackcount == 1

  -- A sender report; the first one of the thread is mirrored on the test socket. The code follows
  -- the pointer that `form_sr_payload` returns.
  unfoldable pub send_report :
      ℕ → Server → Registration → Result (Server × Registration × List Call)
  unfolding form_sr_payload
  send_report ticket sv reg = do
    bytes ← deref (← form_sr_payload reg)
    let msg : Message = record {
      kind = con;
      observe = some (be16 reg.notcnt);
      token = reg.token;
      payload = bytes;
    }
    let mirrored = if sv.first_sr_sent == 0 then test_send reg.subscriber msg ∷ [] else []
    ok (
      record sv { first_sr_sent = 1; sr_sent_counter = sv.sr_sent_counter + 1 },
      record reg { last_sr_octcount = reg.octcount; last_sr_packcount = reg.datapackcount },
      mirrored ++ send_confirmed reg.subscriber msg ∷ [],
    )

  -- What follows a notification that has been sent.
  unfoldable pub after_notify :
      ℕ → Server → Registration → Packet → Result (Server × Registration × List Call)
  after_notify ticket sv reg pk =
      let reg' = count_sent reg pk in
      if report_due reg' then send_report ticket sv reg' else ok (sv, reg', [])

  -- A sample for a registration that is still valid.
  unfoldable pub update_registration :
      ℕ → Server → Registration → Packet → Result (Server × Registration × List Call)
  update_registration ticket sv reg pk =
      let (sent, reg', calls) =
        notify ticket (record reg { ntptwin = pk.ntpts; rtptwin = pk.rtpts }) pk in
      if sent
      then (do
        (sv', reg'', reports) ← after_notify ticket sv reg' pk
        ok (sv', reg'', calls ++ reports))
      else ok (sv, reg', calls)

  -- A registration with too many failures is left alone; then the packet is not read.
  unfoldable pub serve_registration :
      Server → ℕ → Option Packet → Registration → Result (Server × List Call)
  serve_registration sv ticket pk reg =
      if leb reg.fail_cnt obs_max_fail
      then (do
        p ← deref pk
        (sv', reg', calls) ← update_registration ticket sv reg p
        ok (record sv' { registrations = set_registration sv.registrations ticket reg' }, calls))
      else ok (sv, [])

  unfoldable pub serve_update : Server → ℕ → Option Packet → Result (Server × List Call)
  serve_update sv ticket pk = do
    reg ← find_registration sv.registrations ticket
    serve_registration sv ticket pk reg

  -- The answer to an asynchronous request, which is removed whatever the type of the packet.
  unfoldable pub answer_async : Option Async → Option Packet → Result (List Call)
  answer_async none pk = ok []
  answer_async (some asy) pk = do
    p ← deref pk
    let msg : Message = record {
      kind = p.conf;
      observe = none;
      token = asy.token;
      payload = payload_of p;
    }
    ok (
        (if p.conf == con
          then send_confirmed asy.peer msg ∷ []
          else if p.conf == non
          then send asy.peer msg ∷ pdu_clear ∷ []
          else [])
        ++ remove_async asy.id ∷ [])

  -- One response; an unknown type ends the process.
  unfoldable pub serve_response : Server → Response Packet → Result (Server × List Call)
  serve_response sv r =
      if r.rtype == stream_stopped
      then (do
        reg ← find_registration sv.registrations r.ticket
        ok (
          record sv { registrations = release sv.registrations r.ticket },
          registration_release reg.reskey r.ticket ∷ [],
        ))
      else if r.rtype == oneshot
      then (do calls ← answer_async (find_async r.ticket) r.pk; ok (sv, calls))
      else if r.rtype == stream_update
      then serve_update sv r.ticket r.pk
      else if r.rtype == invalid_response
      then ok (sv, [])
      else fault exit_called
