-- ===== src/Rtp/Thread.antt =====
-- ze_rtp_server_core_thread of ze_rtp_server_core.c: the wait for a participant, the start of its
-- stream, and the loop that serves the responses of the Streaming Manager.
use ze_sense_server.Prelude.{
  ℕ, zero, suc, ◌==◌, if◌then◌else◌, Bool, List, [], ◌∷◌, ◌++◌, Option, none, some,
}
use ze_sense_server.Prelude.Utlist.{Utlist}
use ze_sense_server.Prelude.Result.{Result, ok, fault, out_of_fuel, ◌>>=◌}
use ze_sense_server.Codes.{sm_req_start, accelerometer}
use ze_sense_server.Ring.{Ring}
use ze_sense_server.ReqBuf.{ReqBuf, put_request_buf_item}
use ze_sense_server.ResBuf.{Response, get_response_buf_item}
use ze_sense_server.Server.Loop.{smreq_ratio}
use ze_sense_server.Rtp.{RtpStream, RtpPacket, Zertp, Sent, Rtp, rtp_serve_response}
use ze_sense_server.Rtp.Datagrams.{Layout, Answers, rtp_read_dispatch}

-- One `select` on the socket: nothing, or a datagram (`none` if it cannot be received) with the
-- address that it comes from.
pub record Select : Type 0 where
  pub host : Answers
  pub readable : Bool
  pub received : Option (List ℕ)
  pub src : ℕ

-- The loop until a datagram starts the session: the static buffer then, and `rctx->dst`.
unfoldable pub await_session : Layout → List Select → (buf : List ℕ) → Result (List ℕ × ℕ)
await_session l [] buf = fault out_of_fuel
await_session l (e ∷ es) buf =
    if e.readable
    then (do
      (r, buf') ← rtp_read_dispatch l e.host buf e.received
      let rest = await_session l es buf'
      if r == 2 then ok (buf', e.src) else rest)
    else await_session l es buf

abbrev pub rtp_freq : ℕ
rtp_freq = 20

-- The stream that is made for the participant: `rtp_stream_init` gives its address and what it
-- contains, or NULL; then the thread ends with minus one.
unfoldable pub rtp_start_stream :
    Utlist ℕ
    → Option (ℕ × RtpStream)
    → (random : ℕ × ℕ) → (dst : ℕ) → (ReqBuf → ReqBuf)
    → ReqBuf
    → Option (Rtp × ReqBuf)
rtp_start_stream list none random dst wait smreqbuf = none
rtp_start_stream list (some (address, str)) random dst wait smreqbuf = some (
  record {
    memory = (address, record str { ssrc = random.0; seqn = random.1; dest = dst }) ∷ [];
    streams = list.ll_append [] address;
  },
  put_request_buf_item wait smreqbuf sm_req_start accelerometer address rtp_freq,
)

-- A round: the time if a report is made in it, and what the Streaming Manager does to the buffer by
-- its end.
pub record RtpRound : Type 0 where
  pub ntp : ℕ
  pub others : Ring (Response RtpPacket) → Ring (Response RtpPacket)

unfoldable pub rtp_serve_rounds :
    Zertp
    → (ℕ → RtpRound)
    → (n : ℕ) → Ring (Response RtpPacket)
    → Rtp
    → Result (Ring (Response RtpPacket) × Rtp × List Sent)
rtp_serve_rounds z rounds zero notbuf s = ok (notbuf, s, [])
rtp_serve_rounds z rounds (suc n) notbuf s = do
  let (r, notbuf') = get_response_buf_item notbuf
  (s', sent) ← rtp_serve_response z (rounds n).ntp s r
  (notbuf'', s'', rest) ← rtp_serve_rounds z rounds n ((rounds n).others notbuf') s'
  ok (notbuf'', s'', sent ++ rest)

-- One pass of the loop; what is received meanwhile is not read. The code has no end of the loop.
unfoldable pub rtp_serve_sm :
    Zertp
    → (ℕ → RtpRound)
    → Ring (Response RtpPacket)
    → Rtp
    → Result (Ring (Response RtpPacket) × Rtp × List Sent)
rtp_serve_sm z rounds notbuf s = rtp_serve_rounds z rounds smreq_ratio notbuf s

unfoldable pub rtp_serve_passes :
    Zertp → List (ℕ → RtpRound) → Ring (Response RtpPacket) → Rtp → Result (Rtp × List Sent)
rtp_serve_passes z [] notbuf s = ok (s, [])
rtp_serve_passes z (rounds ∷ passes) notbuf s = do
  (notbuf', s', sent) ← rtp_serve_sm z rounds notbuf s
  (s'', rest) ← rtp_serve_passes z passes notbuf' s'
  ok (s'', sent ++ rest)

-- The thread through some passes of its loop: what it has put into the request buffer, its streams,
-- and what it has sent, or `none` where it has returned minus one.
unfoldable pub ze_rtp_server_core_thread :
    Layout
    → Zertp
    → List Select
    → (buf : List ℕ) → Option (ℕ × RtpStream)
    → (random : ℕ × ℕ) → (ReqBuf → ReqBuf)
    → ReqBuf
    → List (ℕ → RtpRound)
    → Ring (Response RtpPacket)
    → Result (Option (ReqBuf × Rtp × List Sent))
ze_rtp_server_core_thread l z selects buf made random wait smreqbuf passes notbuf = do
  (buf', dst) ← await_session l selects buf
  elim (rtp_start_stream z.stream_list made random dst wait smreqbuf) [
    | none ↦ ok none
    | some (s, smreqbuf') ↦
        rtp_serve_passes z passes notbuf s >>= λ (s', sent). ok (some (smreqbuf', s', sent))
  ]
