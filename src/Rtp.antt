-- ===== src/Rtp.antt =====
-- ze_rtp_server_core.c: the state of the RTP server, and its branches on a response of the
-- Streaming Manager. The structures and calls that it takes from libzertp, which the repository does
-- not hold, are in the record Zertp; `ze_sm_packet_t` has no field `sensor`, so the packets of this
-- file have one more.
pub mod Single
pub mod Datagrams
pub mod Thread
pub mod Overrun
use ze_sense_server.Prelude.{
  ℕ, ◌+◌, ◌*◌, ◌%◌, ◌^◌, ◌-◌, ◌==◌, ltb, ◌||◌, Bool, true, false, if◌then◌else◌, List, [], ◌∷◌,
  ◌++◌, Option, none, some,
}
use ze_sense_server.Prelude.Utlist.{Utlist}
use ze_sense_server.Prelude.Result.{
  Result, ok, fault, null_pointer, dangling_pointer, exit_called, ◌>>=◌, deref,
}
use ze_sense_server.Codes.{
  stream_update, oneshot, stream_stopped, invalid_response, rtcp_sr_bandwidth_threshold,
}
use ze_sense_server.Encode.{Packet, be32, write_at}
use ze_sense_server.ResBuf.{Response}
use ze_sense_server.Rtp.Single.{float_increment}

-- The fields of `rtp_stream_t` that the code reads or writes.
pub record RtpStream : Type 0 where
  pub ssrc : ℕ
  pub seqn : ℕ
  pub dest : ℕ
  pub invalid : Bool
  pub ntptwin : ℕ
  pub rtptwin : ℕ
  pub octectcount : ℕ
  pub packetcount : ℕ
  pub last_rtcp_octectcount : ℕ

pub record RtpPacket : Type 0 where
  pub sensor : ℕ
  pub packet : Packet

-- libzertp: the sizes of two of its structures, what the memory behind the payload of a new PDU and
-- behind the header of a new report holds, NULL if there is none, and the bytes of the four fields
-- of a report in the order of `rtcp_sr_t`.
pub record Zertp : Type 0 where
  pub sizeof_payload_hdr : ℕ
  pub sizeof_rtcp_hdr : ℕ
  pub rtp_pdu_init : (length : ℕ) → Option (List ℕ)
  pub build_minimal_sr : (ssrc : ℕ) → Option (List ℕ)
  pub sr_fields : (ntpts rtpts ocount pcount : ℕ) → List ℕ
  pub stream_list : Utlist ℕ

-- The calls that send: a packet with the sequence number, the timestamp and the SSRC of its header
-- and the memory behind its payload, or a report.
pub data Sent : Type 0 where
  rtp_send : (dest seqn timestamp ssrc : ℕ) → (payload : List ℕ) → Sent
  rtcp_send : (dest : ℕ) → (report : List ℕ) → Sent

-- The streams in memory by their addresses, and the list `rctx->streams`. A stream that leaves the
-- list is not freed.
pub record Rtp : Type 0 where
  pub memory : List (ℕ × RtpStream)
  pub streams : List ℕ

unfoldable pub stream_at : List (ℕ × RtpStream) → ℕ → Result RtpStream
stream_at [] ticket = fault dangling_pointer
stream_at ((t, str) ∷ ss) ticket = if t == ticket then ok str else stream_at ss ticket

unfoldable pub set_stream_at : List (ℕ × RtpStream) → ℕ → RtpStream → List (ℕ × RtpStream)
set_stream_at [] ticket str = []
set_stream_at ((t, old) ∷ ss) ticket str =
    if t == ticket then (t, str) ∷ ss else (t, old) ∷ set_stream_at ss ticket str

-- Where an element stands in a list.
abbrev pub position : List ℕ → ℕ → Option ℕ
position [] ticket = none
position (t ∷ ts) ticket =
    if t == ticket
    then some 0
    else (elim (position ts ticket) [ none ↦ none | some i ↦ some (i + 1) ])

-- The stream after a packet.
abbrev pub count_packet : RtpStream → RtpPacket → RtpStream
count_packet str pk = record str {
  ntptwin = pk.packet.ntpts;
  rtptwin = pk.packet.rtpts;
  seqn = str.seqn + 1;
  octectcount = str.octectcount + pk.packet.length;
  packetcount = str.packetcount + 1;
}

abbrev pub sr_due : RtpStream → Bool
sr_due str =
    str.packetcount == 1
    || ltb (str.last_rtcp_octectcount + rtcp_sr_bandwidth_threshold) str.octectcount

module _ (z : Zertp) where
  open z use {sizeof_payload_hdr, sizeof_rtcp_hdr}

  -- LL_DELETE of an element that may not be there: it follows the head, and otherwise unlinks
  -- nothing.
  unfoldable pub unlink : List ℕ → (ticket : ℕ) → Result (List ℕ)
  unlink [] ticket = fault null_pointer
  unlink (t ∷ ts) ticket = elim (position (t ∷ ts) ticket) [
    | none ↦ ok (t ∷ ts)
    | some i ↦ ok (z.stream_list.ll_delete (t ∷ ts) i)
  ]

  -- `pht` is a pointer to `rtp_payload_hdr_t`, so the samples are written `sizeof` times `sizeof`
  -- bytes behind the start of the payload.
  unfoldable pub send_packet : RtpStream → RtpPacket → Result Sent
  send_packet str pk = do
    mem ← deref (z.rtp_pdu_init (pk.packet.length + sizeof_payload_hdr))
    headed ← write_at mem 0 (be32 pk.sensor)
    filled ←
        write_at headed (sizeof_payload_hdr * sizeof_payload_hdr)
          (elim pk.packet.payload [ none ↦ [] | some bytes ↦ bytes ])
    ok (rtp_send str.dest (str.seqn % 2 ^ 16) pk.packet.rtpts str.ssrc filled)

  -- `srtemp` stands as many headers behind the header as the header has bytes.
  unfoldable pub send_sr : (ntp : ℕ) → RtpStream → Result Sent
  send_sr ntp str = do
    mem ← deref (z.build_minimal_sr str.ssrc)
    increment ← float_increment ((ntp + (2 ^ 64 - str.ntptwin)) % 2 ^ 64)
    report ←
        write_at mem (sizeof_rtcp_hdr * sizeof_rtcp_hdr)
          (z.sr_fields ntp ((str.rtptwin + increment) % 2 ^ 32) str.octectcount str.packetcount)
    ok (rtcp_send str.dest report)

  unfoldable pub report_if_due : (ntp : ℕ) → RtpStream → Result (List Sent)
  report_if_due ntp str = if sr_due str then (do sr ← send_sr ntp str; ok (sr ∷ [])) else ok []

  -- A sample for a stream that is valid.
  unfoldable pub stream_sample : (ntp : ℕ) → RtpStream → RtpPacket → Result (RtpStream × List Sent)
  stream_sample ntp str pk = do
    packet ← send_packet str pk
    reports ← report_if_due ntp (count_packet str pk)
    ok (count_packet str pk, packet ∷ reports)

  -- A sample for the stream of the ticket; a stream that is no longer valid is left alone.
  unfoldable pub rtp_update :
      (ntp ticket : ℕ) → Option RtpPacket → Rtp → RtpStream → Result (Rtp × List Sent)
  rtp_update ntp ticket pk s str = if str.invalid then ok (s, []) else (do
    p ← deref pk
    (str', sent) ← stream_sample ntp str p
    ok (record s { memory = set_stream_at s.memory ticket str' }, sent))

  -- One response, at the time `ntp`.
  unfoldable pub rtp_serve_response :
      (ntp : ℕ) → Rtp → Response RtpPacket → Result (Rtp × List Sent)
  rtp_serve_response ntp s r =
      if r.rtype == stream_stopped
      then (do ts ← unlink s.streams r.ticket; ok (record s { streams = ts }, []))
      else if r.rtype == oneshot
      then ok (s, [])
      else if r.rtype == stream_update
      then (do str ← stream_at s.memory r.ticket; rtp_update ntp r.ticket r.pk s str)
      else if r.rtype == invalid_response
      then ok (s, [])
      else fault exit_called
