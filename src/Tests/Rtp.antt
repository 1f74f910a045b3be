-- ===== src/Tests/Rtp.antt =====
-- A stream of the RTP server with a sample, and a reception report of one block.
use ze_sense_server.Prelude.{
  ℕ, ◌+◌, ◌*◌, ◌/◌, ◌%◌, ◌≡◌, refl, true, false, List, [], ◌∷◌, ◌++◌, length-replicate, replicate,
  get_or, some, arith,
}
use ze_sense_server.Prelude.Result.{ok, fault, out_of_bounds}
use ze_sense_server.Codes.{stream_update, non}
use ze_sense_server.Encode.{be32}
use ze_sense_server.ResBuf.{Response}
use ze_sense_server.Rtp.{RtpStream, RtpPacket, Zertp, Rtp, stream_at, rtp_serve_response}
use ze_sense_server.Rtp.Overrun.{IsExact, rtp_serve_response_overruns}
use ze_sense_server.Rtp.Datagrams.{Head, Layout, Answers, slice, head_at, dispatch_report}
use ze_sense_server.Rtp.Datagrams.Reports.{Unread, dispatch_report-Unread}
use ze_sense_server.Tests.{utlist}

abbrev zertp : Zertp
zertp = record {
  sizeof_payload_hdr = 4;
  sizeof_rtcp_hdr = 8;
  rtp_pdu_init = λ n. some (replicate n 0);
  build_minimal_sr = λ ssrc. some (replicate 100 0);
  sr_fields = λ ntp rtp oc pc. be32 ntp ++ (be32 rtp ++ (be32 oc ++ be32 pc));
  stream_list = utlist;
}

zertp-IsExact : IsExact zertp
zertp-IsExact = record {
  pdu = λ n. replicate n 0;
  made = λ n. refl;
  exact = λ n. length-replicate {A = ℕ} n 0;
  header = omega arith;
}

abbrev stream : RtpStream
stream = record {
  ssrc = 77;
  seqn = 65535;
  dest = 1;
  invalid = false;
  ntptwin = 0;
  rtptwin = 0;
  octectcount = 0;
  packetcount = 0;
  last_rtcp_octectcount = 0;
}

abbrev rtp : Rtp
rtp = record { memory = (5, stream) ∷ []; streams = 5 ∷ [] }

abbrev sample : RtpPacket
sample = record {
  sensor = 1;
  packet = record { ntpts = 1000; rtpts = 20; conf = non; payload = some (1 ∷ 2 ∷ []); length = 2 };
}

abbrev update : Response RtpPacket
update = record { rtype = stream_update; ticket = 5; pk = some sample }

rtp_serve_response_overruns_example : rtp_serve_response zertp 2000 rtp update ≡ fault out_of_bounds
unfolding stream_at
rtp_serve_response_overruns_example =
    rtp_serve_response_overruns zertp zertp-IsExact 2000 rtp update stream sample refl refl refl
      refl refl

-- The bit fields and the length as a little-endian machine reads them.
abbrev layout : Layout
layout = record {
  sizeof_rtcp_hdr = 8;
  sizeof_rtcp_rr = 24;
  sizeof_rtcp_sdes = 4;
  sizeof_rtcp_itemhead = 2;
  head = λ b. record {
    version = get_or b 0 0 / 64;
    count = get_or b 0 0 % 32;
    ptype = get_or b 1 0;
    length = get_or b 2 0 + 256 * get_or b 3 0;
  };
  item_length = λ b. get_or b 1 0;
}

abbrev host : Answers
host = record { rr_allocated = true; sdes_allocated = true; cname_allocated = true; literal = 4096 }

-- A report with one block: 0x81, 201, and a length of seven words.
abbrev report : List ℕ
report = 129 ∷ 201 ∷ 0 ∷ 7 ∷ replicate 96 0

abbrev report_head : Head
report_head = record { version = 2; count = 1; ptype = 201; length = 1792 }

report_head_lem : head_at layout report 0 ≡ ok report_head
unfolding head_at slice
report_head_lem = refl

dispatch_report-Unread_example :
    Unread layout
      (omega arith)
      (omega arith)
      report
      report_head
      (dispatch_report layout host report)
dispatch_report-Unread_example =
    dispatch_report-Unread layout (omega arith) (omega arith) host report report_head refl
      report_head_lem refl refl (omega arith)
