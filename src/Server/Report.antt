-- ===== src/Server/Report.antt =====
-- The bytes of a sender report.
use ze_sense_server.Prelude.{ℕ, ◌/◌, ◌^◌, ◌≡◌, refl, ap, List, ◌∷◌, ◌++◌, true, some, arith}
use ze_sense_server.Prelude.Result.{ok}
use ze_sense_server.Codes.{sendreport}
use ze_sense_server.Encode.{be16, be32, write_at, overwrite}
use ze_sense_server.Server.State.{Registration, Libcoap, le64, htonll, cname}
use ze_sense_server.Server.{sr_timestamp, write_report, form_sr_payload}

-- A 64-bit integer, most significant byte first.
abbrev pub be64 : ℕ → List ℕ
be64 n = be32 (n / 2 ^ 32) ++ be32 n

htonll-be64 : (n : ℕ) → htonll (le64 n) ≡ be64 n
unfolding htonll
htonll-be64 n =
    let e : (k : ℕ) → n / 2 ^ 32 / 2 ^ 24 ≡ n / 2 ^ 56 = λ k. omega arith in
    let f : (k : ℕ) → n / 2 ^ 32 / 2 ^ 16 ≡ n / 2 ^ 48 = λ k. omega arith in
    let g : (k : ℕ) → n / 2 ^ 32 / 2 ^ 8 ≡ n / 2 ^ 40 = λ k. omega arith in rw (e 0, f 0, g 0) refl

-- The bytes that the report of a registration has.
abbrev pub report_bytes : Libcoap → Registration → List ℕ
report_bytes c reg =
    (sendreport ∷ 0 ∷ be16 15)
    ++ be64 c.ntp
    ++ be32 (sr_timestamp c reg)
    ++ be32 reg.datapackcount
    ++ be32 reg.octcount
    ++ cname

-- With both allocations made, `form_sr_payload` writes inside its payload and fills it: the header,
-- the time, the timestamp that belongs to it, the packet count and the octet count, all in network
-- order, and the name of the server.
pub form_sr_payload_layout :
    (c : Libcoap) (reg : Registration)
    → c.payload_allocated ≡ true
    → c.data_allocated ≡ true
    → form_sr_payload c reg ≡ ok (some (report_bytes c reg))
unfolding form_sr_payload write_report write_at overwrite htonll sr_timestamp
form_sr_payload_layout c reg m d =
    rw (m, d)
      (ap
        (λ l. ok (
          some (
            (sendreport ∷ 0 ∷ be16 15)
            ++ l
            ++ be32 (sr_timestamp c reg)
            ++ be32 reg.datapackcount
            ++ be32 reg.octcount
            ++ cname)))
        (htonll-be64 c.ntp))
