-- ===== src/Server/State.antt =====
-- The state of the CoAP server as it serves responses, what it is answered and what it calls, and
-- the numbers and bytes of a sender report.
use ze_sense_server.Prelude.{
  ℕ, ◌*◌, ◌/◌, ◌%◌, ◌^◌, ◌==◌, ltb, leb, ◌-◌, if◌then◌else◌, Bool, List, [], ◌∷◌, get_or, Option,
  none, some,
}
use ze_sense_server.Prelude.Result.{Result, ok, fault, dangling_pointer}
use ze_sense_server.Codes.{rtp_tsclock_freq}
use ze_sense_server.Double.{Double, doublings, quotient, whole}
use ze_sense_server.Encode.{Packet}

-- The fields of `coap_registration_t` that the code reads or writes, and its reference counter,
-- which a checkout moves up and a release down.
pub record Registration : Type 0 where
  pub reskey : ℕ
  pub subscriber : ℕ
  pub token : List ℕ
  pub fail_cnt : ℕ
  pub non_cnt : ℕ
  pub notcnt : ℕ
  pub datapackcount : ℕ
  pub octcount : ℕ
  pub last_sr_octcount : ℕ
  pub last_sr_packcount : ℕ
  pub ntptwin : ℕ
  pub rtptwin : ℕ
  pub refs : ℕ

-- The fields of `coap_async_state_t` that the code reads.
pub record Async : Type 0 where
  pub id : ℕ
  pub peer : ℕ
  pub token : List ℕ

-- What the code puts into a message: its type, the bytes of the observe option, the token and the
-- payload. The code of a response is always 2.05, and libcoap picks the message id.
pub record Message : Type 0 where
  pub kind : ℕ
  pub observe : Option (List ℕ)
  pub token : List ℕ
  pub payload : List ℕ

-- The calls of libcoap, and of `test_socket_send`, in the order in which they are made.
-- `coap_notify_confirmed` is given a checkout of the registration.
pub data Call : Type 0 where
  registration_release : (reskey ticket : ℕ) → Call
  notify_confirmed : (subscriber : ℕ) → Message → (ticket : ℕ) → Call
  send_confirmed : (peer : ℕ) → Message → Call
  send : (peer : ℕ) → Message → Call
  pdu_clear : Call
  remove_async : (id : ℕ) → Call
  test_send : (peer : ℕ) → Message → Call

-- What libcoap, the clock and the memory answer while a response is served: the limits of the
-- observe module, a ticket of an asynchronous request looked up, the time, and whether the two
-- allocations of `form_sr_payload` succeed.
pub record Libcoap : Type 0 where
  pub obs_max_fail : ℕ
  pub obs_max_non : ℕ
  pub find_async : ℕ → Option Async
  pub ntp : ℕ
  pub payload_allocated : Bool
  pub data_allocated : Bool

-- The registrations by their addresses, and the two variables of the thread.
pub record Server : Type 0 where
  pub registrations : List (ℕ × Registration)
  pub first_sr_sent : ℕ
  pub sr_sent_counter : ℕ

-- A ticket of a stream is the address of its registration.
unfoldable pub find_registration : List (ℕ × Registration) → ℕ → Result Registration
find_registration [] ticket = fault dangling_pointer
find_registration ((t, reg) ∷ rs) ticket =
    if t == ticket then ok reg else find_registration rs ticket

unfoldable pub set_registration :
    List (ℕ × Registration) → ℕ → Registration → List (ℕ × Registration)
set_registration [] ticket reg = []
set_registration ((t, old) ∷ rs) ticket reg =
    if t == ticket then (t, reg) ∷ rs else (t, old) ∷ set_registration rs ticket reg

-- What the server relies on of `coap_registration_release`, in the words of its comments: the
-- release of a ticket takes one reference from its registration, which is destroyed with the last
-- one, if no transaction holds another. Its address dangles then.
unfoldable pub release : List (ℕ × Registration) → ℕ → List (ℕ × Registration)
release [] ticket = []
release ((t, reg) ∷ rs) ticket =
    let rest = release rs ticket in
    if t == ticket
    then (if leb reg.refs 1 then rs else (t, record reg { refs = reg.refs - 1 }) ∷ rs)
    else (t, reg) ∷ rest

-- The bytes of a 64-bit integer in the memory of the little-endian machine.
abbrev pub le64 : ℕ → List ℕ
le64 n =
    n % 256
    ∷ n / 2 ^ 8 % 256
    ∷ n / 2 ^ 16 % 256
    ∷ n / 2 ^ 24 % 256
    ∷ n / 2 ^ 32 % 256
    ∷ n / 2 ^ 40 % 256
    ∷ n / 2 ^ 48 % 256
    ∷ n / 2 ^ 56 % 256
    ∷ []

-- `d` after its eight assignments from `s`, on that machine.
unfoldable pub htonll : List ℕ → List ℕ
htonll s =
    get_or s 7 0
    ∷ get_or s 6 0
    ∷ get_or s 5 0
    ∷ get_or s 4 0
    ∷ get_or s 3 0
    ∷ get_or s 2 0
    ∷ get_or s 1 0
    ∷ get_or s 0 0
    ∷ []

-- "android@zesense".
abbrev pub cname : List ℕ
cname = 97 ∷ 110 ∷ 100 ∷ 114 ∷ 111 ∷ 105 ∷ 100 ∷ 64 ∷ 122 ∷ 101 ∷ 115 ∷ 101 ∷ 110 ∷ 115 ∷ 101 ∷ []

-- The bytes behind `data` and `length`; NULL comes with the length 0.
abbrev pub payload_of : Packet → List ℕ
payload_of pk = elim pk.payload [ none ↦ [] | some bytes ↦ bytes ]

-- `(double)RTP_TSCLOCK_FREQ/1000000000LL`.
abbrev pub rtp_ratio : Double
rtp_ratio = quotient doublings rtp_tsclock_freq 1_000_000_000 0

abbrev pub scaled_difference : ℕ → Double
scaled_difference d = quotient doublings (rtp_ratio.mantissa * d) (2 ^ rtp_ratio.places) 0

-- `(int)(ratio*ntpdiff)`, of the 32 bits of an `int` and in 32 bits: the cast truncates towards
-- zero.
unfoldable pub rtp_increment : ℕ → ℕ
rtp_increment ntpdiff =
    if ltb ntpdiff (2 ^ 31)
    then whole (scaled_difference ntpdiff)
    else (2 ^ 32 - whole (scaled_difference (2 ^ 32 - ntpdiff))) % 2 ^ 32
