-- ===== src/Server/Thread.antt =====
-- The thread of ze_coap_server_core.c from its start to its end: passes of the retransmissions,
-- what is read from the network, and the service of responses.
pub mod Served
use ze_sense_server.Prelude.{ℕ, Bool, if◌then◌else◌, List, [], ◌∷◌, ◌++◌, Option, none, some}
use ze_sense_server.Prelude.Result.{Result, ok, fault, out_of_fuel, ◌>>=◌}
use ze_sense_server.Encode.{Packet}
use ze_sense_server.Ring.{Ring}
use ze_sense_server.ResBuf.{Response}
use ze_sense_server.Server.State.{Registration, Server, Call}
use ze_sense_server.Server.Loop.{Round, retransmissions, serve_sm}

-- A pass of the loop: libcoap's queue as it finds it, with the time and the flag during the
-- retransmissions; whether `select` finds data, and then what `coap_read` and `coap_dispatch` do to
-- the registrations; and the rounds of its service.
pub record Pass (Q : Type 0) : Type 0 where
  pub queue : Q
  pub now : ℕ
  pub globalexit : ℕ → Bool
  pub fuel : ℕ
  pub readable : Bool
  pub dispatch : List (ℕ × Registration) → List (ℕ × Registration)
  pub rounds : ℕ → Round

abbrev pub within_fuel : {Q : Type 0} → Option Q → Result Q
within_fuel none = fault out_of_fuel
within_fuel (some q) = ok q

-- `select`, and the reading of the socket where it has data; an error of `select` and a timeout do
-- nothing.
unfoldable pub serve_network : {Q : Type 0} → Pass Q → Server → Server
serve_network p sv =
    if p.readable then record sv { registrations = p.dispatch sv.registrations } else sv

-- The two variables of the thread at its start.
abbrev pub at_start : List (ℕ × Registration) → Server
at_start regs = record { registrations = regs; first_sr_sent = 0; sr_sent_counter = 0 }

module _ {Q : Type 0} (peek_next : Q → Option ℕ) (retransmit_next : Q → Q) where
  abbrev pub resent : Pass Q → Option Q
  resent p = retransmissions peek_next retransmit_next p.globalexit p.fuel p.now p.queue

  unfoldable pub core_pass :
      Pass Q
      → Ring (Response Packet)
      → Server
      → Result (Ring (Response Packet) × Server × List Call)
  core_pass p b sv = within_fuel (resent p) >>= λ q. serve_sm p.rounds b (serve_network p sv)

  -- The passes that are entered before `globalexit` is set.
  unfoldable pub core_passes :
      List (Pass Q)
      → Ring (Response Packet)
      → Server
      → Result (Ring (Response Packet) × Server × List Call)
  core_passes [] b sv = ok (b, sv, [])
  core_passes (p ∷ ps) b sv = do
    (b', sv', calls) ← core_pass p b sv
    (b'', sv'', rest) ← core_passes ps b' sv'
    ok (b'', sv'', calls ++ rest)

  -- The thread, with the registrations that libcoap has when it starts.
  unfoldable pub ze_coap_server_core_thread :
      List (Pass Q)
      → Ring (Response Packet)
      → List (ℕ × Registration)
      → Result (Ring (Response Packet) × Server × List Call)
  ze_coap_server_core_thread ps b regs = core_passes ps b (at_start regs)
