-- ===== src/Tests/Thread.antt =====
-- A run of the CoAP server thread: a pass that reads a new registration from the network and
-- serves the two responses of the buffer, and one that finds nothing to do.
use ze_sense_server.Prelude.{
  ℕ, ◌≤◌, ◌≡◌, ◌==◌, refl, inl, inr, true, false, List, [], ◌∷◌, Bool-cases, arith,
}
use ze_sense_server.Prelude.Result.{Returns}
use ze_sense_server.Ring.{get_item}
use ze_sense_server.ResBuf.{get_response_buf_item}
use ze_sense_server.Codes.{con, non}
use mathlib.Core.Path.{subst}
use ze_sense_server.Manager.Ledger.{owed}
use ze_sense_server.Server.State.{Registration}
use ze_sense_server.Server.Ready.{Covers, refs_of}
use ze_sense_server.Server.Loop.{arrive}
use ze_sense_server.Server.Loop.Drained.{drained}
use ze_sense_server.Server.Thread.{Pass, serve_network, at_start, ze_coap_server_core_thread}
use ze_sense_server.Server.Thread.Served.{
  IsOrderly, passes_drained, owed_by, Served, Met, ze_coap_server_core_thread-Served,
}
use ze_sense_server.Tests.Server.{server, registration, packet}
use ze_sense_server.Tests.Loop.{
  round, two, two-IsValid, messages, first_time, again, sendings, one_less,
}

abbrev pub registers : List (ℕ × Registration) → List (ℕ × Registration)
registers regs = (9, registration) ∷ regs

abbrev pub busy : Pass (List (ℕ × ℕ))
busy = record {
  queue = messages;
  now = 200;
  globalexit = λ i. false;
  fuel = 10;
  readable = true;
  dispatch = registers;
  rounds = round;
}

abbrev pub idle : Pass (List (ℕ × ℕ))
idle = record busy { queue = []; fuel = 1; readable = false }

-- The network brings a registration with two references, and no more are needed.
pub registers-IsOrderly : (needed : ℕ → ℕ) → needed 9 ≤ 2 → IsOrderly 10 needed registers
unfolding refs_of
registers-IsOrderly needed few = record {
  paced = λ regs h.
      (record { unconfirmed = omega arith; reported = omega arith; recent = omega arith }, h);
  covers = λ regs h t. elim (Bool-cases (9 == t)) [
    | inl new ↦ let e : 9 ≡ t = ground arith in rw new (subst (λ u. needed u ≤ 2) e few)
    | inr old ↦ rw old (h t)
  ];
}

both-Met : Met first_time again sendings one_less 10 (busy ∷ idle ∷ []) two
unfolding Met passes_drained drained get_response_buf_item get_item arrive serve_network owed
both-Met = (
  omega arith,
  registers-IsOrderly _ (omega arith),
  (
    record {
      limited = refl;
      payload_memory = refl;
      data_memory = refl;
      cases = inr (inl (refl, (packet non, refl, inr refl)));
    },
    (
      record {
        limited = refl;
        payload_memory = refl;
        data_memory = refl;
        cases = inr (inr (inl (refl, (packet con, refl, inl refl))));
      },
      tt,
    ),
  ),
  (omega arith, registers-IsOrderly _ (omega arith), tt, tt),
)

both-Covers : Covers (owed_by (busy ∷ idle ∷ []) two) server.registrations
unfolding passes_drained drained get_response_buf_item get_item arrive owed refs_of
both-Covers t = ground arith

ze_coap_server_core_thread-Served_example :
    Returns
      (Served 10 (busy ∷ idle ∷ []) two (at_start server.registrations))
      (ze_coap_server_core_thread first_time again (busy ∷ idle ∷ []) two server.registrations)
ze_coap_server_core_thread-Served_example =
    ze_coap_server_core_thread-Served first_time again sendings one_less 10 server.registrations
      (busy ∷ idle ∷ []) two both-Met two-IsValid
      (record { unconfirmed = omega arith; reported = omega arith; recent = omega arith }, tt)
      both-Covers
