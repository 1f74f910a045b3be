-- ===== src/Manager/Requests/Stop.antt =====
-- The branch of the thread loop of ze_streaming_manager.c on a stop.
use mathlib.Core.Path.{subst}
use ze_sense_server.Prelude.{ℕ, ◌≡◌, ◌≢◌, sym, ap, ◌⊎◌, inl, inr, [], arith}
use ze_sense_server.Prelude.Result.{Returns, Returns->>=}
use ze_sense_server.Codes.{
  stream_update, sm_req_start, sm_req_stop, sm_req_oneshot, stream_stopped, oneshot,
}
use ze_sense_server.ReqBuf.{Request}
use ze_sense_server.Manager.{Sensor, Platform, Done}
use ze_sense_server.Manager.Ledger.{held, pending, held-remove}
use ze_sense_server.Manager.Streams.{sm_stop_stream}
use ze_sense_server.Manager.Streams.Lists.{remove}
use ze_sense_server.Manager.Streams.Stop.{Stopped, stop_stream-Stopped}
use ze_sense_server.Manager.Invariant.{IsValid}
use ze_sense_server.Manager.Requests.{serve_stop}
use ze_sense_server.Manager.Requests.Books.{
  Balanced, Served, answered_stopped, answered_none, requested_other, quiet_nil, stop_done,
}

module _ (p : Platform) (sensor : ℕ) where
  stop-Balanced :
      (s : Sensor) (req : Request) (d : Done ℕ)
      → req.rtype ≡ sm_req_stop
      → Stopped p sensor s req.ticket d
      → (reg : ℕ) → Balanced s req (stop_done d req.ticket) reg
  stop-Balanced s req d e k reg =
      let r1 = requested_other sm_req_start req reg (λ x. ground arith) in
      let r2 = requested_other sm_req_oneshot req reg (λ x. ground arith) in
      elim k.cases [
        | inl (unknown, same) ↦
            subst (λ x. Balanced s req (stop_done x req.ticket) reg) (sym same)
              (record {
                streams = omega (arith, answered_none [] stream_stopped reg quiet_nil, r1);
                oneshots = omega (arith, answered_none [] oneshot reg quiet_nil, r2);
                updates = omega (arith, answered_none [] stream_update reg quiet_nil);
              })
        | inr (i, found, k') ↦ rw (k'.result) (record {
          streams = omega (
            arith,
            ap (λ l. held l reg) k'.streams,
            held-remove s.streams req.ticket i reg found,
            answered_stopped d.effects req.ticket stream_stopped reg k'.quiet,
            r1,
          );
          oneshots = omega (
            arith,
            ap (λ l. pending l reg) k'.oneshots,
            answered_stopped d.effects req.ticket oneshot reg k'.quiet,
            r2,
          );
          updates = omega (arith, answered_stopped d.effects req.ticket stream_update reg k'.quiet);
        })
      ]

  pub serve_stop-Served :
      (s : Sensor) (req : Request)
      → IsValid sensor s
      → req.rtype ≡ sm_req_stop
      → (remove req.ticket s.streams ≢ []) ⊎ (s.oneshots ≡ [])
      → Returns (Served sensor s req) (serve_stop p sensor s req)
  unfolding serve_stop
  serve_stop-Served s req v e h =
      Returns->>= (Stopped p sensor s req.ticket) (Served sensor s req)
        (sm_stop_stream p sensor s req.ticket) _ (stop_stream-Stopped p sensor s req.ticket v h)
        (λ d k. record { valid = k.valid; balanced = stop-Balanced s req d e k })
