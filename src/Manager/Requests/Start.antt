-- ===== src/Manager/Requests/Start.antt =====
-- The branch of the thread loop of ze_streaming_manager.c on a start.
use ze_sense_server.Prelude.{ℕ, ◌<◌, ◌≡◌, ap, inl, inr, Option, arith}
use ze_sense_server.Prelude.Result.{Returns, Returns->>=}
use ze_sense_server.Codes.{stream_update, sm_req_start, sm_req_oneshot, stream_stopped, oneshot}
use ze_sense_server.ReqBuf.{Request}
use ze_sense_server.Manager.{Stream, Sensor, Platform, Done, a_stream}
use ze_sense_server.Manager.Ledger.{held, pending}
use ze_sense_server.Manager.Streams.{sm_start_stream}
use ze_sense_server.Manager.Streams.Start.{Started, start_stream-Started}
use ze_sense_server.Manager.Invariant.{IsValid}
use ze_sense_server.Manager.Requests.{start_answer, serve_start}
use ze_sense_server.Manager.Requests.Books.{
  Able, Balanced, Served, answered_stopped, answered_none, requested_same, requested_other,
  held_fresh, held_replaced,
}

module _ (p : Platform) (sensor : ℕ) where
  start-Balanced :
      (s : Sensor) (req : Request) (d : Done (Option Stream))
      → req.rtype ≡ sm_req_start
      → Started sensor s req.ticket req.freq d
      → (reg : ℕ)
      → Balanced s req
          (record {
            sensor = d.sensor;
            effects = start_answer d.result d.effects req.ticket;
            result = tt;
          })
          reg
  unfolding start_answer
  start-Balanced s req d e k reg =
      let r1 = requested_same sm_req_start req reg e in
      let r2 = requested_other sm_req_oneshot req reg (λ x. ground arith) in
      elim k.result [
        | inl (fresh, r) ↦ rw r (record {
          streams = omega (
            arith,
            ap (λ l. held l reg) k.streams,
            held_fresh s.streams k.stream req.ticket reg fresh k.ticket,
            answered_none d.effects stream_stopped reg k.quiet,
            r1,
          );
          oneshots = omega (
            arith,
            ap (λ l. pending l reg) k.oneshots,
            answered_none d.effects oneshot reg k.quiet,
            r2,
          );
          updates = omega (arith, answered_none d.effects stream_update reg k.quiet);
        })
        | inr (i, found, r) ↦ rw r (record {
          streams = omega (
            arith,
            ap (λ l. held l reg) k.streams,
            held_replaced s.streams k.stream req.ticket reg i found k.ticket,
            answered_stopped d.effects req.ticket stream_stopped reg k.quiet,
            r1,
          );
          oneshots = omega (
            arith,
            ap (λ l. pending l reg) k.oneshots,
            answered_stopped d.effects req.ticket oneshot reg k.quiet,
            r2,
          );
          updates = omega (arith, answered_stopped d.effects req.ticket stream_update reg k.quiet);
        })
      ]

  pub serve_start-Served :
      (s : Sensor) (req : Request)
      → IsValid sensor s
      → Able p sensor
      → req.rtype ≡ sm_req_start
      → 0 < req.freq
      → Returns (Served sensor s req) (serve_start p sensor s req)
  unfolding serve_start
  serve_start-Served s req v a e h =
      Returns->>= (Started sensor s req.ticket req.freq) (Served sensor s req)
        (sm_start_stream p sensor s req.ticket req.freq) _
        (start_stream-Started p sensor s req.ticket req.freq v a.works (a.memory a_stream) h)
        (λ d k. record { valid = k.valid; balanced = start-Balanced s req d e k })
