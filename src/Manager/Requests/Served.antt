-- ===== src/Manager/Requests/Served.antt =====
-- The branches of the thread loop of ze_streaming_manager.c on a request, and the books of tickets.
use ze_sense_server.Prelude.{ℕ, ◌≡◌, ◌≢◌, ◌⊎◌, inl, inr, [], arith}
use ze_sense_server.Prelude.Result.{ok, Returns}
use ze_sense_server.Codes.{
  stream_update, sm_req_start, sm_req_stop, sm_req_oneshot, stream_stopped, oneshot,
}
use ze_sense_server.ReqBuf.{Request}
use ze_sense_server.Manager.{Sensor, Platform}
use ze_sense_server.Manager.Invariant.{IsValid}
use ze_sense_server.Manager.Requests.{serve_start, serve_stop, serve_oneshot, serve_sensor}
use ze_sense_server.Manager.Requests.Books.{
  Able, Allowed, Served, answered_none, requested_other, quiet_nil,
}
use ze_sense_server.Manager.Requests.Start.{serve_start-Served}
use ze_sense_server.Manager.Requests.Stop.{serve_stop-Served}
use ze_sense_server.Manager.Requests.Oneshot.{serve_oneshot-Served}

module _ (p : Platform) (sensor : ℕ) where
  pub serve_sensor_cases :
      (s : Sensor) (req : Request)
      → ((req.rtype ≡ sm_req_start) × (serve_sensor p sensor s req ≡ serve_start p sensor s req))
        ⊎ ((req.rtype ≡ sm_req_stop) × (serve_sensor p sensor s req ≡ serve_stop p sensor s req))
        ⊎ ((req.rtype ≡ sm_req_oneshot)
            × (serve_sensor p sensor s req ≡ serve_oneshot p sensor s req))
        ⊎ ((req.rtype ≢ sm_req_start)
            × (req.rtype ≢ sm_req_oneshot)
            × (serve_sensor p sensor s req ≡ ok (record { sensor = s; effects = []; result = tt })))
  unfolding serve_sensor
  serve_sensor_cases s req = ground arith

  -- A request that is allowed is served without a fault, and the sensor stays valid. The books of
  -- every ticket balance: the streams that hold it and the STREAM_STOPPED answers for it are, taken
  -- together, one more than the streams that held it if the request is a start with this ticket,
  -- and as many otherwise; the same holds of its pending oneshots, the ONESHOT answers and the
  -- oneshot requests.
  pub serve_sensor-Served :
      (s : Sensor) (req : Request)
      → IsValid sensor s
      → Able p sensor
      → Allowed s req
      → Returns (Served sensor s req) (serve_sensor p sensor s req)
  serve_sensor-Served s req v a (pos, safe) = elim (serve_sensor_cases s req) [
    | inl (e, q) ↦ rw q (serve_start-Served p sensor s req v a e (pos e))
    | inr (inl (e, q)) ↦ rw q (serve_stop-Served p sensor s req v e (safe e))
    | inr (inr (inl (e, q))) ↦ rw q (serve_oneshot-Served p sensor s req v a e)
    | inr (inr (inr (n, m, q))) ↦ rw q (record {
      valid = v;
      balanced = λ reg. record {
        streams = omega (
          arith,
          answered_none [] stream_stopped reg quiet_nil,
          requested_other sm_req_start req reg n,
        );
        oneshots = omega (
          arith,
          answered_none [] oneshot reg quiet_nil,
          requested_other sm_req_oneshot req reg m,
        );
        updates = omega (arith, answered_none [] stream_update reg quiet_nil);
      };
    })
  ]
