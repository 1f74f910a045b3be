-- ===== src/Manager/Requests/Oneshot.antt =====
-- The branch of the thread loop of ze_streaming_manager.c on a oneshot.
use mathlib.Core.Path.{subst}
use ze_sense_server.Prelude.{ℕ, ◌≡◌, sym, ap, ◌==◌, true, if◌then◌else◌, [], ◌∷◌, some, arith}
use ze_sense_server.Prelude.Result.{Returns, Returns->>=, Returns-if}
use ze_sense_server.Codes.{
  stream_update, sm_req_start, sm_req_oneshot, stream_stopped, oneshot, default_freq, non,
}
use ze_sense_server.Encode.{Packet}
use ze_sense_server.ReqBuf.{Request}
use ze_sense_server.Manager.{Sensor, Platform, Done, responses, a_oneshot}
use ze_sense_server.Manager.Ledger.{held, pending, answered, pending-append}
use ze_sense_server.Manager.Sensors.{android_sensor_activate}
use ze_sense_server.Manager.Sensors.Flags.{Handled, Keeps, activate-Returns}
use ze_sense_server.Manager.Streams.{sm_new_oneshot}
use ze_sense_server.Manager.Streams.Lists.{Distinct, All}
use ze_sense_server.Manager.Invariant.{IsReady, IsValid}
use ze_sense_server.Manager.Requests.{answer, serve_oneshot}
use ze_sense_server.Manager.Requests.Books.{
  Able, Served, answered_none, requested_same, requested_other, oneshot_packet-ok,
}

module _ (p : Platform) (sensor : ℕ) where
  answered_oneshot :
      (pk : Packet) (ticket rtype reg : ℕ)
      → answered rtype (responses (answer oneshot ticket (some pk) ∷ [])) reg
        ≡ (if oneshot == rtype then (if ticket == reg then 1 else 0) else 0)
  unfolding answered responses
  answered_oneshot pk ticket rtype reg = ground arith

  pending_one : (one reg : ℕ) → pending (one ∷ []) reg ≡ (if one == reg then 1 else 0)
  unfolding pending
  pending_one one reg = ground arith

  -- What the cache does not answer waits on an active sensor.
  waits :
      (s : Sensor) (req : Request) (d : Done ℕ)
      → IsValid sensor s
      → req.rtype ≡ sm_req_oneshot
      → Keeps s d
        × (d.sensor.is_active ≡ true)
        × Handled sensor d.sensor
        × (d.sensor.cache_valid ≡ s.cache_valid)
      → Served sensor s req (record {
        sensor = record (d.sensor) {
          oneshots = p.oneshot_list.ll_append d.sensor.oneshots req.ticket;
        };
        effects = d.effects;
        result = tt;
      })
  waits s req d v e (k, on, h, c) = record {
    valid = record {
      distinct = subst Distinct (sym k.streams) v.distinct;
      ready =
          subst (λ n. All (IsReady n) d.sensor.streams) (sym k.freq)
            (subst (All (IsReady s.freq)) (sym k.streams) v.ready);
      idle = λ off. absurd (ground arith);
      handled = h;
    };
    balanced = λ reg. record {
      streams = omega (
        arith,
        ap (λ l. held l reg) k.streams,
        answered_none d.effects stream_stopped reg k.quiet,
        requested_other sm_req_start req reg (λ x. ground arith),
      );
      oneshots = omega (
        arith,
        ap (λ l. pending l reg) (p.oneshot_list.append_lem d.sensor.oneshots req.ticket),
        pending-append d.sensor.oneshots req.ticket reg,
        ap (λ l. pending l reg) k.oneshots,
        pending_one req.ticket reg,
        answered_none d.effects oneshot reg k.quiet,
        requested_same sm_req_oneshot req reg e,
      );
      updates = omega (arith, answered_none d.effects stream_update reg k.quiet);
    };
  }

  pub serve_oneshot-Served :
      (s : Sensor) (req : Request)
      → IsValid sensor s
      → Able p sensor
      → req.rtype ≡ sm_req_oneshot
      → Returns (Served sensor s req) (serve_oneshot p sensor s req)
  unfolding serve_oneshot sm_new_oneshot
  serve_oneshot-Served s req v a e =
      let (pk, m, _, _, _) = oneshot_packet-ok p s.event_cache non a.memory a.fits in
      Returns-if (Served sensor s req) s.cache_valid _ _
        (λ cached. rw m (record {
          valid = v;
          balanced = λ reg. record {
            streams = omega (
              arith,
              answered_oneshot pk req.ticket stream_stopped reg,
              requested_other sm_req_start req reg (λ x. ground arith),
            );
            oneshots = omega (
              arith,
              answered_oneshot pk req.ticket oneshot reg,
              requested_same sm_req_oneshot req reg e,
            );
            updates = omega (arith, answered_oneshot pk req.ticket stream_update reg);
          };
        }))
        (λ empty. rw (a.memory a_oneshot) (
          Returns->>= _ (Served sensor s req) (android_sensor_activate p sensor s default_freq) _
            (activate-Returns p sensor s default_freq a.works (omega arith))
            (λ d k. waits s req d v e k)))
