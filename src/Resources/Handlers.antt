-- ===== src/Resources/Handlers.antt =====
-- What a GET asks of the Streaming Manager, on every branch of the handler.
use ze_sense_server.Prelude.{
  ℕ, ◌+◌, ◌<◌, ◌≡◌, refl, ◌==◌, ◌||◌, inl, inr, Bool, Option-cases, if◌then◌else◌, List, [], ◌∷◌,
  ◌++◌, Option, some, arith,
}
use mathlib.Core.List.{append_assoc}
use ze_sense_server.Prelude.Result.{ok, ◌>>=◌, Returns, Returns-if}
use ze_sense_server.Codes.{sm_req_start, sm_req_stop, sm_req_oneshot}
use ze_sense_server.ReqBuf.{Request}
use ze_sense_server.Resources.{
  Pdu, Coap, Context, observe, ask_oneshot, unregister_found, generic_on_unregister,
  generic_get_handler,
}

-- How many representations the requests ask for.
unfoldable pub asked : List Request → ℕ
asked [] = 0
asked (r ∷ rs) = (if r.rtype == sm_req_start || r.rtype == sm_req_oneshot then 1 else 0) + asked rs

-- The requests are for the sensor; a start has a frequency; a stop names the registration.
abbrev pub Sound : (sensor : ℕ) → Option ℕ → List Request → Type 0
Sound sensor reg [] = Unit
Sound sensor reg (r ∷ rs) =
    (r.sensor ≡ sensor)
    × (r.rtype ≡ sm_req_start → 0 < r.freq)
    × (r.rtype ≡ sm_req_stop → reg ≡ some r.ticket)
    × Sound sensor reg rs

module _ {C : Type 0} (lib : Coap C) (resource sensor : ℕ) (observable : Bool) where
  pub record Asks (request : Pdu) (k k' : Context C) : Type 0 where
    pub new : List Request
    pub puts : k'.puts ≡ k.puts ++ new
    pub once : asked new ≡ 1
    pub sound :
        Sound sensor
          (lib.find_registration (lib.register_async k.coap request).1 resource request.peer)
          new

  ask_oneshot-Asks :
      (request : Pdu) (k : Context C) (id : ℕ)
      → (lib.register_async k.coap request).0 ≡ some id
      → Returns (Asks request k) (ask_oneshot lib request sensor k)
  unfolding ask_oneshot asked
  ask_oneshot-Asks request k id h = rw h (record {
    new = _;
    puts = refl;
    once = refl;
    sound = (refl, (λ e. absurd (omega (arith, e))), (λ e. absurd (omega (arith, e))), tt);
  })

  plain-Asks :
      (request : Pdu) (k : Context C) (id : ℕ)
      → (lib.register_async k.coap request).0 ≡ some id
      → Returns (Asks request k) (do
        k' ← ask_oneshot lib request sensor k
        ok (
            unregister_found lib
              (λ reg x. generic_on_unregister lib reg sensor x)
              (lib.find_registration k'.coap resource request.peer)
              k'))
  unfolding ask_oneshot asked unregister_found generic_on_unregister
  plain-Asks request k id h =
      elim (Option-cases
        (lib.find_registration (lib.register_async k.coap request).1 resource request.peer)) [
          | inl nobody ↦
              rw (h, nobody)
                (record {
                  new = _;
                  puts = refl;
                  once = refl;
                  sound = (
                    refl,
                    (λ e. absurd (omega (arith, e))),
                    (λ e. absurd (omega (arith, e))),
                    tt,
                  );
                })
          | inr (reg, found) ↦
              rw (h, found)
                (record {
                  new = _;
                  puts = append_assoc k.puts _ _;
                  once = refl;
                  sound = (
                    refl,
                    (λ e. absurd (omega (arith, e))),
                    (λ e. absurd (omega (arith, e))),
                    (refl, (λ e. absurd (omega (arith, e))), (λ e. found), tt),
                  );
                })
        ]

  -- Where the asynchronous request can be registered, a GET does not fault, and it asks the
  -- Streaming Manager for exactly one representation, by a start or a oneshot. All that it puts is
  -- for the sensor of the resource, a start has a positive frequency, and a stop only names the
  -- registration that libcoap finds for the client.
  pub generic_get_handler-Asks :
      (request : Pdu) (k : Context C) (id : ℕ)
      → (lib.register_async k.coap request).0 ≡ some id
      → Returns (Asks request k) (
          generic_get_handler lib resource observable
            (λ reg x. generic_on_unregister lib reg sensor x)
            request
            sensor
            k)
  unfolding generic_get_handler observe asked
  generic_get_handler-Asks request k id h =
      Returns-if (Asks request k) request.observe _ _
        (λ o.
          Returns-if (Asks request k) observable _ _
            (λ able. record {
              new = _;
              puts = refl;
              once = refl;
              sound = (refl, (λ e. omega arith), (λ e. absurd (omega (arith, e))), tt);
            })
            (λ unable. ask_oneshot-Asks request k id h))
        (λ plain. plain-Asks request k id h)
