-- ===== src/Resources.antt =====
-- ze_coap_resources.c: the resources of the server and the handlers of their requests. libcoap
-- keeps the registrations and the asynchronous requests; the repository does not hold it.
pub mod Handlers
pub mod Tickets
use ze_sense_server.Prelude.{
  ℕ, zero, suc, ◌+◌, ◌≡◌, if◌then◌else◌, Bool, true, false, List, [], ◌∷◌, ◌++◌, Option, none, some,
}
use ze_sense_server.Prelude.Result.{Result, ok, fault, ◌>>=◌, deref}
use ze_sense_server.Codes.{
  sm_req_start, sm_req_stop, sm_req_oneshot, accelerometer, location, proximity, light, orientation,
  gyroscope,
}
use ze_sense_server.ReqBuf.{Request}

-- What a handler reads of a request: whether it has an observe option, who sent it, its token, and
-- the rest as libcoap sees it.
pub record Pdu : Type 0 where
  pub observe : Bool
  pub peer : ℕ
  pub token : List ℕ
  pub id : ℕ

-- The functions of libcoap that the handlers call, on its state `C`. A resource is its key, a
-- registration its address.
pub record Coap (C : Type 0) : Type 0 where
  pub add_registration : C → (resource peer : ℕ) → (token : List ℕ) → ℕ × C
  pub registration_checkout : C → ℕ → ℕ × C
  pub register_async : C → Pdu → Option ℕ × C
  pub find_registration : C → (resource peer : ℕ) → Option ℕ
  pub invalidate : C → ℕ → C
  -- The checkout counts a reference, and returns the registration that it is given.
  pub checkout_lem : (k : C) (reg : ℕ) → (registration_checkout k reg).0 ≡ reg

-- The state of libcoap, the requests put into the buffer of the Streaming Manager, in their order,
-- and the counters of receiver reports.
pub record Context (C : Type 0) : Type 0 where
  pub coap : C
  pub puts : List Request
  pub accel_rr_received : ℕ
  pub prox_rr_received : ℕ
  pub light_rr_received : ℕ
  pub gyro_rr_received : ℕ
  pub location_rr_received : ℕ
  pub orient_rr_received : ℕ
  pub rr_rec_counter : ℕ

module _ {C : Type 0} where
  -- `put_request_buf_item(context->smreqbuf, rtype, sensor, ticket, freq)`.
  abbrev pub put_request : (rtype sensor ticket freq : ℕ) → Context C → Context C
  put_request rtype sensor ticket freq k = record k {
    puts = k.puts ++ record { rtype = rtype; sensor = sensor; ticket = ticket; freq = freq } ∷ [];
  }

module _ {C : Type 0} (lib : Coap C) where
  unfoldable pub generic_on_unregister : (reg sensor : ℕ) → Context C → Context C
  generic_on_unregister reg sensor k =
      put_request sm_req_stop sensor reg 0 (record k { coap = lib.invalidate k.coap reg })

  -- `asy->id`, for an asynchronous request that could be registered.
  unfoldable pub ask_oneshot : Pdu → (sensor : ℕ) → Context C → Result (Context C)
  ask_oneshot request sensor k = do
    let (asy, coap) = lib.register_async k.coap request
    id ← deref asy
    ok (put_request sm_req_oneshot sensor id 0 (record k { coap = coap }))

  -- A client that was observing is unregistered.
  unfoldable pub unregister_found : (ℕ → Context C → Context C) → Option ℕ → Context C → Context C
  unregister_found on_unregister none k = k
  unregister_found on_unregister (some reg) k = on_unregister reg k

  unfoldable pub observe : (resource : ℕ) → Pdu → (sensor : ℕ) → Context C → Context C
  observe resource request sensor k =
      let (reg, coap) = lib.add_registration k.coap resource request.peer request.token in
      let (ticket, coap') = lib.registration_checkout coap reg in
      put_request sm_req_start sensor ticket 10 (record k { coap = coap' })

  unfoldable pub generic_get_handler :
      (resource : ℕ) (observable : Bool)
      → (ℕ → Context C → Context C)
      → Pdu
      → (sensor : ℕ) → Context C
      → Result (Context C)
  generic_get_handler resource observable on_unregister request sensor k =
      if request.observe
      then if observable
        then ok (observe resource request sensor k)
        else ask_oneshot request sensor k
      else (do
        k' ← ask_oneshot request sensor k
        ok (
            unregister_found on_unregister (lib.find_registration k'.coap resource request.peer)
              k'))

  abbrev pub generic_post_handler : Context C → Context C
  generic_post_handler k = record k { rr_rec_counter = k.rr_rec_counter + 1 }

-- A resource with its path and its handlers.
pub record Resource (C : Type 0) : Type 0 where
  pub uri : List ℕ
  pub observable : Bool
  pub on_unregister : ℕ → Context C → Context C
  pub get : Pdu → Context C → Result (Context C)
  pub post : Context C → Context C

-- The first `n` bytes of a string literal, which ends with a zero.
unfoldable pub prefix : ℕ → List ℕ → List ℕ
prefix zero xs = []
prefix (suc n) [] = 0 ∷ []
prefix (suc n) (x ∷ xs) = x ∷ prefix n xs

-- "accel", "location", "proximity", "light", "orientation" and "gyroscope".
abbrev pub accel_name : List ℕ
accel_name = 97 ∷ 99 ∷ 99 ∷ 101 ∷ 108 ∷ []

abbrev pub location_name : List ℕ
location_name = 108 ∷ 111 ∷ 99 ∷ 97 ∷ 116 ∷ 105 ∷ 111 ∷ 110 ∷ []

abbrev pub proximity_name : List ℕ
proximity_name = 112 ∷ 114 ∷ 111 ∷ 120 ∷ 105 ∷ 109 ∷ 105 ∷ 116 ∷ 121 ∷ []

abbrev pub light_name : List ℕ
light_name = 108 ∷ 105 ∷ 103 ∷ 104 ∷ 116 ∷ []

abbrev pub orientation_name : List ℕ
orientation_name = 111 ∷ 114 ∷ 105 ∷ 101 ∷ 110 ∷ 116 ∷ 97 ∷ 116 ∷ 105 ∷ 111 ∷ 110 ∷ []

abbrev pub gyroscope_name : List ℕ
gyroscope_name = 103 ∷ 121 ∷ 114 ∷ 111 ∷ 115 ∷ 99 ∷ 111 ∷ 112 ∷ 101 ∷ []

module _ {C : Type 0} (lib : Coap C) where
  -- The handlers of a resource for a sensor; `key` is the key that libcoap gives the resource.
  unfoldable pub resource_of :
      (key : ℕ) (uri : List ℕ) (sensor : ℕ) → (Context C → Context C) → Resource C
  resource_of key uri sensor count =
      let unregister : ℕ → Context C → Context C =
        λ reg k. generic_on_unregister lib reg sensor k in
      record {
        uri = uri;
        observable = true;
        on_unregister = unregister;
        get = λ request k. generic_get_handler lib key true unregister request sensor k;
        post = λ k. generic_post_handler lib (count k);
      }

  unfoldable pub ze_coap_init_accel : ℕ → Resource C
  ze_coap_init_accel key =
      resource_of key (prefix 5 accel_name) accelerometer
        (λ k. record k { accel_rr_received = k.accel_rr_received + 1 })

  unfoldable pub ze_coap_init_location : ℕ → Resource C
  ze_coap_init_location key =
      resource_of key (prefix 9 location_name) location
        (λ k. record k { location_rr_received = k.location_rr_received + 1 })

  unfoldable pub ze_coap_init_proximity : ℕ → Resource C
  ze_coap_init_proximity key =
      resource_of key (prefix 9 proximity_name) proximity
        (λ k. record k { prox_rr_received = k.prox_rr_received + 1 })

  unfoldable pub ze_coap_init_light : ℕ → Resource C
  ze_coap_init_light key =
      resource_of key (prefix 5 light_name) light
        (λ k. record k { light_rr_received = k.light_rr_received + 1 })

  unfoldable pub ze_coap_init_orient : ℕ → Resource C
  ze_coap_init_orient key =
      resource_of key (prefix 11 orientation_name) orientation
        (λ k. record k { orient_rr_received = k.orient_rr_received + 1 })

  unfoldable pub ze_coap_init_gyro : ℕ → Resource C
  ze_coap_init_gyro key =
      resource_of key (prefix 9 gyroscope_name) gyroscope
        (λ k. record k { gyro_rr_received = k.gyro_rr_received + 1 })

  -- The resources in the order in which they are added; libcoap gives the keys.
  unfoldable pub ze_coap_init_resources : (ℕ → ℕ) → Context C → List (Resource C) × Context C
  ze_coap_init_resources key k = (
    ze_coap_init_accel (key 0)
        ∷ ze_coap_init_location (key 1)
        ∷ ze_coap_init_proximity (key 2)
        ∷ ze_coap_init_light (key 3)
        ∷ ze_coap_init_orient (key 4)
        ∷ ze_coap_init_gyro (key 5)
        ∷ [],
    record k {
      accel_rr_received = 0;
      prox_rr_received = 0;
      light_rr_received = 0;
      gyro_rr_received = 0;
      location_rr_received = 0;
      orient_rr_received = 0;
      rr_rec_counter = 0;
    },
  )
