-- ===== src/Resources/Tickets.antt =====
-- The requests that the handlers of one client's messages put, and what becomes of them.
use ze_sense_server.Prelude.{
  ℕ, ◌≡◌, ◌≢◌, sym, ap, ◌∙◌, true, false, List, [], ◌∷◌, ◌++◌, some, arith,
}
use ze_sense_server.Prelude.Result.{
  Result, ok, fault, null_pointer, ◌>>=◌, Returns, Returns->>=, Returns-if, >>=-fault, fault->>=,
}
use ze_sense_server.Codes.{sm_req_start, sm_req_stop, sm_req_oneshot, default_freq}
use ze_sense_server.ReqBuf.{Request}
use ze_sense_server.Manager.{Stream, Sensor, zero_sensor, Platform, a_stream, a_oneshot}
use ze_sense_server.Manager.Invariant.{zero_sensor-IsValid}
use ze_sense_server.Manager.Sensors.{android_sensor_activate}
use ze_sense_server.Manager.Sensors.Flags.{activate-Returns}
use ze_sense_server.Manager.Streams.{sm_new_oneshot, sm_stop_stream, sm_start_stream}
use ze_sense_server.Manager.Streams.Lists.{remove}
use ze_sense_server.Manager.Streams.Start.{Started, start_stream-Started}
use ze_sense_server.Manager.Streams.Stop.{stop_stream_pending_faults}
use ze_sense_server.Manager.Requests.{serve_sensor, serve_start, serve_stop, serve_oneshot}
use ze_sense_server.Manager.Requests.Books.{Able}
use ze_sense_server.Resources.{
  Pdu, Coap, Context, observe, ask_oneshot, unregister_found, generic_on_unregister,
  generic_get_handler,
}

-- Requests served on one sensor, one after the other.
pub serve_all : Platform → (sensor : ℕ) → List Request → Sensor → Result Sensor
serve_all p sensor [] s = ok s
serve_all p sensor (r ∷ rs) s = do d ← serve_sensor p sensor s r; serve_all p sensor rs d.sensor

abbrev pub request_of : (rtype sensor ticket freq : ℕ) → Request
request_of rtype sensor ticket freq = record {
  rtype = rtype;
  sensor = sensor;
  ticket = ticket;
  freq = freq;
}

module _ (p : Platform) (sensor : ℕ) where
  -- A sensor with one stream, and no fresh sample.
  record Streams (reg : ℕ) (s : Sensor) : Type 0 where
    pub stream : Stream
    pub ticket : stream.reg ≡ reg
    pub only : s.streams ≡ stream ∷ []
    pub cache : s.cache_valid ≡ false

  record Waits (reg : ℕ) (s : Sensor) : Type 0 where
    pub stream : Stream
    pub ticket : stream.reg ≡ reg
    pub only : s.streams ≡ stream ∷ []
    pub pending : s.oneshots ≢ []

  started :
      (reg : ℕ)
      → Able p sensor
      → Returns
          (λ d. Streams reg d.sensor)
          (serve_sensor p sensor (zero_sensor sensor) (request_of sm_req_start sensor reg 10))
  unfolding serve_sensor serve_start remove
  started reg a =
      Returns->>= (Started sensor (zero_sensor sensor) reg 10) (λ d. Streams reg d.sensor)
        (sm_start_stream p sensor (zero_sensor sensor) reg 10) _
        (start_stream-Started p sensor (zero_sensor sensor) reg 10 (zero_sensor-IsValid sensor)
          a.works (a.memory a_stream) (omega arith))
        (λ d k. record { stream = k.stream; ticket = k.ticket; only = k.streams; cache = k.cache })

  not_empty : (ones : List ℕ) (one : ℕ) → ones ++ one ∷ [] ≢ []
  not_empty [] one e = cc
  not_empty (x ∷ xs) one e = cc

  waits :
      (reg id : ℕ) (s : Sensor)
      → Able p sensor
      → Streams reg s
      → Returns
          (λ d. Waits reg d.sensor)
          (serve_sensor p sensor s (request_of sm_req_oneshot sensor id 0))
  unfolding serve_sensor serve_oneshot sm_new_oneshot
  waits reg id s a k =
      Returns-if (λ d. Waits reg d.sensor) s.cache_valid _ _
        (λ fresh. absurd (ground (arith, k.cache)))
        (λ stale. rw (a.memory a_oneshot) (
          Returns->>= _ (λ d. Waits reg d.sensor) (android_sensor_activate p sensor s default_freq)
            _ (activate-Returns p sensor s default_freq a.works (omega arith))
            (λ d kept. record {
              stream = k.stream;
              ticket = k.ticket;
              only = kept.0.streams ∙ k.only;
              pending = λ e.
                  not_empty d.sensor.oneshots id
                    (sym (p.oneshot_list.append_lem d.sensor.oneshots id) ∙ e);
            })))

  stops :
      (reg : ℕ) (s : Sensor)
      → Waits reg s
      → serve_sensor p sensor s (request_of sm_req_stop sensor reg 0) ≡ fault null_pointer
  unfolding serve_sensor serve_stop
  stops reg s k = fault->>= (sm_stop_stream p sensor s reg) _ null_pointer (
      ap (sm_stop_stream p sensor s) (sym k.ticket)
      ∙ stop_stream_pending_faults p sensor s k.stream k.only k.pending)

  three_requests :
      (reg id : ℕ)
      → Able p sensor
      → serve_all p sensor
          (request_of sm_req_start sensor reg 10
            ∷ request_of sm_req_oneshot sensor id 0
            ∷ request_of sm_req_stop sensor reg 0
            ∷ [])
          (zero_sensor sensor)
        ≡ fault null_pointer
  unfolding serve_all
  three_requests reg id a =
      >>=-fault (λ d. Streams reg d.sensor)
        (serve_sensor p sensor (zero_sensor sensor) (request_of sm_req_start sensor reg 10)) _
        null_pointer (started reg a)
        (λ d k.
          >>=-fault (λ d'. Waits reg d'.sensor)
            (serve_sensor p sensor d.sensor (request_of sm_req_oneshot sensor id 0)) _ null_pointer
            (waits reg id d.sensor a k)
            (λ d' k'.
              fault->>= (serve_sensor p sensor d'.sensor (request_of sm_req_stop sensor reg 0)) _
                null_pointer (stops reg d'.sensor k')))

module _ {C : Type 0} (lib : Coap C) (resource sensor : ℕ) where
  abbrev pub get_handler : Pdu → Context C → Result (Context C)
  get_handler request k =
      generic_get_handler lib resource true (λ reg k'. generic_on_unregister lib reg sensor k')
        request sensor k

  -- What an observe request leaves: its registration, checked out.
  abbrev pub observed : Pdu → Context C → ℕ × C
  observed request k =
      let (reg, coap) = lib.add_registration k.coap resource request.peer request.token in
      (reg, (lib.registration_checkout coap reg).1)

  -- A request that observes, on an observable resource, puts one start with the registration as
  -- its ticket.
  get_observe :
      (request : Pdu) (k : Context C)
      → request.observe ≡ true
      → get_handler request k
        ≡ ok (record k {
          coap = (observed request k).1;
          puts = k.puts ++ request_of sm_req_start sensor (observed request k).0 10 ∷ [];
        })
  unfolding generic_get_handler observe
  get_observe request k h = ground (
    arith,
    lib.checkout_lem (lib.add_registration k.coap resource request.peer request.token).1
        (lib.add_registration k.coap resource request.peer request.token).0,
  )

  -- A plain one of a client that observes puts a oneshot and then a stop.
  get_plain :
      (request : Pdu) (k : Context C) (id reg : ℕ)
      → request.observe ≡ false
      → (lib.register_async k.coap request).0 ≡ some id
      → lib.find_registration (lib.register_async k.coap request).1 resource request.peer ≡ some reg
      → get_handler request k
        ≡ ok (record k {
          coap = lib.invalidate (lib.register_async k.coap request).1 reg;
          puts =
              (k.puts ++ request_of sm_req_oneshot sensor id 0 ∷ [])
              ++ request_of sm_req_stop sensor reg 0 ∷ [];
        })
  unfolding generic_get_handler ask_oneshot unregister_found generic_on_unregister
  get_plain request k id reg h a f = ground arith

  -- A client that observes a sensor that has been idle, and then sends a plain GET before the first
  -- sample, makes the Streaming Manager follow a NULL pointer: the handlers put a start, a oneshot
  -- and a stop, and the manager, with memory at hand and a sensor that works, faults on them.
  pub observe_then_get_faults :
      (p : Platform) (first second : Pdu) (k : Context C) (id : ℕ)
      → Able p sensor
      → k.puts ≡ []
      → first.observe ≡ true
      → second.observe ≡ false
      → (lib.register_async (observed first k).1 second).0 ≡ some id
      → lib.find_registration
          (lib.register_async (observed first k).1 second).1
          resource
          second.peer
        ≡ some (observed first k).0
      → (k' : Context C) × ((get_handler first k >>= get_handler second) ≡ ok k')
        × (serve_all p sensor k'.puts (zero_sensor sensor) ≡ fault null_pointer)
  observe_then_get_faults p first second k id able none_yet o o' a f =
      let reg = (observed first k).0 in
      (
        _,
        ap (λ r. r >>= get_handler second) (get_observe first k o)
            ∙ get_plain second _ id reg o' a f,
        ap
              (λ l.
                serve_all p sensor
                  ((l ++ request_of sm_req_start sensor reg 10 ∷ [])
                    ++ request_of sm_req_oneshot sensor id 0 ∷ []
                    ++ request_of sm_req_stop sensor reg 0 ∷ [])
                  (zero_sensor sensor))
              none_yet
            ∙ three_requests p sensor reg id able,
      )
