-- ===== src/Root.antt =====
-- ze_coap_server_root.c, as it is built with COAP_SERVER: the thread that makes the parts of the
-- server, starts the two threads, waits for the exit and takes everything down.
pub mod Watch
pub mod Held
use ze_sense_server.Prelude.{
  ℕ, ◌-◌, ◌^◌, leb, not, Bool, true, false, if◌then◌else◌, List, [], ◌∷◌, ◌++◌, Option, none, some,
}
use ze_sense_server.Prelude.Result.{Result, ok, fault, indeterminate, exit_called, ◌>>=◌}

-- What the thread takes and has to give back.
pub data Part : Type 0 where
  address_list context test_socket manager request_buffer response_buffer : Part
  manager_class app_context log_file : Part

pub data Thread : Type 0 where
  streaming_manager coap_server : Thread

-- What the thread does, in its order. `free`, `freeaddrinfo`, `close`, `fclose` and
-- `DeleteGlobalRef` are a `release`; `pthread_join` returns when the other thread has returned.
pub data Life : Type 0 where
  reset_counters : Life
  take : Part → Life
  release : Part → Life
  start : Thread → Life
  join : Thread → Life
  init_resources : Life
  set_globalexit : Bool → Life
  sleep_second : Life

-- A result of `getaddrinfo`, by its `ai_addrlen` and whether libcoap makes a context on it.
pub record Address : Type 0 where
  pub addrlen : ℕ
  pub makes_context : Bool

-- What the surroundings answer: `getaddrinfo` for the two ports (`none` is its error), the size
-- of libcoap's address, `socket` and `bind` on the test socket, the three allocations, the two
-- global references, the log file, and the two threads.
pub record Host : Type 0 where
  pub addresses : Option (List Address)
  pub test_addresses : Option (List Address)
  pub addr_size : ℕ
  pub socket_made : Bool
  pub bound : Bool
  pub manager_made : Bool
  pub request_buffer_made : Bool
  pub response_buffer_made : Bool
  pub class_ref : Bool
  pub context_ref : Bool
  pub log_opened : Bool
  pub manager_started : Bool
  pub server_started : Bool

-- One look of the waiting loop: whether another thread has set `globalexit`, and what
-- `isInterrupted` says after the sleep.
pub record Poll : Type 0 where
  pub globalexit : Bool
  pub interrupted : Bool

-- The first address that fits and on which a context can be made.
unfoldable pub first_context : ℕ → List Address → Bool
first_context addr_size [] = false
first_context addr_size (a ∷ others) =
    if leb a.addrlen addr_size
    then if a.makes_context then true else first_context addr_size others
    else first_context addr_size others

abbrev pub when : Bool → Life → List Life
when b l = if b then l ∷ [] else []

-- What it does, and whether it returns a context.
unfoldable pub get_coap_context : ℕ → Option (List Address) → List Life × Bool
get_coap_context addr_size none = ([], false)
get_coap_context addr_size (some results) =
    let made = first_context addr_size results in
    (take address_list ∷ when made (take context) ++ release address_list ∷ [], made)

-- Whether an address fits the variable `addr`.
unfoldable pub any_fits : ℕ → List Address → Bool
any_fits addr_size [] = false
any_fits addr_size (a ∷ others) =
    if leb a.addrlen addr_size then true else any_fits addr_size others

-- `socket` and `bind` on the address that was found.
unfoldable pub bind_socket : Host → List Life
bind_socket h =
    if h.socket_made
    then if h.bound then take test_socket ∷ [] else take test_socket ∷ release test_socket ∷ []
    else []

-- With no address that fits, the code goes on with a variable that was never set. What it returns
-- is ignored by its caller.
unfoldable pub open_test_socket : Host → Option (List Address) → Result (List Life)
open_test_socket h none = ok []
open_test_socket h (some results) =
    if any_fits h.addr_size results
    then ok (take address_list ∷ release address_list ∷ bind_socket h)
    else fault indeterminate

-- What the root has done, and what it returned: `none` while it waits in its loop.
pub record Course : Type 0 where
  pub life : List Life
  pub returned : Option ℕ

abbrev pub minus_one : ℕ
minus_one = 2 ^ 32 - 1

abbrev pub gives_up : List Life → Course
gives_up life = record { life = life; returned = some minus_one }

-- The loop that waits for the exit, over the looks made so far.
unfoldable pub wait_exit : List Poll → List Life × Bool
wait_exit [] = ([], false)
wait_exit (p ∷ ps) =
    let (life, left) = wait_exit ps in
    if p.globalexit
    then ([], true)
    else if p.interrupted
    then (sleep_second ∷ set_globalexit true ∷ [], true)
    else (sleep_second ∷ life, left)

abbrev pub teardown : List Life
teardown =
    join streaming_manager
    ∷ join coap_server
    ∷ release manager_class
    ∷ release app_context
    ∷ release context
    ∷ release manager
    ∷ release request_buffer
    ∷ release response_buffer
    ∷ release log_file
    ∷ []

unfoldable pub finish : List Life → List Life × Bool → Course
finish life (waited, true) = record { life = (life ++ waited) ++ teardown; returned = some 1 }
finish life (waited, false) = record { life = life ++ waited; returned = none }

-- The two threads and the wait.
unfoldable pub run_threads : Host → List Poll → List Life → Result Course
run_threads h polls life =
    if not h.manager_started
    then fault exit_called
    else if not h.server_started
    then fault exit_called
    else ok (finish (life ++ start streaming_manager ∷ start coap_server ∷ []) (wait_exit polls))

-- The references, the log file and the resources, once the parts are there.
unfoldable pub open_log : Host → List Poll → List Life → Result Course
open_log h polls life =
    let refs =
      life ++ when h.class_ref (take manager_class) ++ when h.context_ref (take app_context) in
    if not h.log_opened
    then ok (gives_up refs)
    else run_threads h polls (refs ++ take log_file ∷ init_resources ∷ set_globalexit false ∷ [])

-- The three allocations.
unfoldable pub make_parts : Host → List Poll → List Life → Result Course
make_parts h polls life =
    if not h.manager_made
    then ok (gives_up life)
    else if not h.request_buffer_made
    then ok (gives_up (life ++ take manager ∷ []))
    else if not h.response_buffer_made
    then ok (gives_up (life ++ take manager ∷ take request_buffer ∷ []))
    else open_log h polls (life ++ take manager ∷ take request_buffer ∷ take response_buffer ∷ [])

unfoldable pub ze_server_root : Host → List Poll → Result Course
ze_server_root h polls =
    let (life, made) = get_coap_context h.addr_size h.addresses in
    if not made then ok (gives_up (reset_counters ∷ life)) else (do
      socket ← open_test_socket h h.test_addresses
      make_parts h polls (reset_counters ∷ life ++ socket))
