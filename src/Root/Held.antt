-- ===== src/Root/Held.antt =====
-- What the root thread owns, and in which order it takes and gives back.
use ze_sense_server.Prelude.{
  ℕ, not, ◌≡◌, refl, ap, ◌∙◌, Bool, true, false, List, [], ◌∷◌, ◌++◌, Option, none, some, arith,
}
use ze_sense_server.Prelude.Result.{Returns, Returns-if, Returns->>=}
use ze_sense_server.Root.{
  manager, request_buffer, response_buffer, manager_class, app_context, log_file, streaming_manager,
  coap_server, Life, reset_counters, take, start, init_resources, set_globalexit, Host, Poll,
  Address, first_context, when, get_coap_context, bind_socket, open_test_socket, wait_exit,
  teardown, finish, run_threads, open_log, make_parts, ze_server_root,
}
use ze_sense_server.Root.Watch.{
  Watch, nothing, watch_one, watch, opened, usable, has_context, with_context, left_running,
  left_ended, Fitting, all_made, asked, Held,
}

watch-append : (l k : List Life) (w : Watch) → watch (l ++ k) w ≡ watch k (watch l w)
unfolding watch
watch-append [] k w = refl
watch-append (x ∷ l) k w = watch-append l k (watch_one x w)

first_context-usable :
    (addr_size : ℕ) (results : List Address)
    → first_context addr_size results ≡ usable addr_size results
unfolding first_context
first_context-usable addr_size [] = refl
first_context-usable addr_size (a ∷ others) = ground (arith, first_context-usable addr_size others)

-- Waiting changes nothing that is owned.
watch-wait_exit : (polls : List Poll) (w : Watch) → watch (wait_exit polls).0 w ≡ w
unfolding watch wait_exit
watch-wait_exit [] w = refl
watch-wait_exit (p ∷ ps) w = ground (arith, watch-wait_exit ps w)

asked-wait_exit : (polls : List Poll) → (wait_exit polls).1 ≡ asked polls
unfolding wait_exit
asked-wait_exit [] = refl
asked-wait_exit (p ∷ ps) = ground (arith, asked-wait_exit ps)

teardown_lem : (h : Host) → watch teardown (left_running h) ≡ left_ended h
unfolding watch
teardown_lem h = ground arith

finish-Held :
    (h : Host) (polls : List Poll) (life : List Life) (w : List Life × Bool)
    → all_made h ≡ true
    → watch life nothing ≡ left_running h
    → watch w.0 (left_running h) ≡ left_running h
    → w.1 ≡ asked polls
    → Held h polls (finish life w)
unfolding finish
finish-Held h polls life (waited, true) made at waits e = (
  watch-append (life ++ waited) teardown nothing
      ∙ ap (watch teardown) (watch-append life waited nothing ∙ ap (watch waited) at ∙ waits)
      ∙ teardown_lem h,
  ground arith,
)
finish-Held h polls life (waited, false) made at waits e =
    (watch-append life waited nothing ∙ ap (watch waited) at ∙ waits, ground arith)

-- With the parts and the log, before the threads.
abbrev ready : Host → Watch
ready h = record (left_running h) { running = 0 }

abbrev starts : List Life
starts = start streaming_manager ∷ start coap_server ∷ []

abbrev logged : List Life
logged = take log_file ∷ init_resources ∷ set_globalexit false ∷ []

starts_lem :
    (h : Host) → watch (start streaming_manager ∷ start coap_server ∷ []) (ready h) ≡ left_running h
unfolding watch
starts_lem h = refl

run_threads-Held :
    (h : Host) (polls : List Poll) (life : List Life)
    → h.manager_started ≡ true
    → h.server_started ≡ true
    → all_made h ≡ true
    → watch life nothing ≡ ready h
    → Returns (Held h polls) (run_threads h polls life)
unfolding run_threads
run_threads-Held h polls life sm srv made at =
    Returns-if (Held h polls) (not h.manager_started) _ _ (λ off. absurd (ground arith))
      (λ _.
        Returns-if (Held h polls) (not h.server_started) _ _ (λ off. absurd (ground arith))
          (λ _.
            finish-Held h polls (life ++ starts) (wait_exit polls) made
              (watch-append life starts nothing ∙ ap (watch starts) at ∙ starts_lem h)
              (watch-wait_exit polls (left_running h)) (asked-wait_exit polls)))

-- With the parts, before the references.
abbrev with_parts : Host → Watch
with_parts h = record (with_context h) { smctx = true; smreqbuf = true; notbuf = true }

abbrev refs : Host → List Life → List Life
refs h life = life ++ when h.class_ref (take manager_class) ++ when h.context_ref (take app_context)

refs_lem :
    (h : Host) (life : List Life)
    → watch life nothing ≡ with_parts h
    → watch (refs h life) nothing
      ≡ record (with_parts h) { class = h.class_ref; actx = h.context_ref }
unfolding watch
refs_lem h life at =
    watch-append (life ++ when h.class_ref (take manager_class))
      (when h.context_ref (take app_context)) nothing
    ∙ ap (watch (when h.context_ref (take app_context))) (
        watch-append life (when h.class_ref (take manager_class)) nothing
        ∙ ap (watch (when h.class_ref (take manager_class))) at)
    ∙ ground arith

log_lem :
    (h : Host) (life : List Life)
    → watch life nothing ≡ record (with_parts h) { class = h.class_ref; actx = h.context_ref }
    → watch (life ++ take log_file ∷ init_resources ∷ set_globalexit false ∷ []) nothing ≡ ready h
unfolding watch
log_lem h life at = watch-append life logged nothing ∙ ap (watch logged) at

open_log-Held :
    (h : Host) (polls : List Poll) (life : List Life)
    → h.manager_started ≡ true
    → h.server_started ≡ true
    → has_context h h.addresses ≡ true
    → (h.manager_made ≡ true) × (h.request_buffer_made ≡ true) × (h.response_buffer_made ≡ true)
    → watch life nothing ≡ with_parts h
    → Returns (Held h polls) (open_log h polls life)
unfolding open_log
open_log-Held h polls life sm srv ctx parts at =
    Returns-if (Held h polls) (not h.log_opened) _ _
      (λ closed. (refs_lem h life at ∙ ground arith, ground arith))
      (λ is_open.
        run_threads-Held h polls _ sm srv (ground arith)
          (log_lem h (refs h life) (refs_lem h life at)))

make_parts-Held :
    (h : Host) (polls : List Poll) (life : List Life)
    → h.manager_started ≡ true
    → h.server_started ≡ true
    → has_context h h.addresses ≡ true
    → watch life nothing ≡ with_context h
    → Returns (Held h polls) (make_parts h polls life)
unfolding make_parts watch
make_parts-Held h polls life sm srv ctx at =
    Returns-if (Held h polls) (not h.manager_made) _ _
      (λ no_manager. (at ∙ ground arith, ground arith))
      (λ made_manager.
        Returns-if (Held h polls) (not h.request_buffer_made) _ _
          (λ no_requests. (
            watch-append life _ nothing ∙ ap (watch (take manager ∷ [])) at ∙ ground arith,
            ground arith,
          ))
          (λ made_requests.
            Returns-if (Held h polls) (not h.response_buffer_made) _ _
              (λ no_responses. (
                watch-append life _ nothing
                    ∙ ap (watch (take manager ∷ take request_buffer ∷ [])) at
                    ∙ ground arith,
                ground arith,
              ))
              (λ made_responses. open_log-Held h polls _ sm srv ctx (ground arith) (
                watch-append life _ nothing
                ∙ ap (watch (take manager ∷ take request_buffer ∷ take response_buffer ∷ [])) at))))

abbrev on_context : Watch
on_context = record nothing { ctx = true }

socket_lem :
    (h : Host) (o : Option (List Address))
    → Fitting h o
    → Returns
        (λ l. watch l on_context ≡ record on_context { socket = opened h o })
        (open_test_socket h o)
unfolding open_test_socket bind_socket watch
socket_lem h none fit = refl
socket_lem h (some results) fit = ground (arith, fit)

coap_lem :
    (h : Host) (o : Option (List Address))
    → let (life, made) = get_coap_context h.addr_size o in
      (made ≡ has_context h o)
      × (watch (reset_counters ∷ life) nothing ≡ record nothing { ctx = has_context h o })
unfolding get_coap_context watch
coap_lem h none = (refl, refl)
coap_lem h (some results) = ground (arith, first_context-usable h.addr_size results)

-- With two threads that can be started, and an address for the test socket where there are any,
-- the root thread does not fault. It returns one exactly if everything it needs is made and an exit
-- is asked for, waits while none is, and gives up with minus one otherwise. The threads start once
-- the four parts that they share are there, nothing is given back while a thread runs, and at the
-- end everything that was taken is given back but the test socket. Where it gives up, what has been
-- made before stays taken.
pub ze_server_root-Held :
    (h : Host) (polls : List Poll)
    → h.manager_started ≡ true
    → h.server_started ≡ true
    → Fitting h h.test_addresses
    → Returns (Held h polls) (ze_server_root h polls)
unfolding ze_server_root
ze_server_root-Held h polls sm srv fit =
    let (life, made) = get_coap_context h.addr_size h.addresses in
    let c = coap_lem h h.addresses in
    Returns-if (Held h polls) (not made) _ _
      (λ off. (c.1 ∙ ground (arith, c.0, off), ground (arith, c.0, off)))
      (λ on.
        let has : has_context h h.addresses ≡ true = ground (arith, c.0, on) in
        Returns->>= (λ l. watch l on_context ≡ with_context h) (Held h polls) _ _
          (socket_lem h h.test_addresses fit)
          (λ l at. make_parts-Held h polls (reset_counters ∷ life ++ l) sm srv has (
            watch-append (reset_counters ∷ life) l nothing
            ∙ ap (watch l) (c.1 ∙ ap (λ b. record nothing { ctx = b }) has)
            ∙ at)))
