-- ===== src/Root/Watch.antt =====
-- What an onlooker knows of the root thread: its parts, its threads, and what should be left.
use ze_sense_server.Prelude.{
  ℕ, ◌+◌, ◌-◌, ◌==◌, ltb, leb, ◌||◌, ◌&&◌, ◌≡◌, Bool, true, false, if◌then◌else◌, List, [], ◌∷◌,
  Option, none, some,
}
use ze_sense_server.Root.{
  Part, address_list, context, test_socket, manager, request_buffer, response_buffer, manager_class,
  app_context, log_file, Life, reset_counters, take, release, start, join, init_resources,
  set_globalexit, sleep_second, Host, Poll, Course, Address, minus_one, any_fits,
}

-- Who watches the thread knows which parts it has, how many threads are running, and whether the
-- order was right so far.
pub record Watch : Type 0 where
  pub addresses : Bool
  pub ctx : Bool
  pub socket : Bool
  pub smctx : Bool
  pub smreqbuf : Bool
  pub notbuf : Bool
  pub class : Bool
  pub actx : Bool
  pub logfd : Bool
  pub running : ℕ
  pub orderly : Bool

abbrev pub nothing : Watch
nothing = record {
  addresses = false;
  ctx = false;
  socket = false;
  smctx = false;
  smreqbuf = false;
  notbuf = false;
  class = false;
  actx = false;
  logfd = false;
  running = 0;
  orderly = true;
}

abbrev pub set_part : Part → Bool → Watch → Watch
set_part address_list b w = record w { addresses = b }
set_part context b w = record w { ctx = b }
set_part test_socket b w = record w { socket = b }
set_part manager b w = record w { smctx = b }
set_part request_buffer b w = record w { smreqbuf = b }
set_part response_buffer b w = record w { notbuf = b }
set_part manager_class b w = record w { class = b }
set_part app_context b w = record w { actx = b }
set_part log_file b w = record w { logfd = b }

-- The four parts that the threads share.
abbrev pub shared : Watch → Bool
shared w = w.ctx && (w.smctx && (w.smreqbuf && w.notbuf))

-- A thread may start once the shared parts are there, and nothing may be given back while one is
-- running.
abbrev pub watch_one : Life → Watch → Watch
watch_one reset_counters w = w
watch_one (take p) w = set_part p true w
watch_one (release p) w = record (set_part p false w) { orderly = w.orderly && w.running == 0 }
watch_one (start t) w = record w { running = w.running + 1; orderly = w.orderly && shared w }
watch_one (join t) w = record w { running = w.running - 1; orderly = w.orderly && ltb 0 w.running }
watch_one init_resources w = w
watch_one (set_globalexit b) w = w
watch_one sleep_second w = w

unfoldable pub watch : List Life → Watch → Watch
watch [] w = w
watch (l ∷ ls) w = watch ls (watch_one l w)

-- Whether the test socket is left open, and whether some address fits and makes a context.
abbrev pub opened : Host → Option (List Address) → Bool
opened h none = false
opened h (some results) = h.socket_made && h.bound

abbrev pub usable : ℕ → List Address → Bool
usable addr_size [] = false
usable addr_size (a ∷ others) =
    (leb a.addrlen addr_size && a.makes_context) || usable addr_size others

abbrev pub has_context : Host → Option (List Address) → Bool
has_context h none = false
has_context h (some results) = usable h.addr_size results

-- What is left: of a context alone, while the threads run, after the end, and where the thread
-- has given up.
abbrev pub with_context : Host → Watch
with_context h = record nothing { ctx = true; socket = opened h h.test_addresses }

abbrev pub left_running : Host → Watch
left_running h = record nothing {
  ctx = true;
  socket = opened h h.test_addresses;
  smctx = true;
  smreqbuf = true;
  notbuf = true;
  class = h.class_ref;
  actx = h.context_ref;
  logfd = true;
  running = 2;
}

abbrev pub left_ended : Host → Watch
left_ended h = record nothing { socket = opened h h.test_addresses }

abbrev pub left_given_up : Host → Watch
left_given_up h =
    let buffers = h.manager_made && (h.request_buffer_made && h.response_buffer_made) in
    record nothing {
      ctx = true;
      socket = opened h h.test_addresses;
      smctx = h.manager_made;
      smreqbuf = h.manager_made && h.request_buffer_made;
      notbuf = buffers;
      class = buffers && h.class_ref;
      actx = buffers && h.context_ref;
    }

abbrev pub left : Host → Option ℕ → Watch
left h none = left_running h
left h (some r) =
    if r == 1 then left_ended h else if has_context h h.addresses then left_given_up h else nothing

-- The host can start the threads, and some address fits the test socket's where there is any.
abbrev pub Fitting : Host → Option (List Address) → Type 0
Fitting h none = Unit
Fitting h (some results) = any_fits h.addr_size results ≡ true

-- The thread returns one only at an exit that was asked for, and gives up where something that it
-- needs is missing.
abbrev pub all_made : Host → Bool
all_made h =
    has_context h h.addresses
    && (h.manager_made && (h.request_buffer_made && (h.response_buffer_made && h.log_opened)))

abbrev pub asked : List Poll → Bool
asked [] = false
asked (p ∷ ps) = p.globalexit || (p.interrupted || asked ps)

abbrev pub Held : Host → List Poll → Course → Type 0
Held h polls c =
    (watch c.life nothing ≡ left h c.returned)
    × (c.returned ≡ (if all_made h then if asked polls then some 1 else none else some minus_one))
