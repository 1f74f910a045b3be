-- ===== src/Tests/Phase.antt =====
-- The rounds between two requests, with a sample of the accelerometer at hand.
use ze_sense_server.Prelude.{
  ℕ, ◌≤◌, refl, inl, inr, Bool, true, false, replicate, zero, suc, List, [], ◌∷◌, length-replicate,
  arith,
}
use ze_sense_server.Prelude.Result.{Returns, Returns-mono}
use ze_sense_server.Codes.{num_samples, accelerometer}
use ze_sense_server.Manager.{Sensor, zero_sensor}
use ze_sense_server.Manager.Invariant.{zero_sensor-IsValid}
use ze_sense_server.Manager.Loop.{Queues, empty_log, queue_phase}
use ze_sense_server.Manager.Loop.Known.{AllValid, Room, IsSafe}
use ze_sense_server.Manager.Loop.Phase.{queue_phase-IsSafe}
use ze_sense_server.Ring.{get_item}
use ze_sense_server.ReqBuf.{ReqBuf, zero_request, get_request_buf_item}
use ze_sense_server.Manager.Helpers.Delivery.{Try, rounds, quiet}
use ze_sense_server.Tests.Buffers.{full_responses, full_responses-IsValid, late, signalled}
use ze_sense_server.Manager.Helpers.{chain}
use ze_sense_server.Manager.Thread.{Turn, Thread, turn, turns}
use ze_sense_server.Manager.Thread.Safe.{Sent, Meets, AllMeet, Safe, turn-Safe, turns-Safe}
use ze_sense_server.Tests.{utlist, platform, platform-Works, start_request, sample}

abbrev sensors_from : (i n : ℕ) → List Sensor
sensors_from i zero = []
sensors_from i (suc n) = zero_sensor i ∷ sensors_from (suc i) n

sensors-AllValid : (i n : ℕ) → AllValid i (sensors_from i n)
sensors-AllValid i zero = tt
sensors-AllValid i (suc n) = (zero_sensor-IsValid i, sensors-AllValid (suc i) n)

abbrev pub queues : Queues
queues = record {
  samples = sample ∷ [];
  carrq = record { head = []; counter = 0 };
  sensors = sensors_from 0 15;
  accel = empty_log;
  prox = empty_log;
  lights = empty_log;
  orient = empty_log;
  gyro = empty_log;
  effects = [];
}

empty_log-Room : (n : ℕ) → n ≤ num_samples → Room n empty_log
empty_log-Room n h = omega (arith, length-replicate {A = ℕ × ℕ} num_samples (0, 0))

queues-IsSafe : IsSafe 10 queues
queues-IsSafe = record {
  valid = sensors-AllValid 0 15;
  all = refl;
  samples = (omega arith, tt);
  carried = tt;
  room = (
    empty_log-Room 10 (omega arith),
    empty_log-Room 10 (omega arith),
    empty_log-Room 10 (omega arith),
    empty_log-Room 10 (omega arith),
    empty_log-Room 10 (omega arith),
  );
}

queue_phase-IsSafe_example :
    Returns (IsSafe 5) (queue_phase platform (λ k. (sample ∷ [], [])) queues)
queue_phase-IsSafe_example =
    queue_phase-IsSafe platform (λ a. refl) (λ v. omega arith) (λ k. (sample ∷ [], [])) 5 queues
      (λ k. ((omega arith, tt), tt)) queues-IsSafe

-- A turn that serves the start of an accelerometer, and one that is asked to exit.
abbrev requests : ReqBuf
requests = record {
  rbuf = start_request ∷ replicate 19 zero_request;
  gethere = 0;
  puthere = 1;
  counter = 1;
}

-- Each put waits on a full buffer in vain once, and then finds room.
abbrev tries : ℕ → List Try
tries k = quiet (late ∷ signalled ∷ [])

abbrev a_turn : Bool → Turn
a_turn globalexit = record {
  globalexit = globalexit;
  platform = platform;
  request_list = utlist;
  new = λ k. (sample ∷ [], []);
  puts = λ k. rounds (tries k);
  taken = λ k. 0;
  others = λ b. b;
}

abbrev thread : Thread
thread = record {
  channels = record { notbuf = full_responses; smreqbuf = requests; adqueue = chain [] };
  queues = queues;
}

thread-Safe : Safe 10 thread
thread-Safe = record { empty = refl; notbuf = full_responses-IsValid; queues = queues-IsSafe }

turn-Meets : Meets (a_turn false) thread
unfolding get_request_buf_item get_item
turn-Meets = record {
  memory = λ a. refl;
  fits = λ v. omega arith;
  kinds = λ k. ((omega arith, tt), tt);
  request = inr (record {
    known = omega arith;
    works = platform-Works accelerometer;
    allowed = (λ e. omega arith, λ e. absurd (omega (arith, e)));
  });
  tries = tries;
  puts = λ k. refl;
  ends = λ k. ((λ e. cc), ((λ e. omega arith), refl));
}

turns-Safe_example :
    Returns (λ s. Safe 0 s × Sent thread s) (turns (a_turn false ∷ a_turn true ∷ []) thread)
turns-Safe_example =
    turns-Safe (a_turn false ∷ a_turn true ∷ []) 0 thread
      (inr (
        turn-Meets,
        Returns-mono (λ s. Safe 5 s × Sent thread s) (λ s. AllMeet (a_turn true ∷ []) s)
            (turn (a_turn false) thread) (turn-Safe (a_turn false) 5 thread turn-Meets thread-Safe)
            (λ s h. inl refl),
      ))
      thread-Safe
