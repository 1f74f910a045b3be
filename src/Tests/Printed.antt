-- ===== src/Tests/Printed.antt =====
-- The statistics of a server with two resources and of a manager with two streams, with numbers in
-- decimal.
use ze_sense_server.Prelude.{
  ℕ, zero, suc, ◌+◌, ◌-◌, ◌/◌, ◌%◌, ◌^◌, ◌≤◌, refl, set, ltb, if◌then◌else◌, List, [], ◌∷◌, ◌++◌,
  length, length-append, arith,
}
use ze_sense_server.Prelude.Result.{Returns}
use ze_sense_server.Codes.{light, con, repetition_off}
use ze_sense_server.Manager.{Stream, zero_sensor}
use ze_sense_server.Manager.Loop.{Queues}
use ze_sense_server.Manager.Stats.Printed.{Formats, log_end}
use ze_sense_server.Manager.Stats.Printed.Written.{IsCalm, Fits, Ended, log_end-Ended}
use ze_sense_server.Tests.Stats.{three, three-Calm}
use ze_sense_server.Tests.Phase.{queues}
use ze_sense_server.LogFile.{codes, ShortNumbers}
use ze_sense_server.Server.State.{Registration}
use ze_sense_server.Server.Stats.{Counters, Resource}

-- The last `k` digits of a number, or fewer if it has no more.
abbrev decimal : (k n : ℕ) → List ℕ
decimal zero n = []
decimal (suc k) n =
    let rest = decimal k (n / 10) in if ltb n 10 then (48 + n) ∷ [] else rest ++ (48 + n % 10) ∷ []

-- An `int` has ten digits at most.
abbrev print_int : ℕ → List ℕ
print_int n = if ltb n (2 ^ 31) then decimal 10 n else 45 ∷ decimal 10 (2 ^ 32 - n)

decimal-short : (k n : ℕ) → length (decimal k n) ≤ k
decimal-short zero n = omega arith
decimal-short (suc k) n =
    ground
      (arith, length-append (decimal k (n / 10)) ((48 + n % 10) ∷ []), decimal-short k (n / 10))

print_int-ShortNumbers : ShortNumbers print_int
print_int-ShortNumbers n = ground (arith, decimal-short 10 n, decimal-short 10 (2 ^ 32 - n))

abbrev counted : ℕ → Registration
counted n = record {
  reskey = 1;
  subscriber = 1;
  token = [];
  fail_cnt = 0;
  non_cnt = 0;
  notcnt = 0;
  datapackcount = n;
  octcount = 0;
  last_sr_octcount = 0;
  last_sr_packcount = 0;
  ntptwin = 0;
  rtptwin = 0;
  refs = 2;
}

abbrev resources : List Resource
resources =
    record { uri = codes "accel"; subscribers = counted 12 ∷ counted 7 ∷ [] }
    ∷ record { uri = codes "orientation"; subscribers = [] }
    ∷ []

abbrev counters : Counters
counters = record {
  udp_out_counter = 1;
  udp_out_octects = 8;
  out_non_counter = 57;
  out_non_octects = 190;
  out_con_counter = 449;
  out_con_octects = 876;
  out_rst_counter = 1513;
  out_rst_octects = 2402;
  out_ack_counter = 3585;
  out_ack_octects = 105;
  udp_in_counter = 2002;
  udp_in_octects = 4319;
  in_non_counter = 2099;
  in_non_octects = 383;
  in_con_counter = 4212;
  in_con_octects = 3630;
  in_rst_counter = 3678;
  in_rst_octects = 4398;
  in_ack_counter = 833;
  in_ack_octects = 3023;
  sr_sent_counter = 1012;
  rr_rec_counter = 4840;
  retr_counter = 4551;
  accel_retr_counter = 187;
  gyro_retr_counter = 1788;
  prox_retr_counter = 4397;
  light_retr_counter = 3057;
}

abbrev formats : Formats
formats = record {
  print_d = print_int;
  print_average = λ incsum divisor. codes "2.000000e+02";
  print_period = λ period. codes "2.500000e+02";
}

formats-Fits : Fits formats
formats-Fits = record {
  ints = print_int-ShortNumbers;
  averages = λ incsum divisor. omega arith;
  periods = λ period. omega arith;
}

three-IsCalm : IsCalm three
three-IsCalm = record { taken = omega arith; room = omega arith; calm = three-Calm }

abbrev stream : (reg samples_sent : ℕ) → Stream
stream reg samples_sent = record {
  reg = reg;
  event_buffer = [];
  event_rtpts_buffer = [];
  event_buffer_level = 0;
  freq = 10;
  retransmit = con;
  repeat = repetition_off;
  last_wts = 0;
  last_rtpts = 0;
  freq_div = 1;
  samples_sent = samples_sent;
}

-- The queues at the exit, with two streams of the light sensor.
abbrev at_exit : Queues
at_exit = record queues {
  sensors =
      set queues.sensors light
        (record (zero_sensor light) { streams = stream 7 40 ∷ stream 9 12 ∷ [] });
  accel = three;
  prox = three;
  lights = three;
  orient = three;
  gyro = three;
}

log_end-Ended_example : Returns (Ended formats at_exit []) (log_end formats at_exit [])
log_end-Ended_example =
    log_end-Ended formats at_exit []
      (three-IsCalm, three-IsCalm, three-IsCalm, three-IsCalm, three-IsCalm) refl formats-Fits
