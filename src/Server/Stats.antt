-- ===== src/Server/Stats.antt =====
-- The end of the thread of ze_coap_server_core.c: its statistics, as they go to the log file.
pub mod Written
use Prim.Native.String.{String}
use ze_sense_server.Prelude.{ℕ, suc, ◌≤◌, List, [], ◌∷◌, ◌++◌, length}
use ze_sense_server.Prelude.Result.{Result, ok, ◌>>=◌}
use ze_sense_server.LogFile.{LogFile, codes, printed, write_line, write_lines, c_string}
use ze_sense_server.Server.State.{Registration}
use ze_sense_server.Server.Socket.{s_strscpy}

-- The counts that the statistics print, under the names of their global variables. All but two are
-- kept by libcoap, which the program's own copy of it extends.
pub record Counters : Type 0 where
  pub udp_out_counter : ℕ
  pub udp_out_octects : ℕ
  pub out_non_counter : ℕ
  pub out_non_octects : ℕ
  pub out_con_counter : ℕ
  pub out_con_octects : ℕ
  pub out_rst_counter : ℕ
  pub out_rst_octects : ℕ
  pub out_ack_counter : ℕ
  pub out_ack_octects : ℕ
  pub udp_in_counter : ℕ
  pub udp_in_octects : ℕ
  pub in_non_counter : ℕ
  pub in_non_octects : ℕ
  pub in_con_counter : ℕ
  pub in_con_octects : ℕ
  pub in_rst_counter : ℕ
  pub in_rst_octects : ℕ
  pub in_ack_counter : ℕ
  pub in_ack_octects : ℕ
  pub sr_sent_counter : ℕ
  pub rr_rec_counter : ℕ
  pub retr_counter : ℕ
  pub accel_retr_counter : ℕ
  pub gyro_retr_counter : ℕ
  pub prox_retr_counter : ℕ
  pub light_retr_counter : ℕ

-- The lines of the counts: what stands before each, the count, and what stands behind it.
abbrev pub counts : Counters → List (String × ℕ × String)
counts c =
    ("UDP datagrams sent:", c.udp_out_counter, "\n")
    ∷ ("UDP payload octects sent:", c.udp_out_octects, "\n")
    ∷ ("NON messages sent:", c.out_non_counter, "\n")
    ∷ ("NON octects sent:", c.out_non_octects, " (CoAP hdr incl)\n")
    ∷ ("CON messages sent:", c.out_con_counter, "\n")
    ∷ ("CON octects sent:", c.out_con_octects, " (CoAP hdr incl)\n")
    ∷ ("RST messages sent:", c.out_rst_counter, "\n")
    ∷ ("RST octects sent:", c.out_rst_octects, " (CoAP hdr incl)\n")
    ∷ ("ACK messages sent:", c.out_ack_counter, "\n")
    ∷ ("ACK octects sent:", c.out_ack_octects, " (CoAP hdr incl)\n")
    ∷ ("UDP datagrams received:", c.udp_in_counter, "\n")
    ∷ ("UDP payload octects received:", c.udp_in_octects, "\n")
    ∷ ("NON messages received:", c.in_non_counter, "\n")
    ∷ ("NON octects received:", c.in_non_octects, " (CoAP hdr incl)\n")
    ∷ ("CON messages received:", c.in_con_counter, "\n")
    ∷ ("CON octects received:", c.in_con_octects, " (CoAP hdr incl)\n")
    ∷ ("RST messages received:", c.in_rst_counter, "\n")
    ∷ ("RST octects received:", c.in_rst_octects, " (CoAP hdr incl)\n")
    ∷ ("ACK messages received:", c.in_ack_counter, "\n")
    ∷ ("ACK octects received:", c.in_ack_octects, " (CoAP hdr incl)\n")
    ∷ ("Total SR sent:", c.sr_sent_counter, "\n")
    ∷ ("Total RR received:", c.rr_rec_counter, "\n")
    ∷ ("Total retransmissions performed:", c.retr_counter, "\n")
    ∷ ("Accel retransmissions:", c.accel_retr_counter, "\n")
    ∷ ("Gyro retransmissions:", c.gyro_retr_counter, "\n")
    ∷ ("Prox retransmissions:", c.prox_retr_counter, "\n")
    ∷ ("Light retransmissions:", c.light_retr_counter, "\n")
    ∷ []

-- The fields of `coap_resource_t` that the code reads.
pub record Resource : Type 0 where
  pub uri : List ℕ
  pub subscribers : List Registration

abbrev pub uri_size : ℕ
uri_size = 50

module _ (print_d : ℕ → List ℕ) where
  abbrev pub count_lines : List (String × ℕ × String) → List (List ℕ)
  count_lines [] = []
  count_lines (x ∷ xs) = printed print_d x ∷ count_lines xs

  -- The loop over the subscribers, once the array `t` is copied.
  unfoldable pub log_subscribers :
      (t : List ℕ) → List Registration → (subi : ℕ) → LogFile → Result LogFile
  log_subscribers t [] subi logfd = ok logfd
  log_subscribers t (sub ∷ subs) subi logfd = do
    name ← c_string t
    f ←
        write_line
          (codes "-- Resource:" ++ name ++ codes " registration:" ++ print_d subi ++ codes "\n")
          logfd
    g ← write_line (printed print_d ("Data packets sent (first time):", sub.datapackcount, "\n")) f
    log_subscribers t subs (suc subi) g

  -- The loop over the resources. `t` is not initialised: `old` is what it holds when that many
  -- resources follow.
  unfoldable pub log_resources : (old : ℕ → List ℕ) → List Resource → LogFile → Result LogFile
  log_resources old [] logfd = ok logfd
  log_resources old (s ∷ ss) logfd = do
    (t, len) ← s_strscpy (old (length ss)) s.uri (length s.uri)
    f ← log_subscribers t s.subscribers 1 logfd
    log_resources old ss f

  -- From `residual`, the `counter` of the response buffer, on.
  unfoldable pub log_stats :
      (old : ℕ → List ℕ) (residual : ℕ) → List Resource → Counters → LogFile → Result LogFile
  log_stats old residual resources c logfd = do
    f ← write_line (codes "-- CoAP level stats start ------\n") logfd
    g ← write_line (printed print_d ("Response queue residual size:", residual, "\n")) f
    h ← log_resources old resources g
    k ← write_lines (count_lines (counts c)) h
    write_line (codes "-- CoAP level stats end ------\n\n") k
