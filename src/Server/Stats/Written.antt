-- ===== src/Server/Stats/Written.antt =====
-- What the statistics of ze_coap_server_core.c write, and that no line overflows `logstr`.
use Prim.Native.String.{String}
use ze_sense_server.Prelude.{ℕ, suc, ◌+◌, ◌<◌, leb, Bool, true, ◌&&◌, List, [], ◌∷◌, ◌++◌, length}
use ze_sense_server.LogFile.{LogFile, NoZero, codes, printed}
use ze_sense_server.Server.State.{Registration}
use ze_sense_server.Server.Stats.{Counters, Resource, counts, uri_size, count_lines}

-- The names of the resources are strings without a zero that are shorter than the array.
abbrev pub AllNamed : List Resource → Type 0
AllNamed [] = Unit
AllNamed (s ∷ ss) = NoZero s.uri × (length s.uri < uri_size) × AllNamed ss

-- Whether the texts around a number leave it eleven places.
abbrev is_short : List (String × ℕ × String) → Bool
is_short [] = true
is_short ((before, n, behind) ∷ xs) =
    leb (length (codes before) + length (codes behind)) 88 && is_short xs

module _ (print_d : ℕ → List ℕ) where
  abbrev pub resource_line : List ℕ → ℕ → List ℕ
  resource_line uri subi =
      codes "-- Resource:" ++ uri ++ codes " registration:" ++ print_d subi ++ codes "\n"

  -- The registrations of a resource with their numbers, from `subi` on.
  abbrev pub registration_lines : List ℕ → ℕ → List Registration → List (List ℕ)
  registration_lines uri subi [] = []
  registration_lines uri subi (sub ∷ subs) =
      resource_line uri subi
      ∷ printed print_d ("Data packets sent (first time):", sub.datapackcount, "\n")
      ∷ registration_lines uri (suc subi) subs

  abbrev pub resource_lines : List Resource → List (List ℕ)
  resource_lines [] = []
  resource_lines (s ∷ ss) = registration_lines s.uri 1 s.subscribers ++ resource_lines ss

  abbrev pub stats_lines : (residual : ℕ) → List Resource → Counters → List (List ℕ)
  stats_lines residual resources c =
      codes "-- CoAP level stats start ------\n"
        ∷ printed print_d ("Response queue residual size:", residual, "\n")
        ∷ resource_lines resources
      ++ count_lines print_d (counts c)
      ++ codes "-- CoAP level stats end ------\n\n" ∷ []
