-- ===== src/Tests/Payload.antt =====
-- The layout of a packet of two light samples.
use ze_sense_server.Prelude.{ℕ, ◌<◌, ◌^◌, ◌≡◌, refl, true, List, [], ◌∷◌, length, some, arith}
use ze_sense_server.Prelude.Result.{ok, Returns}
use ze_sense_server.Codes.{light}
use ze_sense_server.Event.{Event}
use ze_sense_server.Encode.{empty_packet, fields_of, encode, vector_size}
use ze_sense_server.Encode.Writes.{events_of, stamps, Sample}
use ze_sense_server.Encode.Layout.{packet_of, packet_bytes, encode_layout, total_length}
use ze_sense_server.Encode.Reader.{Readable, readings, encode_roundtrip}
use ze_sense_server.Tests.{platform}

abbrev lux : ℕ → ℕ → Event
lux t v = record { kind = light; timestamp = t; v0 = v; v1 = 0; v2 = 0 }

abbrev samples : List Sample
samples = (400, lux 1 5) ∷ (500, lux 2 6) ∷ []

abbrev printed : Event → List ℕ
printed e = e.v0 ∷ []

light_fields : fields_of light ≡ some printed
unfolding fields_of
light_fields = refl

encode_layout_example :
    encode platform.print_e true true (events_of samples) (stamps samples) (length samples)
    ≡ ok (
        some (
          packet_of platform.print_e
            (empty_packet 1 400)
            (packet_bytes platform.print_e printed light samples)))
encode_layout_example =
    encode_layout platform.print_e 400 (lux 1 5) ((500, lux 2 6) ∷ []) printed (λ v. omega arith)
      light_fields

short : total_length light 2 < 2 ^ 16
unfolding vector_size
short = omega arith

encode_roundtrip_example :
    Returns
      (Readable platform.print_e
        (λ v. omega arith)
        (λ v. (omega arith, tt))
        light
        (readings platform.print_e (λ v. omega arith) (λ v. (omega arith, tt)) printed samples))
      (encode platform.print_e true true (events_of samples) (stamps samples) (length samples))
encode_roundtrip_example =
    encode_roundtrip platform.print_e (λ v. omega arith) (λ v. (omega arith, tt)) 400 (lux 1 5)
      ((500, lux 2 6) ∷ []) printed light_fields (omega arith) short
