-- ===== src/Server/Socket.antt =====
-- test_socket_send and s_strscpy of ze_coap_server_core.c.
use ze_sense_server.Prelude.{
  ℕ, zero, suc, ◌≤◌, ◌≡◌, refl, Bool, if◌then◌else◌, List, [], ◌∷◌, ◌++◌, length, Option, none,
  some, arith,
}
use ze_sense_server.Prelude.Result.{Result, ok, fault, out_of_bounds, ◌>>=◌}
use ze_sense_server.Encode.{overwrite}
use ze_sense_server.Server.State.{Message}

-- What the network and libcoap answer: whether a datagram can be sent on a socket to an address,
-- and the transaction id of a message to an address.
pub record Network : Type 0 where
  pub sendto : (sockfd dst : ℕ) → Message → Bool
  pub coap_transaction_id : (dst : ℕ) → Message → ℕ
  pub coap_invalid_tid : ℕ

module _ (n : Network) where
  -- The context is its test socket. What is sent comes with the result.
  unfoldable pub test_socket_send :
      (context dst : Option ℕ) → Option Message → ℕ × List (ℕ × Message)
  test_socket_send none dst pdu = (n.coap_invalid_tid, [])
  test_socket_send (some sockfdtest) none pdu = (n.coap_invalid_tid, [])
  test_socket_send (some sockfdtest) (some dst) none = (n.coap_invalid_tid, [])
  test_socket_send (some sockfdtest) (some dst) (some pdu) =
      if n.sendto sockfdtest dst pdu
      then (n.coap_transaction_id dst pdu, (dst, pdu) ∷ [])
      else (n.coap_invalid_tid, [])

-- The loop of `s_strscpy` with its two pointers, by what lies behind them, and the zero at the end.
unfoldable pub copy_chars : (dest src : List ℕ) → (left : ℕ) → Result (List ℕ)
unfolding overwrite
copy_chars dest src zero = overwrite dest (0 ∷ [])
copy_chars [] src (suc left) = fault out_of_bounds
copy_chars (d ∷ dest) [] (suc left) = fault out_of_bounds
copy_chars (d ∷ dest) (c ∷ src) (suc left) = do rest ← copy_chars dest src left; ok (c ∷ rest)

unfoldable pub s_strscpy : (dest src : List ℕ) → (len : ℕ) → Result (List ℕ × ℕ)
s_strscpy dest src len = do d ← copy_chars dest src len; ok (d, len)

-- A string that leaves room for the zero is copied, and what lies behind it is kept.
pub copy_chars-fits :
    (src old rest : List ℕ) (d : ℕ)
    → length old ≡ length src
    → copy_chars (old ++ d ∷ rest) src (length src) ≡ ok (src ++ 0 ∷ rest)
unfolding copy_chars overwrite
copy_chars-fits [] [] rest d e = refl
copy_chars-fits [] (o ∷ old) rest d e = absurd (omega (arith, e))
copy_chars-fits (c ∷ src) [] rest d e = absurd (omega (arith, e))
copy_chars-fits (c ∷ src) (o ∷ old) rest d e =
    rw (copy_chars-fits src old rest d (omega arith)) refl

-- One that leaves none is not: the zero, if not a character before it, is written out of bounds.
pub copy_chars_overflows :
    (src dest : List ℕ)
    → length dest ≤ length src
    → copy_chars dest src (length src) ≡ fault out_of_bounds
unfolding copy_chars overwrite
copy_chars_overflows [] [] h = refl
copy_chars_overflows [] (d ∷ dest) h = absurd (omega arith)
copy_chars_overflows (c ∷ src) [] h = refl
copy_chars_overflows (c ∷ src) (d ∷ dest) h = rw (copy_chars_overflows src dest (omega arith)) refl
