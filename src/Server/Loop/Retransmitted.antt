-- ===== src/Server/Loop/Retransmitted.antt =====
-- The retransmissions of a round come to an end.
use ze_sense_server.Prelude.{
  ℕ, zero, suc, ◌<◌, ◌≡◌, ◌⊎◌, inl, inr, refl, Bool, true, false, Bool-cases, Option, none, some,
  arith,
}
use mathlib.Core.Option.{some-injective}
use ze_sense_server.Server.Loop.{is_due, retransmissions}

-- `left q` counts the sendings that the messages of the queue still have: each message is sent
-- again a bounded number of times. libcoap sends the first message again, and puts it back, if at
-- all, with one sending less.
module _ {Q : Type 0} (peek_next : Q → Option ℕ) (retransmit_next : Q → Q) (left : Q → ℕ)
    (fewer : (t : ℕ) (q : Q) → peek_next q ≡ some t → left (retransmit_next q) < left q) where
  -- A loop that has ended: a first message is not due yet, or an exit was asked for.
  abbrev pub Ended : (ℕ → Bool) → (now : ℕ) → Option Q → Type 0
  Ended globalexit now none = ⊥
  Ended globalexit now (some q) =
      (t : ℕ) → peek_next q ≡ some t → (now < t) ⊎ ((i : ℕ) × (globalexit i ≡ true))

  due_lem :
      (globalexit : Bool) (now : ℕ) (q : Q) (o : Option ℕ)
      → peek_next q ≡ o
      → is_due peek_next retransmit_next globalexit now o ≡ true
      → left (retransmit_next q) < left q
  unfolding is_due
  due_lem globalexit now q none e h = absurd (cc)
  due_lem globalexit now q (some t) e h = fewer t q e

  over_lem :
      (globalexit : ℕ → Bool) (fuel now t : ℕ) (o : Option ℕ)
      → is_due peek_next retransmit_next (globalexit fuel) now o ≡ false
      → o ≡ some t
      → (now < t) ⊎ (globalexit fuel ≡ true)
  unfolding is_due
  over_lem globalexit fuel now t none h e = absurd (cc)
  over_lem globalexit fuel now t (some u) h e =
      let same : u ≡ t = some-injective u t e in ground arith

  -- With more fuel than sendings are left, the loop ends, and where it ends the first message is not
  -- due or an exit was asked for.
  pub retransmissions-Ended :
      (globalexit : ℕ → Bool) (fuel now : ℕ) (q : Q)
      → left q < fuel
      → Ended globalexit now (retransmissions peek_next retransmit_next globalexit fuel now q)
  unfolding retransmissions
  retransmissions-Ended globalexit zero now q h = absurd (omega arith)
  retransmissions-Ended globalexit (suc fuel) now q h =
      elim (Bool-cases (is_due peek_next retransmit_next (globalexit fuel) now (peek_next q))) [
        | inl on ↦ rw on (
            retransmissions-Ended globalexit fuel now (retransmit_next q)
              (omega (arith, due_lem (globalexit fuel) now q (peek_next q) refl on)))
        | inr off ↦ rw off (λ t e. elim (over_lem globalexit fuel now t (peek_next q) off e) [
          | inl later ↦ inl later
          | inr leave ↦ inr (fuel, leave)
        ])
      ]
