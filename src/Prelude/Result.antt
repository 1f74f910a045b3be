-- ===== src/Prelude/Result.antt =====
-- Code that can run into undefined behaviour of C: such an execution is a fault, and everything
-- that would follow it is void.
use mathlib.Core.Path.{◌≡◌, refl, sym, subst}
use mathlib.Core.Option.{some-injective}
use mathlib.Core.Option.{Option, none, some}
use mathlib.Core.List.{List}
use Prim.Native.Nat.{ℕ}
use ze_sense_server.Prelude.Lists.{get_elem?, length, set}
use mathlib.Core.Bool.{Bool, true, false}
use ze_sense_server.Prelude.Tests.{ltb, if◌then◌else◌}

pub data Fault : Type 0 where
  null_pointer division_by_zero out_of_bounds dangling_pointer bad_conversion indeterminate
        exit_called out_of_fuel :
      Fault

pub data Result {ℓ} (A : Type ℓ) : Type ℓ where
  ok : A → Result A
  fault : Fault → Result A

infixl 5 ◌>>=◌
-- What follows is run on what the first part has produced.
abbrev pub ◌>>=◌ {ℓ κ} : {A : Type ℓ} {B : Type κ} → (m : Result A) (next : A → Result B) → Result B
fault e >>= next = fault e
ok a >>= next = next a

-- A pointer that is followed, and an array that is read.
abbrev pub deref {ℓ} : {A : Type ℓ} → Option A → Result A
deref none = fault null_pointer
deref (some a) = ok a

abbrev pub in_range {ℓ} : {A : Type ℓ} → Option A → Result A
in_range none = fault out_of_bounds
in_range (some a) = ok a

abbrev pub read {ℓ} : {A : Type ℓ} → List A → ℕ → Result A
read xs i = in_range (get_elem? xs i)

-- An array that is written.
abbrev pub store {ℓ} : {A : Type ℓ} → List A → ℕ → A → Result (List A)
store xs i v = if ltb i (length xs) then ok (set xs i v) else fault out_of_bounds

-- Total correctness: the code does not fault, and its result has the property.
abbrev pub Returns {ℓ} : {A : Type ℓ} → (A → Type 0) → Result A → Type 0
Returns P (ok a) = P a
Returns P (fault e) = ⊥

pub Returns->>= {ℓ κ} :
    {A : Type ℓ} {B : Type κ} (P : A → Type 0) (Q : B → Type 0) (m : Result A) (f : A → Result B)
    → Returns P m
    → ((a : A) → P a → Returns Q (f a))
    → Returns Q (m >>= f)
Returns->>= P Q (ok a) f h k = k a h
Returns->>= P Q (fault e) f h k = absurd h

pub Returns-mono {ℓ} :
    {A : Type ℓ} (P Q : A → Type 0) (m : Result A)
    → Returns P m
    → ((a : A) → P a → Q a)
    → Returns Q m
Returns-mono P Q (ok a) h k = k a h
Returns-mono P Q (fault e) h k = absurd h

-- Both branches of a test, each with what the test has said.
pub Returns-if {ℓ} :
    {A : Type ℓ} (P : A → Type 0) (b : Bool) (x y : Result A)
    → (b ≡ true → Returns P x)
    → (b ≡ false → Returns P y)
    → Returns P (if b then x else y)
Returns-if P true x y h k = h refl
Returns-if P false x y h k = k refl

-- A bind, with the equation of its first part.
pub Returns->>=_eq {ℓ κ} :
    {A : Type ℓ} {B : Type κ} (P : A → Type 0) (Q : B → Type 0) (m : Result A) (f : A → Result B)
    → Returns P m
    → ((a : A) → m ≡ ok a → P a → Returns Q (f a))
    → Returns Q (m >>= f)
Returns->>=_eq P Q (ok a) f h k = k a refl h
Returns->>=_eq P Q (fault e) f h k = absurd h

-- A fault of the second part is a fault of the whole.
pub >>=-fault {ℓ κ} :
    {A : Type ℓ} {B : Type κ} (P : A → Type 0) (m : Result A) (next : A → Result B) (e : Fault)
    → Returns P m
    → ((a : A) → P a → next a ≡ fault e)
    → (m >>= next) ≡ fault e
>>=-fault P (ok a) next e h k = k a h
>>=-fault P (fault x) next e h k = absurd h

pub fault->>= {ℓ κ} :
    {A : Type ℓ} {B : Type κ} (m : Result A) (next : A → Result B) (e : Fault)
    → m ≡ fault e
    → (m >>= next) ≡ fault e
fault->>= (ok a) next e h = cc
fault->>= (fault x) next e h = cc

pub deref-Returns {ℓ} :
    {A : Type ℓ} (P : A → Type 0) (o : Option A) (a : A) → o ≡ some a → P a → Returns P (deref o)
deref-Returns P none a e h = cc
deref-Returns P (some b) a e h = subst P (sym (some-injective b a e)) h

pub Returns-both {ℓ} :
    {A : Type ℓ} (P Q : A → Type 0) (m : Result A)
    → Returns P m
    → Returns Q m
    → Returns (λ a. P a × Q a) m
Returns-both P Q (ok a) h k = (h, k)
Returns-both P Q (fault e) h k = absurd h
