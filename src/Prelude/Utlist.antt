-- ===== src/Prelude/Utlist.antt =====
-- utlist.h, which the repository does not hold: the two macros that the code calls on its linked
-- lists, with their documented behaviour. A list stands for the chain behind a head pointer, and
-- a position for the pointer to an element of it.
use Prim.Native.Nat.{ℕ}
use mathlib.Core.Path.{◌≡◌}
use mathlib.Core.List.{List, [], ◌∷◌, ◌++◌}
use ze_sense_server.Prelude.Lists.{length}

pub record Utlist (A : Type 0) : Type 0 where
  pub ll_append : List A → A → List A
  pub ll_delete : List A → ℕ → List A
  -- LL_APPEND puts the element behind the last one.
  pub append_lem : (xs : List A) (x : A) → ll_append xs x ≡ xs ++ x ∷ []
  -- LL_DELETE unlinks the element that it is given, and keeps the others in their order.
  pub delete_lem : (xs ys : List A) (x : A) → ll_delete (xs ++ x ∷ ys) (length xs) ≡ xs ++ ys
