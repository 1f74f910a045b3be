-- ===== src/Ring/Contents.antt =====
-- The items that a ring holds, oldest first, and what each operation does to them.
use mathlib.Core.List.{append_assoc}
use mathlib.Core.Path.{ap₂}
use native.Mathlib.Numerals.{add-one}
use ze_sense_server.Prelude.{
  ℕ, zero, suc, ◌+◌, ◌-◌, ◌%◌, ◌≤◌, ◌<◌, ◌≡◌, refl, ap, ◌⊎◌, inl, inr, List, [], ◌∷◌, ◌++◌, length,
  get_or, set, length-set, length-append, length-replicate, get_or-set_self, get_or-set_ne, arith,
}
use ze_sense_server.Ring.{Ring, rbuf_size, init, get_item, insert_item, consume}

-- The indexes stay in the array, and `puthere` is `counter` places past `gethere`.
pub record IsValid {ℓ} {A : Type ℓ} (b : Ring A) : Type 0 where
  pub slots : length b.rbuf ≡ rbuf_size
  pub head_in : b.gethere < rbuf_size
  pub tail_at : b.puthere ≡ (b.gethere + b.counter) % rbuf_size
  pub fits : b.counter ≤ rbuf_size

module _ {ℓ} {A : Type ℓ} (zeroed : A) where
  -- The first `n` items from slot `g` on, going round.
  abbrev pub items : List A → ℕ → ℕ → List A
  items buf g zero = []
  items buf g (suc n) = items buf g n ++ get_or buf ((g + n) % rbuf_size) zeroed ∷ []

  abbrev pub contents : Ring A → List A
  contents b = items b.rbuf b.gethere b.counter

  pub length-items : (buf : List A) (g n : ℕ) → length (items buf g n) ≡ n
  length-items buf g zero = refl
  length-items buf g (suc n) = omega (
    arith,
    length-append (items buf g n) (get_or buf ((g + n) % rbuf_size) zeroed ∷ []),
    length-items buf g n,
  )

  -- A write to slot `p` is not seen by items that stand elsewhere.
  items-set :
      (buf : List A) (g n k : ℕ) (x : A)
      → n ≤ k
      → k < rbuf_size
      → items (set buf ((g + k) % rbuf_size) x) g n ≡ items buf g n
  items-set buf g zero k x h hk = refl
  items-set buf g (suc n) k x h hk =
      ap₂ (λ xs y. xs ++ y ∷ []) (items-set buf g n k x (omega arith) hk)
        (get_or-set_ne buf x zeroed (omega arith))

  items-suc :
      (buf : List A) (g n : ℕ)
      → g < rbuf_size
      → items buf g (suc n) ≡ get_or buf g zeroed ∷ items buf ((g + 1) % rbuf_size) n
  items-suc buf g zero h = ap (λ i. get_or buf i zeroed ∷ []) (omega arith)
  items-suc buf g (suc n) h =
      ap₂ (λ xs i. xs ++ get_or buf i zeroed ∷ []) (items-suc buf g n h) (omega arith)

  -- An insertion into a buffer that is not full puts the item last.
  pub contents-insert_item :
      (b : Ring A) (x : A)
      → IsValid b
      → b.counter < rbuf_size
      → contents (insert_item x b) ≡ contents b ++ x ∷ []
  unfolding insert_item
  contents-insert_item b x v h =
      rw (v.tail_at, add-one)
        (ap₂ (λ xs y. xs ++ y ∷ [])
          (items-set b.rbuf b.gethere b.counter b.counter x (omega arith) h)
          (get_or-set_self b.rbuf _ x zeroed (omega (arith, v))))

  pub insert_item-IsValid :
      (b : Ring A) (x : A) → IsValid b → b.counter < rbuf_size → IsValid (insert_item x b)
  unfolding insert_item
  insert_item-IsValid b x v h = ground (arith, length-set b.rbuf b.puthere x)

  -- The same behind items that have been received already.
  pub insert_item_fifo :
      (b b' : Ring A) (xs : List A) (x : A)
      → contents b ≡ xs ++ contents b'
      → IsValid b'
      → b'.counter < rbuf_size
      → IsValid (insert_item x b') × (contents b ++ x ∷ [] ≡ xs ++ contents (insert_item x b'))
  insert_item_fifo b b' xs x e v h =
      (insert_item-IsValid b' x v h, rw (contents-insert_item b' x v h, e) (append_assoc xs _ _))

  contents_of_pos :
      (b : Ring A) (n : ℕ)
      → b.counter ≡ suc n
      → IsValid b
      → contents b ≡ get_or b.rbuf b.gethere zeroed ∷ items b.rbuf ((b.gethere + 1) % rbuf_size) n
  contents_of_pos b n e v = rw e (items-suc b.rbuf b.gethere n v.head_in)

  -- What a `get` has done, by what was there: nothing, or it has split off the oldest item.
  abbrev pub Gets : A → Ring A → A × Ring A → Type ℓ
  Gets invalid b (r, b') =
      ((b.counter ≡ 0) × (contents b ≡ []) × (r ≡ invalid) × (b' ≡ b))
      ⊎ ((b.counter ≡ suc b'.counter) × (contents b ≡ r ∷ contents b'))

  module _ (invalid : A) where
    pub get_item-IsValid : (b : Ring A) → IsValid b → IsValid (get_item zeroed invalid b).1
    unfolding get_item
    get_item-IsValid b v = ground arith

    pub get_item-Gets : (b : Ring A) → IsValid b → Gets invalid b (get_item zeroed invalid b)
    unfolding get_item
    get_item-Gets b v = go b.counter refl
      where
        go : (n : ℕ) → b.counter ≡ n → Gets invalid b (get_item zeroed invalid b)
        go zero e = inl (e, rw e, ground arith, ground arith)
        go (suc n) e = inr (ground arith, ground (arith, contents_of_pos b n e v))

    -- The consumer receives the oldest items, in order, and what it does not receive stays.
    pub consume_lem :
        (k : ℕ) (b : Ring A)
        → IsValid b
        → let (xs, b') = consume zeroed invalid k b in
          (contents b ≡ xs ++ contents b') × (b'.counter ≡ b.counter - k) × IsValid b'
    unfolding consume
    consume_lem zero b v = (refl, omega arith, v)
    consume_lem (suc k) b v = ground (
      arith,
      get_item-Gets b v,
      get_item-IsValid b v,
      consume_lem k (get_item zeroed invalid b).1 (get_item-IsValid b v),
    )

  pub init-IsValid : IsValid (init zeroed)
  unfolding init
  init-IsValid = record {
    slots = length-replicate rbuf_size zeroed;
    head_in = omega arith;
    tail_at = omega arith;
    fits = omega arith;
  }

  pub contents-init : contents (init zeroed) ≡ []
  unfolding init
  contents-init = refl

  pub length-contents : (b : Ring A) → length (contents b) ≡ b.counter
  length-contents b = length-items b.rbuf b.gethere b.counter
