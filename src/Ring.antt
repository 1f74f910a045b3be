-- ===== src/Ring.antt =====
-- The slot array that ze_sm_reqbuf.c and ze_sm_resbuf.c both keep: `rbuf` with the indexes
-- `gethere` and `puthere`, which wrap around at the size, and the item counter, which does not.
-- SM_RBUF_SIZE and COAP_RBUF_SIZE are both 20.
pub mod Contents
use ze_sense_server.Prelude.{
  ℕ, zero, suc, ◌+◌, ◌-◌, ◌%◌, List, [], ◌∷◌, get_or, set, replicate, ◌==◌, if◌then◌else◌,
}

abbrev pub rbuf_size : ℕ
rbuf_size = 20

pub record Ring {ℓ} (A : Type ℓ) : Type ℓ where
  pub rbuf : List A
  pub gethere : ℕ
  pub puthere : ℕ
  pub counter : ℕ

module _ {ℓ} {A : Type ℓ} where
  -- `memset` fills every slot with the same zero item.
  unfoldable pub init : A → Ring A
  init zeroed = record { rbuf = replicate rbuf_size zeroed; gethere = 0; puthere = 0; counter = 0 }

  -- The body of a `get` under the mutex: `temp`, which is an invalid item if the buffer is empty.
  -- The counter starts at 0 and falls only here, under its test, so `counter <= 0` is
  -- `counter == 0`.
  unfoldable pub get_item : A → A → Ring A → A × Ring A
  get_item zeroed invalid b = if counter == 0 then (invalid, b) else (
    get_or rbuf gethere zeroed,
    record b { gethere = (gethere + 1) % rbuf_size; counter = counter - 1 },
  )
    where
      open b use {rbuf, gethere, counter}

  -- The writes of a `put` under the mutex, whatever the counter says.
  unfoldable pub insert_item : A → Ring A → Ring A
  insert_item x b = record b {
    rbuf = set rbuf puthere x;
    puthere = (puthere + 1) % rbuf_size;
    counter = counter + 1;
  }
    where
      open b use {rbuf, puthere, counter}

  -- What the consumer receives by `k` calls of `get`, and the buffer then. An answer of an empty
  -- buffer is no item.
  unfoldable pub consume : A → A → ℕ → Ring A → List A × Ring A
  consume zeroed invalid zero b = ([], b)
  consume zeroed invalid (suc k) b =
      let (x, b') = get_item zeroed invalid b in
      let (xs, b'') = consume zeroed invalid k b' in (if b.counter == 0 then xs else x ∷ xs, b'')
