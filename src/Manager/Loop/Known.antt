-- ===== src/Manager/Loop/Known.antt =====
-- What holds of the sensors, the queues and the logs between the rounds of the thread.
use ze_sense_server.Prelude.{
  ℕ, zero, suc, ◌+◌, ◌<◌, ◌≤◌, ◌≡◌, sym, ap, ◌∙◌, true, List, [], ◌∷◌, ◌++◌, length, set, Option,
  none, some, arith,
}
use mathlib.Core.Path.{subst}
use ze_sense_server.Prelude.Result.{read, Returns}
use ze_sense_server.Codes.{ze_numsensors}
use ze_sense_server.Event.{Event}
use ze_sense_server.Carriers.{CarriersQueue}
use ze_sense_server.Manager.{Sensor}
use ze_sense_server.Manager.Invariant.{IsValid}
use ze_sense_server.Manager.Loop.{Log, Queues}

-- The sensors from type `i` on are valid.
abbrev pub AllValid : ℕ → List Sensor → Type 0
AllValid i [] = Unit
AllValid i (s ∷ ss) = IsValid i s × AllValid (suc i) ss

-- The events come from sensors that the manager has.
abbrev pub Kinds : List Event → Type 0
Kinds [] = Unit
Kinds (e ∷ es) = (e.kind < ze_numsensors) × Kinds es

abbrev pub KindOf : Option Event → Type 0
KindOf none = Unit
KindOf (some e) = e.kind < ze_numsensors

-- The log has room for `n` more entries.
abbrev pub Room : ℕ → Log → Type 0
Room n l = l.counter + n ≤ length l.entries

abbrev pub HasRoom : ℕ → Queues → Type 0
HasRoom n q = Room n q.accel × Room n q.prox × Room n q.lights × Room n q.orient × Room n q.gyro

-- Unused room does no harm.
pub less_room : (m n : ℕ) (q : Queues) → n ≤ m → HasRoom m q → HasRoom n q
less_room m n q le h = omega (arith, h)

pub record IsSafe (n : ℕ) (q : Queues) : Type 0 where
  pub valid : AllValid 0 q.sensors
  pub all : length q.sensors ≡ ze_numsensors
  pub samples : Kinds q.samples
  pub carried : Kinds q.carrq.head
  pub room : HasRoom n q

pub read-AllValid :
    (ss : List Sensor) (i k : ℕ)
    → AllValid i ss
    → k < length ss
    → Returns (IsValid (i + k)) (read ss k)
read-AllValid [] i k v h = absurd (omega arith)
read-AllValid (s ∷ ss) i zero v h = subst (λ n. IsValid n s) (omega arith) v.0
read-AllValid (s ∷ ss) i (suc k) v h =
    subst (λ n. Returns (IsValid n) (read ss k)) (omega arith)
      (read-AllValid ss (suc i) k v.1 (omega arith))

pub set-AllValid :
    (ss : List Sensor) (i k : ℕ) (s : Sensor)
    → AllValid i ss
    → IsValid (i + k) s
    → AllValid i (set ss k s)
set-AllValid [] i k s v h = tt
set-AllValid (x ∷ ss) i zero s v h = (subst (λ n. IsValid n s) (omega arith) h, v.1)
set-AllValid (x ∷ ss) i (suc k) s v h =
    (v.0, set-AllValid ss (suc i) k s v.1 (subst (λ n. IsValid n s) (omega arith) h))

pub read-IsValid :
    (ss : List Sensor) (k : ℕ) → AllValid 0 ss → k < length ss → Returns (IsValid k) (read ss k)
read-IsValid ss k v h =
    subst (λ n. Returns (IsValid n) (read ss k)) (omega arith) (read-AllValid ss 0 k v h)

pub set-IsValid :
    (ss : List Sensor) (k : ℕ) (s : Sensor) → AllValid 0 ss → IsValid k s → AllValid 0 (set ss k s)
set-IsValid ss k s v h = set-AllValid ss 0 k s v (subst (λ n. IsValid n s) (omega arith) h)

pub Kinds-append : (xs ys : List Event) → Kinds xs → Kinds ys → Kinds (xs ++ ys)
Kinds-append [] ys h k = k
Kinds-append (x ∷ xs) ys h k = (h.0, Kinds-append xs ys h.1 k)

pub cached-IsValid :
    (i : ℕ) (e : Event) (s : Sensor)
    → IsValid i s
    → IsValid i (record s { event_cache = e; cache_valid = true })
cached-IsValid i e s v = record {
  distinct = v.distinct;
  ready = v.ready;
  idle = v.idle;
  handled = v.handled;
}

pub logged :
    (n : ℕ) {q q' : Queues}
    → IsSafe (suc n) q
    → HasRoom n q'
    → (q'.sensors ≡ q.sensors) × (q'.samples ≡ q.samples) × (q'.carrq ≡ q.carrq)
    → IsSafe n q'
logged n h r (ss, es, cs) = record {
  valid = subst (AllValid 0) (sym ss) h.valid;
  all = ap length ss ∙ h.all;
  samples = subst Kinds (sym es) h.samples;
  carried = subst (λ (c : CarriersQueue). Kinds c.head) (sym cs) h.carried;
  room = r;
}

-- What arrives in between comes from sensors that the manager has.
abbrev pub KnownKinds : (ℕ → List Event × List Event) → Type 0
KnownKinds new = (k : ℕ) → Kinds (new k).0 × Kinds (new k).1
