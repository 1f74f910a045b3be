-- ===== src/Manager/Prepare.antt =====
-- `get_streaming_manager` and the start of the thread of ze_streaming_manager.c: its sensors, and
-- the events that Android holds from before.
use ze_sense_server.Prelude.{
  ℕ, zero, suc, ◌+◌, ◌≡◌, ◌==◌, ◌||◌, Bool, false, if◌then◌else◌, List, [], ◌∷◌, Option, none, some,
  set, replicate, ◌++◌, ◌&&◌, ap, ◌∙◌, length, length-append, get_or, refl, arith,
}
use mathlib.Core.Path.{subst}
use mathlib.Core.List.{append_assoc}
use ze_sense_server.Manager.Sensors.{has_carrier}
use ze_sense_server.Codes.{ze_numsensors, proximity, orientation}
use ze_sense_server.Manager.{Sensor, zero_sensor}

-- The context after `memset`, as far as it is modelled: its sensors.
unfoldable pub get_streaming_manager : (malloc : Bool) → Option (List Sensor)
get_streaming_manager malloc =
    if malloc then some (replicate ze_numsensors (zero_sensor 0)) else none

-- The loop over the sensors, from the index `i` on for `n` rounds. The mutex of a sensor with a
-- carrier has to be made; where that fails, the thread returns.
unfoldable pub prepare_sensors :
    (mutex_fails : ℕ → Bool) → (n i : ℕ) → List Sensor → Option (List Sensor)
prepare_sensors mutex_fails zero i sensors = some sensors
prepare_sensors mutex_fails (suc n) i sensors =
    let sensors' = set sensors i (record (get_or sensors i (zero_sensor 0)) { sensor = i }) in
    let rest = prepare_sensors mutex_fails n (i + 1) sensors' in
    if i == proximity
    then if mutex_fails i then none else rest
    else if i == orientation
    then if mutex_fails i then none else rest
    else rest

-- The sensors that the requests are served on.
pub numbered : (n i : ℕ) → List Sensor
numbered zero i = []
numbered (suc n) i = zero_sensor i ∷ numbered n (i + 1)

-- Whether the mutex of a sensor with a carrier fails, among `n` from `i` on.
pub a_mutex_fails : (ℕ → Bool) → (n i : ℕ) → Bool
a_mutex_fails mutex_fails zero i = false
a_mutex_fails mutex_fails (suc n) i =
    (has_carrier i && mutex_fails i) || a_mutex_fails mutex_fails n (i + 1)

get_or-length :
    (pre rest : List Sensor) (x d : Sensor) → get_or (pre ++ x ∷ rest) (length pre) d ≡ x
get_or-length [] rest x d = refl
get_or-length (y ∷ pre) rest x d = get_or-length pre rest x d

set-length :
    (pre rest : List Sensor) (x v : Sensor)
    → set (pre ++ x ∷ rest) (length pre) v ≡ (pre ++ v ∷ []) ++ rest
set-length [] rest x v = refl
set-length (y ∷ pre) rest x v = ap (λ l. y ∷ l) (set-length pre rest x v)

one_sensor :
    (pre rest : List Sensor) (i : ℕ)
    → length pre ≡ i
    → let sensors = pre ++ zero_sensor 0 ∷ rest in
      set sensors i (record (get_or sensors i (zero_sensor 0)) { sensor = i })
      ≡ (pre ++ zero_sensor i ∷ []) ++ rest
one_sensor pre rest i e =
    let sensors = pre ++ zero_sensor 0 ∷ rest in
    subst
      (λ k.
        set sensors k (record (get_or sensors k (zero_sensor 0)) { sensor = k })
        ≡ (pre ++ zero_sensor k ∷ []) ++ rest)
      e
      (set-length pre rest (zero_sensor 0) _
        ∙ ap (λ (x : Sensor). (pre ++ record x { sensor = length pre } ∷ []) ++ rest)
            (get_or-length pre rest (zero_sensor 0) (zero_sensor 0)))

prepare_lem :
    (mutex_fails : ℕ → Bool) (n i : ℕ) (pre : List Sensor)
    → length pre ≡ i
    → prepare_sensors mutex_fails n i (pre ++ replicate n (zero_sensor 0))
      ≡ (if a_mutex_fails mutex_fails n i then none else some (pre ++ numbered n i))
unfolding prepare_sensors numbered a_mutex_fails
prepare_lem mutex_fails zero i pre e = refl
prepare_lem mutex_fails (suc n) i pre e = rw (one_sensor pre (replicate n (zero_sensor 0)) i e) (
    ground (
      arith,
      prepare_lem mutex_fails n (i + 1) (pre ++ zero_sensor i ∷ [])
          (omega (arith, length-append pre (zero_sensor i ∷ []))),
      append_assoc pre (zero_sensor i ∷ []) (numbered n (i + 1)),
    ))

carriers_only :
    (mutex_fails : ℕ → Bool)
    → a_mutex_fails mutex_fails ze_numsensors 0 ≡ (mutex_fails orientation || mutex_fails proximity)
unfolding a_mutex_fails
carriers_only mutex_fails = ground arith

-- The preparation succeeds unless the mutex of a sensor with a carrier cannot be made, and then it
-- leaves every sensor inactive, with no stream and no oneshot, under its own number.
pub prepare_sensors-numbered :
    (mutex_fails : ℕ → Bool)
    → prepare_sensors mutex_fails ze_numsensors 0 (replicate ze_numsensors (zero_sensor 0)) ≡ (
        if mutex_fails orientation || mutex_fails proximity
        then none
        else some (numbered ze_numsensors 0))
prepare_sensors-numbered mutex_fails = prepare_lem mutex_fails ze_numsensors 0 [] refl ∙ two_mutexes
  where
    two_mutexes :
        (if a_mutex_fails mutex_fails ze_numsensors 0
          then none
          else some (numbered ze_numsensors 0))
        ≡ (if mutex_fails orientation || mutex_fails proximity
            then none
            else some (numbered ze_numsensors 0))
    two_mutexes =
        ap (λ b. if b then none else some (numbered ze_numsensors 0)) (carriers_only mutex_fails)
