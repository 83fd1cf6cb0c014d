-- ===== src/Thread/UniqueLock.antt =====
-- source/thread/unique_lock.hpp: a lock that knows whether it has its mutex.
use cpp_concurrency.Base.{
  ◌≡◌, refl, Bool, true, false, not, ◌&&◌, List, [], ◌∷◌, ◌++◌, if◌then◌else◌,
}

-- A call of the mutex.
pub data Touch : Type 0 where
  locks unlocks : Touch

-- `UniqueLock`: `is_owned_`.
pub record UniqueLock : Type 0 where
  pub is_owned : Bool

-- `lock`, `unlock` and the destructor, with what they call of the mutex.
pub lock : UniqueLock → List Touch × UniqueLock
lock l = (if l.is_owned then [] else locks ∷ [], record { is_owned = true })

pub unlock : UniqueLock → List Touch × UniqueLock
unlock l = if l.is_owned then (unlocks ∷ [], record { is_owned = false }) else ([], l)

pub destroy : UniqueLock → List Touch
destroy l = if l.is_owned then unlocks ∷ [] else []

-- `UniqueLock(mutex)`
pub construct : List Touch × UniqueLock
unfolding lock
construct = lock (record { is_owned = false })

pub data Call : Type 0 where
  calls_lock calls_unlock : Call

abbrev pub perform : Call → UniqueLock → List Touch × UniqueLock
perform calls_lock l = lock l
perform calls_unlock l = unlock l

-- What a lock does to the mutex from some calls on, until it is destroyed; and in its whole life.
abbrev pub rest_of : List Call → UniqueLock → List Touch
rest_of [] l = destroy l
rest_of (c ∷ cs) l = let (touches, after) = perform c l in touches ++ rest_of cs after

abbrev pub life : List Call → List Touch
life cs = let (touches, after) = construct in touches ++ rest_of cs after

-- The calls that a mutex may get from a thread that has it or not, so that it ends up without it.
abbrev pub is_paired : Bool → List Touch → Bool
is_paired has [] = not has
is_paired has (locks ∷ ts) = not has && is_paired true ts
is_paired has (unlocks ∷ ts) = has && is_paired false ts

rest-paired :
    (cs : List Call) (owned : Bool)
    → is_paired owned (rest_of cs (record { is_owned = owned })) ≡ true
unfolding lock unlock destroy
rest-paired [] true = refl
rest-paired [] false = refl
rest-paired (calls_lock ∷ cs) true = rest-paired cs true
rest-paired (calls_lock ∷ cs) false = rest-paired cs true
rest-paired (calls_unlock ∷ cs) true = rest-paired cs false
rest-paired (calls_unlock ∷ cs) false = rest-paired cs false

-- In its whole life a lock takes and gives back its mutex in turn, and ends without it.
pub life-paired : (cs : List Call) → is_paired false (life cs) ≡ true
unfolding construct lock
life-paired cs = rest-paired cs true
