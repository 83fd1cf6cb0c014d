-- ===== src/Thread/Event.antt =====
-- source/thread/event.hpp: a one-shot event on a futex. An access to the atomic and a call of the futex is a
-- step, of any number of threads.
use cpp_concurrency.Base.{
  ℕ, zero, suc, ◌≤◌, ◌<◌, ◌≡◌, refl, ap, ◌∙◌, inl, inr, Bool, true, false, List, [], ◌∷◌, map, some,
  get_elem?, set, total, total-set, le-total, some_of_total, if◌then◌else◌, replicate, Bool-cases,
  arith,
}

-- Where a thread stands: outside; in `Wait`, before the load, before the call of the futex, asleep in it, or
-- through; in `Fire`, before the store or before `WakeAll`.
pub data Pc : Type 0 where
  outside loading about asleep through storing waking : Pc

-- `Event`: whether `state_` is `Fired`.
pub record Event : Type 0 where
  pub fired : Bool
  pub threads : List Pc

abbrev pub init : ℕ → Event
init n = record { fired = false; threads = replicate n outside }

-- What `WakeAll` does to a thread.
abbrev pub awoken : Pc → Pc
awoken asleep = loading
awoken pc = pc

module _ (s : Event) where
  abbrev pub moved : ℕ → Pc → Event
  moved j pc = record s { threads = set s.threads j pc }

  -- The load in `Wait`.
  abbrev pub loads : ℕ → Event
  loads j = moved j (if s.fired then through else about)

  -- `futex::Wait`, which sleeps only if nothing was stored since.
  abbrev pub sleeps : ℕ → Event
  sleeps j = moved j (if s.fired then loading else asleep)

  -- The store in `Fire`.
  abbrev pub stores : ℕ → Event
  stores j = record (moved j waking) { fired = true }

  -- `futex::WakeAll`
  abbrev pub wakes_all : ℕ → Event
  wakes_all j = record s { threads = map awoken (set s.threads j outside) }

  pub data Step : Event → Type 0 where
    calls_wait : (j : ℕ) → get_elem? s.threads j ≡ some outside → Step (moved j loading)
    calls_fire : (j : ℕ) → get_elem? s.threads j ≡ some outside → Step (moved j storing)
    is_loaded : (j : ℕ) → get_elem? s.threads j ≡ some loading → Step (loads j)
    is_slept : (j : ℕ) → get_elem? s.threads j ≡ some about → Step (sleeps j)
    wakes_for_no_reason : (j : ℕ) → get_elem? s.threads j ≡ some asleep → Step (moved j loading)
    is_stored : (j : ℕ) → get_elem? s.threads j ≡ some storing → Step (stores j)
    all_woken : (j : ℕ) → get_elem? s.threads j ≡ some waking → Step (wakes_all j)
    returns : (j : ℕ) → get_elem? s.threads j ≡ some through → Step (moved j outside)

pub data Reach (s : Event) : Event → Type 0 where
  here : Reach s s
  later : {t u : Event} → Reach s t → Step t u → Reach s u

abbrev sleepers : Pc → ℕ
sleepers asleep = 1
sleepers pc = 0

abbrev wakers : Pc → ℕ
wakers waking = 1
wakers pc = 0

abbrev passers : Pc → ℕ
passers through = 1
passers pc = 0

-- A thread sleeps only before the store, or while one is about to wake it; it is through only after the store.
record IsSound (s : Event) : Type 0 where
  served : s.fired ≡ true → 0 < total sleepers s.threads → 0 < total wakers s.threads
  unpassed : s.fired ≡ false → total passers s.threads ≡ 0

none_outside :
    (n : ℕ) → (total sleepers (replicate n outside) ≡ 0) × (total passers (replicate n outside) ≡ 0)
none_outside zero = (refl, refl)
none_outside (suc n) =
    let below = none_outside n in (omega (arith, below.0), omega (arith, below.1))

awoken-counts : (pc : Pc) → (sleepers (awoken pc) ≡ 0) × (passers (awoken pc) ≡ passers pc)
awoken-counts outside = (refl, refl)
awoken-counts loading = (refl, refl)
awoken-counts about = (refl, refl)
awoken-counts asleep = (refl, refl)
awoken-counts through = (refl, refl)
awoken-counts storing = (refl, refl)
awoken-counts waking = (refl, refl)

woken-counts :
    (ths : List Pc)
    → (total sleepers (map awoken ths) ≡ 0) × (total passers (map awoken ths) ≡ total passers ths)
woken-counts [] = (refl, refl)
woken-counts (pc ∷ ths) =
    let below = woken-counts ths in
    (omega (arith, (awoken-counts pc).0, below.0), omega (arith, (awoken-counts pc).1, below.1))

waker : (pc : Pc) → 0 < wakers pc → pc ≡ waking
waker outside pos = absurd (omega arith)
waker loading pos = absurd (omega arith)
waker about pos = absurd (omega arith)
waker asleep pos = absurd (omega arith)
waker through pos = absurd (omega arith)
waker storing pos = absurd (omega arith)
waker waking pos = refl

module _ (s : Event) (i : IsSound s) (j : ℕ) (before after : Pc)
    (at : get_elem? s.threads j ≡ some before) where
  moved-IsSound :
      (s.fired ≡ true → wakers before ≤ wakers after)
      → (s.fired ≡ true → sleepers after ≤ sleepers before)
      → (s.fired ≡ false → passers after ≤ passers before)
      → IsSound (moved s j after)
  moved-IsSound w e p = record {
    served = λ f pos.
        let a = w f in
        let b = e f in
        let old = i.served f in
        let was : 0 < total sleepers s.threads =
          omega (arith, total-set sleepers s.threads j before after at, b) in
        omega (arith, total-set wakers s.threads j before after at, old was, a);
    unpassed = λ f. omega (arith, total-set passers s.threads j before after at, i.unpassed f, p f);
  }

Step-IsSound : {s t : Event} → IsSound s → Step s t → IsSound t
Step-IsSound {s} i (calls_wait j at) =
    moved-IsSound s i j outside loading at (λ f. omega arith) (λ f. omega arith) (λ f. omega arith)
Step-IsSound {s} i (calls_fire j at) =
    moved-IsSound s i j outside storing at (λ f. omega arith) (λ f. omega arith) (λ f. omega arith)
Step-IsSound {s} i (is_loaded j at) =
    moved-IsSound s i j loading (if s.fired then through else about) at (λ f. rw f (omega arith))
      (λ f. rw f (omega arith)) (λ f. rw f (omega arith))
Step-IsSound {s} i (is_slept j at) =
    moved-IsSound s i j about (if s.fired then loading else asleep) at (λ f. rw f (omega arith))
      (λ f. rw f (omega arith)) (λ f. rw f (omega arith))
Step-IsSound {s} i (wakes_for_no_reason j at) =
    moved-IsSound s i j asleep loading at (λ f. omega arith) (λ f. omega arith) (λ f. omega arith)
Step-IsSound {s} i (is_stored j at) = record {
  served = λ f pos. omega (arith, total-set wakers s.threads j storing waking at);
  unpassed = λ f. cc;
}
Step-IsSound {s} i (all_woken j at) = record {
  served = λ f pos. absurd (omega (arith, (woken-counts (set s.threads j outside)).0));
  unpassed = λ f. omega (
    arith,
    (woken-counts (set s.threads j outside)).1,
    total-set passers s.threads j waking outside at,
    i.unpassed f,
  );
}
Step-IsSound {s} i (returns j at) =
    moved-IsSound s i j through outside at (λ f. omega arith) (λ f. omega arith) (λ f. omega arith)

Reach-IsSound : (n : ℕ) {s : Event} → Reach (init n) s → IsSound s
Reach-IsSound n here = record { served = λ f. cc; unpassed = λ f. (none_outside n).1 }
Reach-IsSound n (later r st) = Step-IsSound (Reach-IsSound n r) st

-- In any state that any number of threads in `Wait` and `Fire` can reach, with wake-ups for no
-- reason: if a thread sleeps in the futex although the event is fired, another is about to call
-- `WakeAll`, so no wake-up is lost.
pub asleep-helped :
    (n : ℕ) (s : Event) (j : ℕ)
    → Reach (init n) s
    → get_elem? s.threads j ≡ some asleep
    → s.fired ≡ true
    → (k : ℕ) × (get_elem? s.threads k ≡ some waking)
asleep-helped n s j r at f =
    let i = Reach-IsSound n r in
    let some_asleep : 0 < total sleepers s.threads =
      omega (arith, le-total sleepers s.threads j asleep at) in
    let (k, pc, stands, pos) = some_of_total wakers s.threads (i.served f some_asleep) in
    (k, stands ∙ ap some (waker pc pos))

-- A thread is through only after the event was fired.
pub through-fired :
    (n : ℕ) (s : Event) (j : ℕ)
    → Reach (init n) s
    → get_elem? s.threads j ≡ some through
    → s.fired ≡ true
through-fired n s j r at = elim (Bool-cases s.fired) [
  | inl e ↦ e
  | inr e ↦
      absurd
        (omega (arith, (Reach-IsSound n r).unpassed e, le-total passers s.threads j through at))
]
