-- ===== src/Fibers/Safety.antt =====
-- What source/fiber/core promises to the fibers and to the runtime.
use cpp_concurrency.Base.{
  ℕ, ◌+◌, ◌<◌, ◌≡◌, ◌≢◌, refl, ap, sym, subst, inl, inr, false, Option, none, some, get_elem?,
  le-total, bit, ==_iff, Bool-cases, Option-cases, All-get, arith,
}
use cpp_concurrency.Fibers.{
  Callback, Body, returns, goes, suspends, Fiber, Pc, idle, resuming, inside, back, returned,
  suspending, calling, Thread, thread, World, init, Stands, Loads, Act, Step, resumes, acts, Reach,
  here, later, asked, enters, comes_back, deletes, calls_back, hands_over, calls_go, calls_suspend,
  sets_callback, ends,
}
use cpp_concurrency.Fibers.Count.{early, late, points, holders, live_in, done_in, bare_of, bare_in}
use cpp_concurrency.Fibers.Keeps.{OwnsSelf, IsSound, Step-IsSound, Ask-IsSound, init-IsSound}

Reach-IsSound : (n : ℕ) {s : World} → Reach (init n) s → IsSound s
Reach-IsSound n here = init-IsSound n
Reach-IsSound n (later r st) = Step-IsSound (Reach-IsSound n r) st
Reach-IsSound n (asked r m) = Ask-IsSound (Reach-IsSound n r) m

-- What is at an address that has a pointer to it.
live-loads : (o : Option (Option Fiber)) → 0 < live_in o → (fb : Fiber) × (o ≡ some (some fb))
live-loads none pos = absurd (omega arith)
live-loads (some none) pos = absurd (omega arith)
live-loads (some (some fb)) pos = (fb, refl)

points_self : (f : ℕ) → points f f ≡ 1
points_self f = ap bit ((==_iff f f).1 refl)

-- In any state that any number of threads and calls from outside can reach, and for any address: a
-- fiber that has not been deleted is in hand of one thread, or it is one task, one timer or one
-- handle that is kept, and nothing leads to an address without a fiber. So no fiber runs twice at a
-- time, is lost, or is used after it was deleted.
pub held-once :
    (n : ℕ) (s : World) (a : ℕ) → Reach (init n) s → holders a s ≡ live_in (get_elem? s.fibers a)
held-once n s a r = ((Reach-IsSound n r).fits a).0

module _ (s : World) (i : IsSound s) (j : ℕ) where
  in_hand :
      (th : Thread) (f : ℕ)
      → get_elem? s.threads j ≡ some th
      → 0 < early f th + late f th
      → (fb : Fiber) × Loads s f fb
  in_hand th f at pos = live-loads (get_elem? s.fibers f) (
      omega (
        arith,
        (i.fits f).0,
        le-total (early f) s.threads j th at,
        le-total (late f) s.threads j th at,
      ))

  -- The routine that a thread is in has not ended.
  early-runs :
      (th : Thread) (f : ℕ) (fb : Fiber)
      → get_elem? s.threads j ≡ some th
      → 0 < early f th
      → Loads s f fb
      → fb.is_done ≡ false
  early-runs th f fb at pos e = elim (Bool-cases fb.is_done) [
    | inl over ↦ absurd (
        omega (
          arith,
          (i.fits f).0,
          (i.fits f).1,
          ap live_in e,
          ap done_in e,
          ap bit over,
          le-total (early f) s.threads j th at,
        ))
    | inr un ↦ un
  ]

  -- A fiber that was suspended has its callback.
  late-called :
      (th : Thread) (f : ℕ) (fb : Fiber)
      → get_elem? s.threads j ≡ some th
      → 0 < late f th
      → Loads s f fb
      → fb.is_done ≡ false
      → (cb : Callback) × (fb.callback ≡ some cb)
  late-called th f fb at pos e un = elim (Option-cases fb.callback) [
    | inl empty ↦ absurd (
        omega (
          arith,
          (i.fits f).2,
          ap live_in e,
          ap bare_in e,
          ap (λ c. bare_of c fb.is_done) empty,
          ap (λ d. bare_of none d) un,
          le-total (late f) s.threads j th at,
        ))
    | inr called ↦ called
  ]

  -- A routine that has not ended does the next of its calls.
  routine-goes :
      (f : ℕ) (fb : Fiber) (b : Body)
      → Stands s j (inside f) (some f)
      → Loads s f fb
      → fb.is_done ≡ false
      → fb.routine ≡ b
      → (s' : World) × Act s s'
  routine-goes f fb returns at e un is = (_, ends j f (some f) fb at e un is)
  routine-goes f fb (goes child rest) at e un is = (_, calls_go j f f fb fb child rest at e e un is)
  routine-goes f fb (suspends cb rest) at e un is = (_, calls_suspend j f f fb cb rest at e un is)

  thread-goes : (pc : Pc) (p : Option ℕ) → Stands s j pc p → pc ≢ idle → (s' : World) × Step s s'
  thread-goes idle p at busy = absurd (busy refl)
  thread-goes (resuming f) p at busy =
      let (fb, e) = in_hand _ f at (omega (arith, points_self f)) in
      (_, resumes (enters j f p fb at e))
  thread-goes (inside f) p at busy =
      let (fb, e) = in_hand _ f at (omega (arith, points_self f)) in
      let un = early-runs _ f fb at (omega (arith, points_self f)) e in
      let owned : p ≡ some f = All-get OwnsSelf s.threads j (thread (inside f) p) at i.selves in
      let mine = subst (λ q. Stands s j (inside f) q) owned at in
      let (s', m) = routine-goes f fb fb.routine mine e un refl in (s', acts m)
  thread-goes (back f) p at busy = (_, resumes (comes_back j f p at))
  thread-goes (returned f) p at busy =
      let (fb, e) = in_hand _ f at (omega (arith, points_self f)) in
      elim (Bool-cases fb.is_done) [
        | inl over ↦ (_, resumes (deletes j f p fb at e over))
        | inr un ↦
            let (cb, called) = late-called _ f fb at (omega (arith, points_self f)) e un in
            (_, resumes (calls_back j f p fb cb at e un called))
      ]
  thread-goes (suspending f self cb) p at busy =
      let (fb, e) = in_hand _ f at (omega (arith, points_self f)) in
      let owned = All-get OwnsSelf s.threads j (thread (suspending f self cb) p) at i.selves in
      let mine = subst (λ k. Loads s k fb) (sym owned.0) e in
      (_, acts (sets_callback j f self p fb cb at mine))
  thread-goes (calling f cb) p at busy =
      let (fb, e) = in_hand _ f at (omega (arith, points_self f)) in
      (_, resumes (hands_over j f p fb cb at e))

-- In any state that can be reached, a thread that is not idle can take a step.
pub thread-steps :
    (n : ℕ) (s : World) (j : ℕ) (pc : Pc) (p : Option ℕ)
    → Reach (init n) s
    → Stands s j pc p
    → pc ≢ idle
    → (s' : World) × Step s s'
thread-steps n s j pc p r at busy = thread-goes s (Reach-IsSound n r) j pc p at busy

-- In any state that can be reached, while a thread is in the routine of a fiber, its `this_ptr` is
-- that fiber, which has not been deleted and whose routine has not ended: `Self` is right, also
-- after the fiber has changed threads.
pub inside_self :
    (n : ℕ) (s : World) (j f : ℕ) (p : Option ℕ)
    → Reach (init n) s
    → Stands s j (inside f) p
    → (p ≡ some f) × ((fb : Fiber) × Loads s f fb × (fb.is_done ≡ false))
inside_self n s j f p r at =
    let i = Reach-IsSound n r in
    let pos : 0 < early f (thread (inside f) p) = omega (arith, points_self f) in
    let (fb, e) = in_hand s i j _ f at (omega (arith, pos)) in
    (
      All-get OwnsSelf s.threads j (thread (inside f) p) at i.selves,
      (fb, e, early-runs s i j _ f fb at pos e),
    )
