-- ===== src/Fibers/Keeps.antt =====
-- The invariant of source/fiber/core: whoever has a fiber in hand, or keeps a pointer to it, is the only one.
use cpp_concurrency.Base.{
  ℕ, zero, suc, ◌+◌, ◌≤◌, ◌≡◌, refl, ap, sym, ◌∙◌, subst, inl, inr, true, List, ◌++◌, Option, none,
  some, get_elem?, set, length, total, total-set, le-total, bit, ◌==◌, ==_iff, Bool-cases, All,
  All-get, All-set, replicate, arith,
}
use cpp_concurrency.Fibers.{
  Callback, schedules, sets_timer, keeps, Body, Fiber, idle, resuming, inside, back, returned,
  suspending, calling, Thread, thread, World, init, new_fiber, schedule, set_timer, spawn, invoke,
  moved, stored, Loads, Resume, takes, enters, comes_back, deletes, calls_back, hands_over, Act,
  calls_go, calls_suspend, sets_callback, ends, fires, Step, resumes, acts, times, Ask, is_spawned,
  is_woken,
}
use cpp_concurrency.Fibers.Count.{
  early, late, points, holders, live_in, done_in, bare_of, bare_in, get_elem?-set_if,
  get_elem?-append_if, length-get, total-without, total-behind,
}

-- What is at an address that `h` pointers lead to, `l` of them from threads behind `coroutine_.Resume()`: a
-- fiber if there is a pointer, and then only one; there, a fiber that has ended or has its callback.
abbrev pub Fits : ℕ → ℕ → Option (Option Fiber) → Type 0
Fits h l o = (h ≡ live_in o) × (done_in o ≤ l) × (bare_in o + l ≤ live_in o)

-- `this_ptr` is the fiber that a thread is in.
abbrev pub OwnsSelf : Thread → Type 0
OwnsSelf (thread (inside f) p) = p ≡ some f
OwnsSelf (thread (back f) p) = p ≡ some f
OwnsSelf (thread (suspending f self cb) p) = (self ≡ f) × (p ≡ some f)
OwnsSelf (thread other p) = p ≡ none

pub record IsSound (s : World) : Type 0 where
  pub fits : (a : ℕ) → Fits (holders a s) (total (late a) s.threads) (get_elem? s.fibers a)
  pub selves : All OwnsSelf s.threads

-- A write at `f`, seen from the address `a`.
stored-Fits :
    (fibers : List (Option Fiber)) (f a h l h' l' : ℕ) (fb : Fiber) (v : Option Fiber)
    → get_elem? fibers f ≡ some (some fb)
    → (bit (f == a) ≡ 1 → Fits h l (some (some fb)) → Fits h' l' (some v))
    → (bit (f == a) ≡ 0 → Fits h l (get_elem? fibers a) → Fits h' l' (get_elem? fibers a))
    → Fits h l (get_elem? fibers a)
    → Fits h' l' (get_elem? (set fibers f v) a)
stored-Fits fibers f a h l h' l' fb v loads hit miss old =
    rw (get_elem?-set_if fibers f (some fb) v a loads) (elim (Bool-cases (f == a)) [
      | inl e ↦
          let same : f ≡ a = (==_iff f a).0 e in
          let there : get_elem? fibers a ≡ some (some fb) =
            ap (get_elem? fibers) (sym same) ∙ loads in
          rw e (hit (ap bit e) (subst (Fits h l) there old))
      | inr e ↦ rw e (miss (ap bit e) old)
    ])

bare-ended : (c : Option Callback) → bare_of c true ≡ 0
bare-ended none = refl
bare-ended (some cb) = refl

invoke-fibers : (cb : Callback) (f : ℕ) (s : World) → (invoke cb f s).fibers ≡ s.fibers
unfolding invoke schedule set_timer
invoke-fibers schedules f s = refl
invoke-fibers sets_timer f s = refl
invoke-fibers keeps f s = refl

invoke-threads : (cb : Callback) (f : ℕ) (s : World) → (invoke cb f s).threads ≡ s.threads
unfolding invoke schedule set_timer
invoke-threads schedules f s = refl
invoke-threads sets_timer f s = refl
invoke-threads keeps f s = refl

invoke-holders :
    (cb : Callback) (f a : ℕ) (s : World) → holders a (invoke cb f s) ≡ holders a s + points a f
unfolding invoke schedule set_timer
invoke-holders schedules f a s = omega (arith, total-behind a f s.tasks)
invoke-holders sets_timer f a s = omega (arith, total-behind a f s.timers)
invoke-holders keeps f a s = omega (arith, total-behind a f s.handles)

module _ (s : World) (i : IsSound s) where
  -- A step that leaves the fibers alone.
  moves-IsSound :
      (s' : World)
      → s'.fibers ≡ s.fibers
      → ((a : ℕ) → holders a s' ≡ holders a s)
      → ((a : ℕ) → total (late a) s'.threads ≡ total (late a) s.threads)
      → All OwnsSelf s'.threads
      → IsSound s'
  moves-IsSound s' e h l owns = record { fits = λ a. rw (e, h a, l a) (i.fits a); selves = owns }

  spawn-IsSound : (func : Body) → IsSound (spawn func s)
  unfolding spawn
  spawn-IsSound func = record {
    fits = λ a.
        let n = length s.fibers in
        let more = total-behind a n s.tasks in
        let old = i.fits a in
        rw (get_elem?-append_if s.fibers (some (new_fiber func)) a) (elim (Bool-cases (n == a)) [
          | inl e ↦
              let same : n ≡ a = (==_iff n a).0 e in
              let bare : get_elem? s.fibers a ≡ none =
                subst (λ k. get_elem? s.fibers k ≡ none) same (length-get s.fibers) in
              let fresh = subst (Fits (holders a s) (total (late a) s.threads)) bare old in
              rw e (omega (arith, ap bit e, more, fresh.0), omega arith, omega (arith, fresh.2))
          | inr e ↦ rw e (omega (arith, ap bit e, more, old.0), old.1, old.2)
        ]);
    selves = i.selves;
  }

  Resume-IsSound : {s' : World} → Resume s s' → IsSound s'
  Resume-IsSound (takes j f p before after at e) =
      moves-IsSound _ refl
        (λ a. omega (
          arith,
          total-without a f s.tasks before after e,
          total-set (early a) s.threads j _ (thread (resuming f) p) at,
          total-set (late a) s.threads j _ (thread (resuming f) p) at,
        ))
        (λ a. omega (arith, total-set (late a) s.threads j _ (thread (resuming f) p) at))
        (All-set OwnsSelf s.threads j _ (All-get OwnsSelf s.threads j _ at i.selves) i.selves)
  Resume-IsSound (enters j f p fb at e) =
      moves-IsSound _ refl
        (λ a. omega (
          arith,
          total-set (early a) s.threads j _ (thread (inside f) (some f)) at,
          total-set (late a) s.threads j _ (thread (inside f) (some f)) at,
        ))
        (λ a. omega (arith, total-set (late a) s.threads j _ (thread (inside f) (some f)) at))
        (All-set OwnsSelf s.threads j _ refl i.selves)
  Resume-IsSound (comes_back j f p at) =
      moves-IsSound _ refl
        (λ a. omega (
          arith,
          total-set (early a) s.threads j _ (thread (returned f) none) at,
          total-set (late a) s.threads j _ (thread (returned f) none) at,
        ))
        (λ a. omega (arith, total-set (late a) s.threads j _ (thread (returned f) none) at))
        (All-set OwnsSelf s.threads j _ refl i.selves)
  Resume-IsSound (deletes j f p fb at e over) = record {
    fits = λ a.
        let moved_early = total-set (early a) s.threads j _ (thread idle p) at in
        let moved_late = total-set (late a) s.threads j _ (thread idle p) at in
        stored-Fits s.fibers f a _ _ _ _ fb none e
          (λ hit old. (
            omega (arith, moved_early, moved_late, hit, old.0),
            omega arith,
            omega (arith, moved_early, moved_late, hit, old.2),
          ))
          (λ miss old. (
            omega (arith, moved_early, moved_late, miss, old.0),
            omega (arith, moved_late, miss, old.1),
            omega (arith, moved_late, miss, old.2),
          ))
          (i.fits a);
    selves = All-set OwnsSelf s.threads j _ (All-get OwnsSelf s.threads j _ at i.selves) i.selves;
  }
  Resume-IsSound (calls_back j f p fb cb at e un c) = record {
    fits = λ a.
        let old = i.fits a in
        let moved_early = total-set (early a) s.threads j _ (thread (calling f cb) p) at in
        let moved_late = total-set (late a) s.threads j _ (thread (calling f cb) p) at in
        (
          omega (arith, moved_early, moved_late, old.0),
          elim (Bool-cases (f == a)) [
            | inl hit ↦
                let same : f ≡ a = (==_iff f a).0 hit in
                let there : get_elem? s.fibers a ≡ some (some fb) =
                  ap (get_elem? s.fibers) (sym same) ∙ e in
                omega (arith, ap done_in there, ap bit un)
            | inr miss ↦ omega (arith, moved_late, ap bit miss, old.1)
          ],
          omega (arith, moved_late, old.2),
        );
    selves = All-set OwnsSelf s.threads j _ (All-get OwnsSelf s.threads j _ at i.selves) i.selves;
  }
  Resume-IsSound (hands_over j f p fb cb at e) =
      moves-IsSound _ (invoke-fibers cb f _)
        (λ a. omega (
          arith,
          invoke-holders cb f a (moved s j idle p),
          total-set (early a) s.threads j _ (thread idle p) at,
          total-set (late a) s.threads j _ (thread idle p) at,
        ))
        (λ a.
          ap (total (late a)) (invoke-threads cb f (moved s j idle p))
          ∙ omega (arith, total-set (late a) s.threads j _ (thread idle p) at))
        (subst (All OwnsSelf) (sym (invoke-threads cb f (moved s j idle p)))
          (All-set OwnsSelf s.threads j _ (All-get OwnsSelf s.threads j _ at i.selves) i.selves))

module _ (s : World) (i : IsSound s) where
  -- A routine goes on, whoever runs it.
  advances-IsSound :
      (f : ℕ) (fb : Fiber) (rest : Body)
      → Loads s f fb
      → IsSound (stored s f (some (record fb { routine = rest })))
  advances-IsSound f fb rest lf = record {
    fits =
        λ a. stored-Fits s.fibers f a _ _ _ _ fb _ lf (λ hit old. old) (λ miss old. old) (i.fits a);
    selves = i.selves;
  }

  Act-IsSound : {s' : World} → Act s s' → IsSound s'
  Act-IsSound (calls_go j f self fb me child rest at lself lf un e) =
      spawn-IsSound (stored s f (some (record fb { routine = rest })))
        (advances-IsSound f fb rest lf) child
  Act-IsSound (calls_suspend j f self fb cb rest at lf un e) =
      let owned = All-get OwnsSelf s.threads j _ at i.selves in
      let same : self ≡ f = cc owned in
      let before = advances-IsSound f fb rest lf in
      let pc = thread (suspending f self cb) (some self) in
      moves-IsSound (stored s f (some (record fb { routine = rest }))) before _ refl
        (λ a.
          omega (
            arith,
            total-set (early a) s.threads j _ pc at,
            total-set (late a) s.threads j _ pc at,
          ))
        (λ a. omega (arith, total-set (late a) s.threads j _ pc at))
        (All-set OwnsSelf s.threads j pc (same, owned) i.selves)
  Act-IsSound (sets_callback j f self p me cb at lself) =
      let owned = All-get OwnsSelf s.threads j _ at i.selves in
      record {
        fits = λ a.
            let same : bit (self == a) ≡ bit (f == a) = ap (λ k. bit (k == a)) owned.0 in
            let moved_early = total-set (early a) s.threads j _ (thread (back f) p) at in
            let moved_late = total-set (late a) s.threads j _ (thread (back f) p) at in
            let among = le-total (early a) s.threads j _ at in
            stored-Fits s.fibers self a _ _ _ _ me _ lself
              (λ hit old. (
                omega (arith, moved_early, moved_late, old.0),
                omega (arith, moved_late, old.1),
                omega (arith, moved_late, same, hit, among, old.0),
              ))
              (λ miss old. (
                omega (arith, moved_early, moved_late, old.0),
                omega (arith, moved_late, same, miss, old.1),
                omega (arith, moved_late, same, miss, old.2),
              ))
              (i.fits a);
        selves = All-set OwnsSelf s.threads j _ owned.1 i.selves;
      }
  Act-IsSound (ends j f p fb at lf un e) = record {
    fits = λ a.
        let moved_early = total-set (early a) s.threads j _ (thread (back f) p) at in
        let moved_late = total-set (late a) s.threads j _ (thread (back f) p) at in
        let among = le-total (early a) s.threads j _ at in
        stored-Fits s.fibers f a _ _ _ _ fb _ lf
          (λ hit old. (
            omega (arith, moved_early, moved_late, old.0),
            omega (arith, moved_late, hit),
            omega (arith, moved_late, hit, among, old.0, bare-ended fb.callback),
          ))
          (λ miss old. (
            omega (arith, moved_early, moved_late, old.0),
            omega (arith, moved_late, miss, old.1),
            omega (arith, moved_late, miss, old.2),
          ))
          (i.fits a);
    selves = All-set OwnsSelf s.threads j _ (All-get OwnsSelf s.threads j _ at i.selves) i.selves;
  }

-- A pointer leaves a timer or a handle, and becomes a task.
schedules-IsSound :
    (s : World) (f : ℕ) (timers handles : List ℕ)
    → IsSound s
    → ((a : ℕ)
        → total (points a) timers + total (points a) handles + points a f
          ≡ total (points a) s.timers + total (points a) s.handles)
    → IsSound (schedule f (record s { timers = timers; handles = handles }))
unfolding schedule
schedules-IsSound s f timers handles i same =
    moves-IsSound s i _ refl (λ a. omega (arith, same a, total-behind a f s.tasks)) (λ a. refl)
      i.selves

pub Step-IsSound : {s s' : World} → IsSound s → Step s s' → IsSound s'
Step-IsSound {s} i (resumes m) = Resume-IsSound s i m
Step-IsSound {s} i (acts m) = Act-IsSound s i m
Step-IsSound {s} i (times (fires f before after e)) =
    schedules-IsSound s f (before ++ after) s.handles i
      (λ a. omega (arith, total-without a f s.timers before after e))

pub Ask-IsSound : {s s' : World} → IsSound s → Ask s s' → IsSound s'
Ask-IsSound {s} i (is_spawned func) = spawn-IsSound s i func
Ask-IsSound {s} i (is_woken f before after e) =
    schedules-IsSound s f s.timers (before ++ after) i
      (λ a. omega (arith, total-without a f s.handles before after e))

none_in_hand :
    (n a : ℕ)
    → (total (early a) (replicate n (thread idle none)) ≡ 0)
      × (total (late a) (replicate n (thread idle none)) ≡ 0)
none_in_hand zero a = (refl, refl)
none_in_hand (suc n) a =
    let below = none_in_hand n a in (omega (arith, below.0), omega (arith, below.1))

none_inside : (n : ℕ) → All OwnsSelf (replicate n (thread idle none))
none_inside zero = tt
none_inside (suc n) = (refl, none_inside n)

pub init-IsSound : (n : ℕ) → IsSound (init n)
init-IsSound n = record {
  fits = λ a.
      let free = none_in_hand n a in
      (omega (arith, free.0, free.1), omega arith, omega (arith, free.1));
  selves = none_inside n;
}
