-- ===== src/Fibers/Rest.antt =====
-- Where the fibers of source/fiber/core come to rest.
use cpp_concurrency.Base.{
  ℕ, suc, ◌≡◌, ◌≢◌, ◌⊎◌, refl, ap, subst, inl, inr, List, [], ◌∷◌, Option, some, get_elem?, total,
  List-cases, arith,
}
use cpp_concurrency.Fibers.{
  Pc, idle, resuming, inside, back, returned, suspending, calling, Thread, thread, World, init,
  Stands, takes, fires, Step, resumes, times, Reach,
}
use cpp_concurrency.Fibers.Count.{early, late, points, live_in}
use cpp_concurrency.Fibers.Safety.{held-once, thread-steps}

pc-cases : (pc : Pc) → (pc ≡ idle) ⊎ (pc ≢ idle)
pc-cases idle = inl refl
pc-cases (resuming f) = inr (λ e. cc)
pc-cases (inside f) = inr (λ e. cc)
pc-cases (back f) = inr (λ e. cc)
pc-cases (returned f) = inr (λ e. cc)
pc-cases (suspending f self cb) = inr (λ e. cc)
pc-cases (calling f cb) = inr (λ e. cc)

-- A thread that is not idle.
abbrev IsBusy : List Thread → Type 0
IsBusy ths =
    (j : ℕ) × (pc : Pc) × (p : Option ℕ) × (get_elem? ths j ≡ some (thread pc p)) × (pc ≢ idle)

threads-cases :
    (ths : List Thread)
    → IsBusy ths ⊎ ((a : ℕ) → (total (early a) ths ≡ 0) × (total (late a) ths ≡ 0))
threads-cases [] = inr (λ a. (refl, refl))
threads-cases (thread pc p ∷ ths) = elim (pc-cases pc) [
  | inr busy ↦ inl (0, pc, p, refl, busy)
  | inl free ↦ elim (threads-cases ths) [
    | inl b ↦ inl (suc b.0, b.1, b.2, b.3, b.4)
    | inr none_busy ↦ inr (λ a. (
      omega (arith, ap (λ c. early a (thread c p)) free, (none_busy a).0),
      omega (arith, ap (λ c. late a (thread c p)) free, (none_busy a).1),
    ))
  ]
]

-- In any state that can be reached with at least one thread, and in which no code keeps the handle
-- of a suspended fiber: a thread or a timer can take a step, or all fibers that were ever started
-- have been deleted.
pub fibers-finish :
    (n : ℕ) (s : World) (first : Thread)
    → Reach (init n) s
    → get_elem? s.threads 0 ≡ some first
    → s.handles ≡ []
    → ((s' : World) × Step s s') ⊎ ((a : ℕ) → live_in (get_elem? s.fibers a) ≡ 0)
fibers-finish n s (thread pc p) r at unkept = elim (threads-cases s.threads) [
  | inl b ↦ inl (thread-steps n s b.0 b.1 b.2 r b.3 b.4)
  | inr resting ↦ elim (List-cases s.timers) [
    | inr t ↦ inl (_, times (fires _ [] _ t.split))
    | inl no_timers ↦ elim (List-cases s.tasks) [
      | inr t ↦ elim (pc-cases pc) [
        | inr busy ↦ inl (thread-steps n s 0 pc p r at busy)
        | inl free ↦
            let idles = subst (λ c. Stands s 0 c p) free at in
            inl (_, resumes (takes 0 _ p [] _ idles t.split))
      ]
      | inl no_tasks ↦ inr (λ a. omega (
        arith,
        held-once n s a r,
        (resting a).0,
        (resting a).1,
        ap (total (points a)) no_timers,
        ap (total (points a)) no_tasks,
        ap (total (points a)) unkept,
      ))
    ]
  ]
]
