-- ===== src/Sandbox/Tasks.antt =====
-- The task queue of source/runtime/sandbox/manual_loop.cpp: how many tasks run, and in what order.
use cpp_concurrency.Base.{
  ℕ, zero, suc, ◌+◌, ◌-◌, ◌^◌, ◌≤◌, ◌<◌, ◌%◌, ◌&&◌, not, lt→ltb, is_empty-nil, is_empty-ne_nil,
  subst, ◌≡◌, ◌≢◌, refl, ap, sym, ◌∙◌, inl, inr, Bool, true, false, List, [], ◌∷◌, ◌++◌, arith, ltb,
  Bool-cases, List-cases, length, drop, append-nil, append_assoc,
}
use cpp_concurrency.Base as B
use cpp_concurrency.Sandbox.{
  Runtime, Runnable, plain, timed, run, run_front, run_within, run_at_most,
}

-- `f` done `n` times.
abbrev pub iterate {ℓ} : {A : Type ℓ} → ℕ → (A → A) → A → A
iterate zero f a = a
iterate (suc n) f a = iterate n f (f a)

module _ (exec : ℕ → Runtime → Runtime) where
  -- `k` tasks were run from `s`, each time the front one, of `m` that were allowed; fewer only if
  -- the queue was empty then.
  pub record IsRun (m : ℕ) (s : Runtime) (k : ℕ) (s' : Runtime) : Type 0 where
    pub last : s' ≡ iterate k (run_front exec) s
    pub within : k ≤ m
    pub stop : k < m → s'.tasks ≡ []
    pub busy : (j : ℕ) → j < k → (iterate j (run_front exec) s).tasks ≢ []

  IsRun-stop : (m : ℕ) (s : Runtime) → (0 < m → s.tasks ≡ []) → IsRun m s 0 s
  IsRun-stop m s e = record {
    last = refl;
    within = omega arith;
    stop = e;
    busy = λ j h. elim h [ ];
  }

  IsRun-next :
      (m : ℕ) (s : Runtime) (k : ℕ) (s' : Runtime)
      → s.tasks ≢ []
      → IsRun m (run_front exec s) k s'
      → IsRun (suc m) s (suc k) s'
  IsRun-next m s k s' e r = record {
    last = r.last;
    within = omega (arith, r.within);
    stop = λ h. r.stop (omega arith);
    busy = busy_from;
  }
    where
      busy_from : (j : ℕ) → j < suc k → (iterate j (run_front exec) s).tasks ≢ []
      busy_from zero h = e
      busy_from (suc j) h = r.busy j (omega arith)

  run_within-go :
      (f limit count : ℕ) (s : Runtime)
      → limit < 2 ^ 64
      → count < limit
      → B.is_empty s.tasks ≡ false
      → run_within exec (suc f) limit count s
        ≡ run_within exec f limit (count + 1) (run_front exec s)
  unfolding run_within
  run_within-go f limit count s fit lt e =
      let wraps : (count + 1) % 2 ^ 64 ≡ count + 1 = omega arith in
      rw (lt→ltb count limit lt, e, wraps)

  run_within-end :
      (f limit count : ℕ) (s : Runtime)
      → limit < 2 ^ 64
      → count ≤ limit
      → (count < limit → s.tasks ≡ [])
      → run_within exec (suc f) limit count s ≡ (count, s)
  unfolding run_within
  run_within-end f limit count s fit le e =
      let wraps : ((count + 1) % 2 ^ 64 + 2 ^ 64 - 1) % 2 ^ 64 ≡ count = omega arith in ground arith

  run_within-IsRun :
      (f m limit count : ℕ) (s : Runtime)
      → limit < 2 ^ 64
      → count + m ≡ limit
      → m < f
      → (k : ℕ) × (s' : Runtime) × (run_within exec f limit count s ≡ (count + k, s'))
        × IsRun m s k s'
  run_within-IsRun zero m limit count s fit le enough = absurd (omega arith)
  run_within-IsRun (suc f) zero limit count s fit le enough = (
    0,
    s,
    run_within-end f limit count s fit (omega arith) (λ h. absurd (omega arith))
        ∙ ap (λ (n : ℕ). (n, s)) (omega arith),
    IsRun-stop 0 s (λ h. elim h [ ]),
  )
  run_within-IsRun (suc f) (suc m) limit count s fit le enough =
      elim (Bool-cases (B.is_empty s.tasks)) [
        | inl done ↦ (
          0,
          s,
          run_within-end f limit count s fit (omega arith) (λ h. is_empty-nil s.tasks done)
              ∙ ap (λ (n : ℕ). (n, s)) (omega arith),
          IsRun-stop (suc m) s (λ h. is_empty-nil s.tasks done),
        )
        | inr more ↦
            let (k, s', e, r) =
              run_within-IsRun f m limit (count + 1) (run_front exec s) fit (omega arith)
                (omega arith) in
            (
              suc k,
              s',
              run_within-go f limit count s fit (omega arith) more
                  ∙ e
                  ∙ ap (λ (n : ℕ). (n, s')) (omega arith),
              IsRun-next m s k s' (is_empty-ne_nil s.tasks more) r,
            )
      ]

  -- Whatever the tasks do, `RunAtMostTasks` with a `limit` below 2 ^ 64 runs front tasks one after
  -- the other, each from a queue that is not empty, and returns how many: at most `limit`, and
  -- fewer only if the queue is then empty.
  pub run_at_most-IsRun :
      (limit : ℕ) (s : Runtime)
      → limit < 2 ^ 64
      → IsRun limit s (run_at_most exec limit s).0 (run_at_most exec limit s).1
  unfolding run_at_most
  run_at_most-IsRun limit s fit =
      let (k, s', e, r) =
        run_within-IsRun (suc limit) limit limit 0 s fit (omega arith) (omega arith) in
      subst (λ (p : ℕ × Runtime). IsRun limit s p.0 p.1)
        (ap (λ (n : ℕ). (n, s')) (omega arith) ∙ sym e) r

  -- Tasks that, when they are run, only append to the queue.
  abbrev pub Appends : List Runnable → List Runnable → Type 0
  Appends before after = record { new : List Runnable; appended : after ≡ before ++ new }

  abbrev pub OnlyAppend : Type 0
  OnlyAppend = (task : ℕ) (s : Runtime) → Appends s.tasks (exec task s).tasks

  run-Appends : OnlyAppend → (t : Runnable) (s : Runtime) → Appends s.tasks (run exec t s).tasks
  unfolding run
  run-Appends only (plain task) s = only task s
  run-Appends only (timed timer) s = only timer.task s

  run_front-Appends :
      OnlyAppend
      → (t : Runnable) (rest : List Runnable) (s : Runtime) → s.tasks ≡ t ∷ rest
      → Appends rest (run_front exec s).tasks
  unfolding run_front
  run_front-Appends only t rest s e =
      rw (e, run_front) (run-Appends only t (record s { tasks = rest }))

  -- Where running a task only appends to the queue, running `j` of the tasks `old` that are at its
  -- front leaves the others of `old` at the front, in their order: tasks run first in, first out.
  pub iterate-Appends :
      OnlyAppend
      → (j : ℕ) (old new : List Runnable) (s : Runtime) → s.tasks ≡ old ++ new
      → j ≤ length old
      → Appends (drop j old) (iterate j (run_front exec) s).tasks
  iterate-Appends only zero old new s e le = record { new = new; appended = e }
  iterate-Appends only (suc j) [] new s e le = absurd (omega arith)
  iterate-Appends only (suc j) (t ∷ old) new s e le =
      let step : Appends (old ++ new) (run_front exec s).tasks =
        run_front-Appends only t (old ++ new) s e in
      iterate-Appends only j old (new ++ step.new) (run_front exec s)
        (step.appended ∙ append_assoc old new step.new) (omega arith)
