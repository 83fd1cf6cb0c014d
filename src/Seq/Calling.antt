-- ===== src/Seq/Calling.antt =====
-- Callbacks and tasks run, of the combinators of source/future/combine/seq.
use cpp_concurrency.Base.{
  ℕ, ◌+◌, ◌≡◌, refl, inl, inr, Bool, List, [], ◌∷◌, length, bit, ◌==◌, Bool-cases, get_elem?-lt,
  subst, arith,
}
use cpp_concurrency.Result.{ok, err, transform, and_then, or_else}
use cpp_concurrency.Seq.{Data, View, Expr, Pipe}
use cpp_concurrency.Seq as Seq
use cpp_concurrency.Seq.Meaning.{denote, denote_pipe}
use cpp_concurrency.Seq.Machine.{
  Callback, pipes, nests, joins, forwards, finishes, Value, datum, future, Task, sets, sets_future,
  passes_on, Instr, build, produce, consume, call, submits, run, Contract, fresh, goes_on, submit,
  set_timer, on_pipe, invoke, run_task,
}
use cpp_concurrency.Seq.Rights.{task_promises, promises, futures, ends}
use cpp_concurrency.Seq.Goals.{Goal, leaf, nest, Gives, Gives-append, Fits, FitsTask, FitsStore}
use cpp_concurrency.Seq.Cost.{cost_pipe, task_cost, instr_cost}
use cpp_concurrency.Seq.Store.{append-Gives}
use cpp_concurrency.Seq.Effects.{Sound, Executes, keeps, news}

module _ (inline : View) (at_once : View → Bool) (answer : Data) (gs : List Goal)
    (cs : List Contract) (fit : FitsStore answer gs cs) (i : Instr) where
  -- A task is submitted, for all that is left of an instruction.
  submit-Sound :
      (rt : View) (t : Task)
      → FitsTask gs t
      → ((c : ℕ) → task_promises c t ≡ promises c i)
      → ((c : ℕ) → 0 ≡ futures c i)
      → 0 ≡ ends i
      → 1 + task_cost t ≡ instr_cost gs i
      → Sound answer gs cs i (submit inline at_once cs rt t)
  submit-Sound rt t h promised held ended costs = elim (Bool-cases (at_once rt)) [
    | inl e ↦ rw e (
        keeps answer gs cs fit i (goes_on cs (run t ∷ [])) refl (h, tt) tt tt
          (λ c. omega (arith, promised c)) (λ c. omega (arith, held c)) ended
          (omega (arith, costs)))
    | inr e ↦ rw e (
        keeps answer gs cs fit i
          (record { contracts = cs; code = []; submitted = (run t ∷ []) ∷ []; outputs = [] }) refl
          tt ((h, tt), tt) tt (λ c. omega (arith, promised c)) (λ c. omega (arith, held c)) ended
          (omega (arith, costs)))
  ]

  set_timer-Sound :
      (rt : View) (delay : ℕ) (t : Task)
      → FitsTask gs t
      → ((c : ℕ) → task_promises c t ≡ promises c i)
      → ((c : ℕ) → 0 ≡ futures c i)
      → 0 ≡ ends i
      → 1 + task_cost t ≡ instr_cost gs i
      → Sound answer gs cs i (set_timer inline at_once cs rt delay t)
  set_timer-Sound rt delay t h promised held ended costs =
      keeps answer gs cs fit i
        (record { contracts = cs; code = []; submitted = (run t ∷ []) ∷ []; outputs = [] }) refl tt
        ((h, tt), tt) tt (λ c. omega (arith, promised c)) (λ c. omega (arith, held c)) ended
        (omega (arith, costs))

  -- A value is passed on at once.
  pass-Sound :
      (p : ℕ) (d : Data)
      → Gives gs p (leaf d)
      → ((c : ℕ) → bit (p == c) ≡ promises c i)
      → ((c : ℕ) → 0 ≡ futures c i)
      → 0 ≡ ends i
      → 2 ≡ instr_cost gs i
      → Sound answer gs cs i (goes_on cs (produce p (datum d) ∷ []))
  pass-Sound p d h promised held ended costs =
      keeps answer gs cs fit i (goes_on cs (produce p (datum d) ∷ [])) refl (h, tt) tt tt
        (λ c. omega (arith, promised c)) (λ c. omega (arith, held c)) ended (omega (arith, costs))

module _ (inline : View) (at_once : View → Bool) (answer : Data) (gs : List Goal)
    (cs : List Contract) (fit : FitsStore answer gs cs) where
  on_pipe-Sound :
      (rt : View) (pipe : Pipe) (p : ℕ) (d : Data)
      → Gives gs p (leaf (denote_pipe pipe d))
      → Sound answer gs cs
          (call (pipes rt pipe p) (datum d))
          (on_pipe inline at_once pipe cs rt p d)
  unfolding denote_pipe cost_pipe transform and_then or_else
  on_pipe-Sound rt (Seq.map user) p d h =
      submit-Sound inline at_once answer gs cs fit _ rt (sets p (user d)) h (λ c. refl) (λ c. refl)
        refl refl
  on_pipe-Sound rt (Seq.after delay) p d h =
      set_timer-Sound inline at_once answer gs cs fit _ rt delay (sets p d) h (λ c. refl)
        (λ c. refl) refl refl
  on_pipe-Sound rt (Seq.map_ok user) p (ok v) h =
      submit-Sound inline at_once answer gs cs fit _ rt (sets p (ok (user v))) h (λ c. refl)
        (λ c. refl) refl refl
  on_pipe-Sound rt (Seq.map_ok user) p (err e) h =
      pass-Sound inline at_once answer gs cs fit _ p (err e) h (λ c. refl) (λ c. refl) refl refl
  on_pipe-Sound rt (Seq.and_then user) p (ok v) h =
      submit-Sound inline at_once answer gs cs fit _ rt (passes_on p user v) h (λ c. refl)
        (λ c. refl) refl refl
  on_pipe-Sound rt (Seq.and_then user) p (err e) h =
      pass-Sound inline at_once answer gs cs fit _ p (err e) h (λ c. refl) (λ c. refl) refl refl
  on_pipe-Sound rt (Seq.or_else user) p (ok v) h =
      pass-Sound inline at_once answer gs cs fit _ p (ok v) h (λ c. refl) (λ c. refl) refl refl
  on_pipe-Sound rt (Seq.or_else user) p (err e) h =
      submit-Sound inline at_once answer gs cs fit _ rt (passes_on p user e) h (λ c. refl)
        (λ c. refl) refl refl

  pub submits-Sound :
      (rt : View) (t : Task)
      → FitsTask gs t
      → Sound answer gs cs (submits rt t) (submit inline at_once cs rt t)
  submits-Sound rt t h =
      submit-Sound inline at_once answer gs cs fit (submits rt t) rt t h (λ c. refl) (λ c. refl)
        refl refl

  same_datum : {d d' : Data} (c : ℕ) → Gives gs c (leaf d) → Gives gs c (leaf d') → d ≡ d'
  same_datum c h h' = cc

  pub invoke-Executes :
      (cb : Callback) (v : Value)
      → Fits answer gs (call cb v)
      → Executes answer gs cs (call cb v) (invoke inline at_once cs cb v)
  unfolding invoke
  invoke-Executes (pipes rt pipe p) (datum d) h = record {
    effect = on_pipe inline at_once pipe cs rt p d;
    done = refl;
    sound =
        let t = h.1 in
        let same : t.0 ≡ d = cc in
        on_pipe-Sound rt pipe p d
          (subst (λ (x : Data). Gives gs p (leaf (denote_pipe pipe x))) same t.2);
  }
  invoke-Executes (nests rt user p) (datum d) h = record {
    effect = submit inline at_once cs rt (sets_future p user d);
    done = refl;
    sound =
        let t = h.1 in
        let same : t.0 ≡ d = cc in
        submit-Sound inline at_once answer gs cs fit _ rt (sets_future p user d)
          (subst (λ (x : Data). Gives gs p (nest (denote (user x)))) same t.2) (λ c. refl)
          (λ c. refl) refl (omega arith);
  }
  invoke-Executes (joins p) (datum d) h = absurd (cc)
  invoke-Executes (joins p) (future c) h = record {
    effect = goes_on cs (consume c (forwards p) ∷ []);
    done = refl;
    sound =
        let t = h.1 in
        let u = h.2 in
        let same : t.0 ≡ u.0 = cc in
        keeps answer gs cs fit (call (joins p) (future c))
          (goes_on cs (consume c (forwards p) ∷ [])) refl
          (
            (u.0, u.2, subst (λ (x : Data). Gives gs p (leaf x)) same t.2, omega (arith, t.3, u.3)),
            tt,
          )
          tt tt (λ b. omega arith) (λ b. omega arith) refl (omega arith);
  }
  invoke-Executes (forwards p) (datum d) h = record {
    effect = goes_on cs (produce p (datum d) ∷ []);
    done = refl;
    sound =
        let t = h.1 in
        let same : t.0 ≡ d = cc in
        pass-Sound inline at_once answer gs cs fit _ p d
          (subst (λ (x : Data). Gives gs p (leaf x)) same t.2) (λ c. refl) (λ c. refl) refl refl;
  }
  invoke-Executes finishes (datum d) h = record {
    effect = record { contracts = cs; code = []; submitted = []; outputs = d ∷ [] };
    done = refl;
    sound =
        let same : d ≡ answer = cc in
        keeps answer gs cs fit (call finishes (datum d))
          (record { contracts = cs; code = []; submitted = []; outputs = d ∷ [] }) refl tt tt
          (same, tt) (λ b. refl) (λ b. refl) refl refl;
  }
  invoke-Executes (pipes rt pipe p) (future c) h = absurd (cc)
  invoke-Executes (nests rt user p) (future c) h = absurd (cc)
  invoke-Executes (forwards p) (future c) h = absurd (cc)
  invoke-Executes finishes (future c) h = absurd (cc)

  pub run_task-Sound :
      (t : Task) → FitsTask gs t → Sound answer gs cs (run t) (run_task inline at_once cs t)
  unfolding run_task
  run_task-Sound (sets p d) h =
      pass-Sound inline at_once answer gs cs fit (run (sets p d)) p d h (λ c. refl) (λ c. refl) refl
        refl
  run_task-Sound (sets_future p user d) h =
      let new = append-Gives answer gs cs fit (leaf (denote (user d))) in
      news answer gs cs fit (run (sets_future p user d)) (leaf (denote (user d)))
        (fresh inline at_once) (build (user d) (length cs) ∷ produce p (future (length cs)) ∷ [])
        refl
        (
          new,
          (
            (
              denote (user d),
              Gives-append gs (leaf (denote (user d)) ∷ []) p _ h,
              new,
              omega (arith, fit.as_many, get_elem?-lt gs p _ h),
            ),
            tt,
          ),
        )
        (λ b. omega arith) (λ b. omega arith) refl (omega arith)
  run_task-Sound (passes_on p user v) h =
      let new = append-Gives answer gs cs fit (leaf (denote (user v))) in
      news answer gs cs fit (run (passes_on p user v)) (leaf (denote (user v)))
        (fresh inline at_once) (build (user v) (length cs) ∷ consume (length cs) (forwards p) ∷ [])
        refl
        (
          new,
          (
            (
              denote (user v),
              new,
              Gives-append gs (leaf (denote (user v)) ∷ []) p _ h,
              omega (arith, fit.as_many, get_elem?-lt gs p _ h),
            ),
            tt,
          ),
        )
        (λ b. omega arith) (λ b. omega arith) refl (omega arith)
