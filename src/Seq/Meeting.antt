-- ===== src/Seq/Meeting.antt =====
-- Contracts of source/future get their runtimes, values and callbacks.
use cpp_concurrency.Base.{
  ℕ, ◌+◌, ◌<◌, ◌≡◌, refl, sym, ap, ◌∙◌, subst, Bool, List, [], ◌∷◌, Option, some, get_elem?, set,
  bit, ◌==◌, arith,
}
use cpp_concurrency.Seq.{Data, View, Expr, Pipe}
use cpp_concurrency.Seq as Seq
use cpp_concurrency.Seq.Machine.{
  Callback, pipes, nests, joins, Value, Instr, attach, attach_nest, attach_join, set_runtime,
  produce, consume, call, Phase, empty, produced, waiting, finished, Contract, Effect, goes_on,
  with_runtime, with_phase, produce_in, consume_in, at_contract, pipe_into, pipe_of, submit, exec,
  make, make_nested, run_task,
}
use cpp_concurrency.Seq.Rights.{
  promises, futures, ends, callback_promises, callback_ends, phase_open, phase_offered, found,
}
use cpp_concurrency.Seq.Goals.{Goal, Gives, Fits, FitsPhase, FitsStore, TakesAt, SuitsAt}
use cpp_concurrency.Seq.Cost.{callback_cost, goal_datum, instr_cost, value_datum}
use cpp_concurrency.Seq.Store.{contract_of, goal_of}
use cpp_concurrency.Seq.Effects.{Executes, changes}
use cpp_concurrency.Seq.Building.{make-Sound, make_nested-Sound}
use cpp_concurrency.Seq.Calling.{submits-Sound, invoke-Executes, run_task-Sound}

-- The goal of a contract that a value suits.
suited : (gs : List Goal) (c : ℕ) (v : Value) → SuitsAt gs c v → (g : Goal) × Gives gs c g
suited gs c (Value.datum d) h = (Goal.leaf d, h)
suited gs c (Value.future k) h = (Goal.nest h.0, h.1)

-- The cost of a callback does not depend on whether the value or the goal is asked.
meet_cost :
    (answer : Data) (gs : List Goal) (c : ℕ) (cb : Callback) (v : Value) (g : Goal)
    → TakesAt answer gs c cb
    → SuitsAt gs c v
    → Gives gs c g
    → callback_cost cb (value_datum v) ≡ callback_cost cb (goal_datum (some g))
meet_cost answer gs c cb (Value.datum d) g t u h =
    let same : g ≡ Goal.leaf d = cc in
    ap (λ (x : Goal). callback_cost cb (goal_datum (some x))) (sym same)
meet_cost answer gs c (joins p) (Value.future k) g t u h = refl
meet_cost answer gs c (pipes rt pipe p) (Value.future k) g t u h = absurd (cc)
meet_cost answer gs c (nests rt user p) (Value.future k) g t u h = absurd (cc)
meet_cost answer gs c (Callback.forwards p) (Value.future k) g t u h = absurd (cc)
meet_cost answer gs c Callback.finishes (Value.future k) g t u h = absurd (cc)

module _ (inline : View) (at_once : View → Bool) (answer : Data) (gs : List Goal)
    (cs : List Contract) (fit : FitsStore answer gs cs) where
  at-eq :
      (c : ℕ) {k : Contract} (f : Contract → Option Effect)
      → get_elem? cs c ≡ some k
      → at_contract cs c f ≡ f k
  at-eq c f e = rw (e, at_contract)

  pipe_into-Executes :
      (i : Instr) (from to : ℕ) (cb : View → Callback)
      → ((rt : View) → TakesAt answer gs from (cb rt))
      → (g : Goal) → Gives gs to g
      → ((rt : View) (b : ℕ) → callback_promises b (cb rt) ≡ promises b i)
      → ((b : ℕ) → bit (from == b) ≡ futures b i)
      → ((rt : View) → callback_ends (cb rt) ≡ ends i)
      → ((rt : View) → 3 + callback_cost (cb rt) (goal_datum (get_elem? gs from)) ≡ instr_cost gs i)
      → Executes answer gs cs i (pipe_into inline at_once cs from to cb)
  pipe_into-Executes i from to cb takes g h promised held ended costs =
      let source =
        contract_of gs cs from (goal_of answer gs from (cb 0) (takes 0)).0 fit.as_many
          (goal_of answer gs from (cb 0) (takes 0)).1 in
      let target = contract_of gs cs to g fit.as_many h in
      let k = source.0 in
      let l = target.0 in
      record {
        effect = goes_on (set cs to (with_runtime l k.runtime)) (consume from (cb k.runtime) ∷ []);
        done = at-eq _ _ source.1 ∙ at-eq _ _ target.1;
        sound =
            changes answer gs cs fit i to g l (with_runtime l k.runtime)
              (consume from (cb k.runtime) ∷ []) h target.1 (fit.phases to l target.1)
              (takes k.runtime, tt) (λ b. omega (arith, promised k.runtime b))
              (λ b. omega (arith, held b)) (omega (arith, ended k.runtime))
              (omega (arith, costs k.runtime));
      }

  -- The combinators differ in their callbacks only.
  pipe_of-eq :
      (pipe : Pipe) (from to : ℕ)
      → pipe_of inline at_once pipe cs from to
        ≡ pipe_into inline at_once cs from to (λ rt. pipes rt pipe to)
  pipe_of-eq (Seq.map user) from to = refl
  pipe_of-eq (Seq.after delay) from to = refl
  pipe_of-eq (Seq.map_ok user) from to = refl
  pipe_of-eq (Seq.and_then user) from to = refl
  pipe_of-eq (Seq.or_else user) from to = refl

  produce-Executes :
      (c : ℕ) (v : Value)
      → SuitsAt gs c v
      → (0 < found phase_open (get_elem? cs c))
      → Executes answer gs cs (produce c v) (at_contract cs c (λ k. produce_in cs c v k k.phase))
  produce-Executes c v h room =
      let goal = suited gs c v h in
      let mine = contract_of gs cs c goal.0 fit.as_many goal.1 in
      produces c v mine.0 goal.0 mine.0.phase h goal.1 mine.1 refl
        (subst (λ (o : Option Contract). 0 < found phase_open o) mine.1 room)
    where
      produces :
          (c : ℕ) (v : Value) (k : Contract) (g : Goal) (p : Phase)
          → SuitsAt gs c v
          → Gives gs c g
          → get_elem? cs c ≡ some k
          → k.phase ≡ p
          → 0 < phase_open k.phase
          → Executes answer gs cs
              (produce c v)
              (at_contract cs c (λ k. produce_in cs c v k k.phase))
      produces c v k g empty h give at e room = record {
        effect = goes_on (set cs c (with_phase k (produced v))) [];
        done = at-eq _ _ at ∙ ap (produce_in cs c v k) e;
        sound =
            changes answer gs cs fit (produce c v) c g k (with_phase k (produced v)) [] give at h tt
              (λ b. ground (arith, e)) (λ b. ground (arith, e)) (ground (arith, e))
              (ground (arith, e));
      }
      produces c v k g (waiting cb) h give at e room = record {
        effect = goes_on (set cs c (with_phase k finished)) (call cb v ∷ []);
        done = at-eq _ _ at ∙ ap (produce_in cs c v k) e;
        sound =
            let takes : TakesAt answer gs c cb =
              subst (FitsPhase answer gs c) e (fit.phases c k at) in
            changes answer gs cs fit (produce c v) c g k (with_phase k finished) (call cb v ∷ [])
              give at tt ((c, takes, h), tt) (λ b. ground (arith, e)) (λ b. ground (arith, e))
              (ground (arith, e)) (ground (arith, e, meet_cost answer gs c cb v g takes h give));
      }
      produces c v k g (produced u) h give at e room = absurd (ground (arith, e))
      produces c v k g finished h give at e room = absurd (ground (arith, e))

  consume-Executes :
      (c : ℕ) (cb : Callback)
      → TakesAt answer gs c cb
      → (0 < found phase_offered (get_elem? cs c))
      → Executes answer gs cs (consume c cb) (at_contract cs c (λ k. consume_in cs c cb k k.phase))
  consume-Executes c cb h room =
      let goal = goal_of answer gs c cb h in
      let mine = contract_of gs cs c goal.0 fit.as_many goal.1 in
      consumes c cb mine.0 goal.0 mine.0.phase h goal.1 mine.1 refl
        (subst (λ (o : Option Contract). 0 < found phase_offered o) mine.1 room)
    where
      consumes :
          (c : ℕ) (cb : Callback) (k : Contract) (g : Goal) (p : Phase)
          → TakesAt answer gs c cb
          → Gives gs c g
          → get_elem? cs c ≡ some k
          → k.phase ≡ p
          → 0 < phase_offered k.phase
          → Executes answer gs cs
              (consume c cb)
              (at_contract cs c (λ k. consume_in cs c cb k k.phase))
      consumes c cb k g empty h give at e room = record {
        effect = goes_on (set cs c (with_phase k (waiting cb))) [];
        done = at-eq _ _ at ∙ ap (consume_in cs c cb k) e;
        sound =
            changes answer gs cs fit (consume c cb) c g k (with_phase k (waiting cb)) [] give at h
              tt (λ b. ground (arith, e)) (λ b. ground (arith, e)) (ground (arith, e))
              (ground (arith, e, give));
      }
      consumes c cb k g (produced v) h give at e room = record {
        effect = goes_on (set cs c (with_phase k finished)) (call cb v ∷ []);
        done = at-eq _ _ at ∙ ap (consume_in cs c cb k) e;
        sound =
            let suits : SuitsAt gs c v = subst (FitsPhase answer gs c) e (fit.phases c k at) in
            changes answer gs cs fit (consume c cb) c g k (with_phase k finished) (call cb v ∷ [])
              give at tt ((c, h, suits), tt) (λ b. ground (arith, e)) (λ b. ground (arith, e))
              (ground (arith, e))
              (ground (arith, e, give, meet_cost answer gs c cb v g h suits give));
      }
      consumes c cb k g (waiting u) h give at e room = absurd (ground (arith, e))
      consumes c cb k g finished h give at e room = absurd (ground (arith, e))

  -- Every instruction that fits can be executed, where its contract has room.
  pub exec-Executes :
      (i : Instr)
      → Fits answer gs i
      → ((c : ℕ) → 0 < promises c i → 0 < found phase_open (get_elem? cs c))
      → ((c : ℕ) → 0 < futures c i → 0 < found phase_offered (get_elem? cs c))
      → Executes answer gs cs i (exec inline at_once cs i)
  unfolding exec
  exec-Executes (Instr.build e c) h room offered = record {
    effect = make inline at_once cs c e;
    done = refl;
    sound = make-Sound inline at_once answer gs cs fit e c h;
  }
  exec-Executes (Instr.build_nested n c) h room offered = record {
    effect = make_nested inline at_once cs c n;
    done = refl;
    sound = make_nested-Sound inline at_once answer gs cs fit n c h;
  }
  exec-Executes (attach from pipe to) h room offered =
      subst (Executes answer gs cs (attach from pipe to)) (sym (pipe_of-eq pipe from to)) (
        pipe_into-Executes (attach from pipe to) from to (λ rt. pipes rt pipe to) (λ rt. h) _ h.2
          (λ rt b. refl) (λ b. refl) (λ rt. refl) (λ rt. refl))
  exec-Executes (attach_nest from user to) h room offered =
      pipe_into-Executes (attach_nest from user to) from to (λ rt. nests rt user to) (λ rt. h) _ h.2
        (λ rt b. refl) (λ b. refl) (λ rt. refl) (λ rt. omega arith)
  exec-Executes (attach_join from to) h room offered =
      pipe_into-Executes (attach_join from to) from to (λ rt. joins to) (λ rt. h) _ h.2
        (λ rt b. refl) (λ b. refl) (λ rt. refl) (λ rt. refl)
  exec-Executes (set_runtime c rt) h room offered =
      let mine = contract_of gs cs c h.0 fit.as_many h.1 in
      record {
        effect = goes_on (set cs c (with_runtime mine.0 rt)) [];
        done = at-eq _ _ mine.1;
        sound =
            changes answer gs cs fit (set_runtime c rt) c h.0 mine.0 (with_runtime mine.0 rt) [] h.1
              mine.1 (fit.phases c mine.0 mine.1) tt (λ b. omega arith) (λ b. omega arith)
              (omega arith) (omega arith);
      }
  exec-Executes (produce c v) h room offered = produce-Executes c v h (room c (ground arith))
  exec-Executes (consume c cb) h room offered = consume-Executes c cb h (offered c (ground arith))
  exec-Executes (call cb v) h room offered = invoke-Executes inline at_once answer gs cs fit cb v h
  exec-Executes (Instr.submits rt t) h room offered = record {
    effect = submit inline at_once cs rt t;
    done = refl;
    sound = submits-Sound inline at_once answer gs cs fit rt t h;
  }
  exec-Executes (Instr.run t) h room offered = record {
    effect = run_task inline at_once cs t;
    done = refl;
    sound = run_task-Sound inline at_once answer gs cs fit t h;
  }
