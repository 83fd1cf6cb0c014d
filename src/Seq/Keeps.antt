-- ===== src/Seq/Keeps.antt =====
-- What holds along every run of a program of source/future.
use cpp_concurrency.Base.{
  ℕ, zero, suc, ◌+◌, ◌≤◌, ◌≡◌, refl, subst, Bool, List, [], ◌∷◌, ◌++◌, some, get_elem?, set, total,
  total-set, total-append, le-total, total-congr, All, All-get, All-set, All-imp, All-append, bit,
  ◌==◌, arith,
}
use cpp_concurrency.Seq.{View, Expr}
use cpp_concurrency.Seq.Meaning.{denote}
use cpp_concurrency.Seq.Machine.{Instr, Contract, Phase, Effect, empty, fresh, exec}
use cpp_concurrency.Seq.Run.{World, takes, init, Runs, start, later, after_effect}
use cpp_concurrency.Seq.Rights.{
  promises, futures, ends, phase_open, phase_offered, found, in_activities, IsBalanced,
}
use cpp_concurrency.Seq.Goals.{Goal, leaf, Gives, Fits, Fits-grow, FitsPhase, FitsStore}
use cpp_concurrency.Seq.Cost.{cost, instr_cost, store_cost}
use cpp_concurrency.Seq.Effects.{Sound, Executes, in_effect}
use cpp_concurrency.Seq.Meeting.{exec-Executes}

-- After `n` steps: everything fits the goals, there are as many promises, futures and ends as there must be,
-- and the steps left are known.
pub record IsSound (e : Expr) (n : ℕ) (w : World) : Type 0 where
  pub goals : List Goal
  pub rooted : Gives goals 0 (leaf (denote e))
  pub fits : All (λ l. All (Fits (denote e) goals) l) w.activities
  pub store : FitsStore (denote e) goals w.contracts
  pub balanced : IsBalanced w
  pub outputs : All (λ d. d ≡ denote e) w.outputs
  pub costs :
      n + (in_activities (instr_cost goals) w.activities + store_cost goals w.contracts)
      ≡ cost e + 2

-- How a sum over the activities changes when one executes an instruction.
in_activities-after :
    (f : Instr → ℕ) (acts : List (List Instr)) (i : ℕ) (instr : Instr) (rest : List Instr)
    (e : Effect)
    → get_elem? acts i ≡ some (instr ∷ rest)
    → in_activities f (set acts i (e.code ++ rest) ++ e.submitted) + f instr
      ≡ in_activities f acts + in_effect f e
in_activities-after f acts i instr rest e at = omega (
  arith,
  total-append (total f) (set acts i (e.code ++ rest)) e.submitted,
  total-set (total f) acts i (instr ∷ rest) (e.code ++ rest) at,
  total-append f e.code rest,
)

-- What an activity does next has a share in the sum.
instr-le :
    (f : Instr → ℕ) (acts : List (List Instr)) (i : ℕ) (instr : Instr) (rest : List Instr)
    → get_elem? acts i ≡ some (instr ∷ rest)
    → f instr ≤ in_activities f acts
instr-le f acts i instr rest at = omega (arith, le-total (total f) acts i (instr ∷ rest) at)

module _ (inline : View) (at_once : View → Bool) (e : Expr) where
  -- The next instruction of every activity can be executed.
  pub IsSound-Executes :
      (n : ℕ) (w : World) (s : IsSound e n w) (i : ℕ) (instr : Instr) (rest : List Instr)
      → get_elem? w.activities i ≡ some (instr ∷ rest)
      → Executes (denote e) s.goals w.contracts instr (exec inline at_once w.contracts instr)
  IsSound-Executes n w s i instr rest at =
      exec-Executes inline at_once (denote e) s.goals w.contracts s.store instr
        (All-get _ w.activities i (instr ∷ rest) at s.fits).0
        (λ c some_promise.
          omega (arith, s.balanced.promised c, instr-le (promises c) w.activities i instr rest at))
        (λ c some_future.
          omega (arith, s.balanced.held c, instr-le (futures c) w.activities i instr rest at))

  -- A sound effect keeps all this.
  after_effect-IsSound :
      (n : ℕ) (w : World) (s : IsSound e n w) (i : ℕ) (instr : Instr) (rest : List Instr)
      (f : Effect)
      → get_elem? w.activities i ≡ some (instr ∷ rest)
      → Sound (denote e) s.goals w.contracts instr f
      → IsSound e (suc n) (after_effect w i rest f)
  after_effect-IsSound n w s i instr rest f at x =
      let grown = λ (l : List Instr) (h : All (Fits (denote e) s.goals) l).
        All-imp (Fits (denote e) s.goals) (Fits (denote e) x.goals) l
          (Fits-grow (denote e) s.goals x.goals x.grows) h in
      let mine = All-get _ w.activities i (instr ∷ rest) at s.fits in
      let moved = λ (g : Instr → ℕ). in_activities-after g w.activities i instr rest f at in
      let dear =
        total-congr (total (instr_cost x.goals)) (total (instr_cost s.goals)) w.activities (
          All-imp (λ l. All (Fits (denote e) s.goals) l) _ w.activities
            (λ l h.
              total-congr (instr_cost x.goals) (instr_cost s.goals) l
                (All-imp (Fits (denote e) s.goals) _ l x.same_costs h))
            s.fits) in
      record {
        goals = x.goals;
        rooted = x.grows 0 (leaf (denote e)) s.rooted;
        fits =
            All-append _ (set w.activities i (f.code ++ rest)) f.submitted
              (All-set _ w.activities i (f.code ++ rest)
                (All-append _ f.code rest x.code (grown rest mine.1))
                (All-imp _ _ w.activities grown s.fits))
              x.submitted;
        store = x.store;
        balanced = record {
          promised = λ c. omega (arith, s.balanced.promised c, x.promised c, moved (promises c));
          held = λ c. omega (arith, s.balanced.held c, x.held c, moved (futures c));
          ended = omega (
            arith,
            s.balanced.ended,
            x.ended,
            moved ends,
            total-append (λ _. 1) w.outputs f.outputs,
          );
        };
        outputs = All-append _ w.outputs f.outputs s.outputs x.outputs;
        costs =
            let mine_cost = x.same_costs instr mine.0 in
            omega (arith, s.costs, x.costs, moved (instr_cost x.goals), dear, mine_cost);
      }

  -- The contract at the start.
  found-fresh :
      (f : Phase → ℕ) (c : ℕ)
      → f empty ≡ 1
      → found f (get_elem? (fresh inline at_once ∷ []) c) ≡ bit (0 == c)
  found-fresh f zero one = one
  found-fresh f (suc c) one = ground arith

  fresh-FitsPhase :
      (c : ℕ) (k : Contract)
      → get_elem? (fresh inline at_once ∷ []) c ≡ some k
      → FitsPhase (denote e) (leaf (denote e) ∷ []) c k.phase
  fresh-FitsPhase zero k h =
      let same : fresh inline at_once ≡ k = cc in
      subst (λ (l : Contract). FitsPhase (denote e) (leaf (denote e) ∷ []) 0 l.phase) same tt
  fresh-FitsPhase (suc c) k h = cc

  start-IsSound : IsSound e 0 (init inline at_once e)
  start-IsSound = record {
    goals = leaf (denote e) ∷ [];
    rooted = refl;
    fits = ((refl, (refl, tt)), tt);
    store = record { as_many = refl; phases = fresh-FitsPhase };
    balanced = record {
      promised = λ c. omega (arith, found-fresh phase_open c refl);
      held = λ c. omega (arith, found-fresh phase_offered c refl);
      ended = refl;
    };
    outputs = tt;
    costs = omega arith;
  }

  pub Runs-IsSound : {n : ℕ} {w : World} → Runs inline at_once e n w → IsSound e n w
  Runs-IsSound start = start-IsSound
  Runs-IsSound (later {n} {w} r (takes i instr rest f at done)) =
      let s = Runs-IsSound r in
      let x = IsSound-Executes n w s i instr rest at in
      let same : x.effect ≡ f = cc (x.done) in
      after_effect-IsSound n w s i instr rest f at
        (subst (λ (g : Effect). Sound (denote e) s.goals w.contracts instr g) same x.sound)
