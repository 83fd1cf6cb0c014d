-- ===== src/Seq/Effects.antt =====
-- What an instruction of a program of source/future must leave behind: instructions and contracts that fit,
-- as many promises and futures as contracts need, and one instruction less to execute. Three kinds of
-- effects: those that leave the contracts alone, that change one, and that make one.
use cpp_concurrency.Base.{
  ℕ, ◌+◌, ◌≡◌, refl, ap, List, [], ◌∷◌, ◌++◌, length, Option, some, get_elem?, set, total,
  total-set, total-append, All, bit, ◌==◌, if◌then◌else◌, arith,
}
use cpp_concurrency.Seq.{Data}
use cpp_concurrency.Seq.Machine.{Instr, Phase, empty, Contract, Effect, goes_on}
use cpp_concurrency.Seq.Rights.{
  promises, stored_promises, futures, stored_futures, ends, stored_ends, phase_open, phase_offered,
  found, held_promises, held_futures, held_ends, in_activities,
}
use cpp_concurrency.Seq.Goals.{Goal, Gives, Gives-append, Grows, Fits, FitsPhase, FitsStore}
use cpp_concurrency.Seq.Cost.{instr_cost, phase_cost, store_cost}
use cpp_concurrency.Seq.Store.{
  found-set_sum, found-append_sum, instr_cost-grow, store_cost-set, store_cost-append,
  set-FitsStore, append-FitsStore,
}

-- Of the code of an effect, with the tasks that it submits.
abbrev pub in_effect : (Instr → ℕ) → Effect → ℕ
in_effect f e = total f e.code + in_activities f e.submitted

pub record Sound (answer : Data) (gs : List Goal) (cs : List Contract) (i : Instr) (e : Effect)
    : Type 0 where
  pub goals : List Goal
  pub grows : Grows gs goals
  pub same_costs : (j : Instr) → Fits answer gs j → instr_cost goals j ≡ instr_cost gs j
  pub code : All (Fits answer goals) e.code
  pub submitted : All (λ l. All (Fits answer goals) l) e.submitted
  pub outputs : All (λ d. d ≡ answer) e.outputs
  pub store : FitsStore answer goals e.contracts
  pub promised :
      (c : ℕ)
      → in_effect (promises c) e
          + (total (stored_promises c) e.contracts + found phase_open (get_elem? cs c))
        ≡ promises c i + (total (stored_promises c) cs + found phase_open (get_elem? e.contracts c))
  pub held :
      (c : ℕ)
      → in_effect (futures c) e
          + (total (stored_futures c) e.contracts + found phase_offered (get_elem? cs c))
        ≡ futures c i
          + (total (stored_futures c) cs + found phase_offered (get_elem? e.contracts c))
  pub ended :
      in_effect ends e + (total stored_ends e.contracts + total (λ _. 1) e.outputs)
      ≡ ends i + total stored_ends cs
  pub costs :
      1 + (in_effect (instr_cost goals) e + store_cost goals e.contracts)
      ≡ instr_cost gs i + store_cost gs cs

-- The instruction can be executed, and what it leaves behind is sound.
pub record Executes (answer : Data) (gs : List Goal) (cs : List Contract) (i : Instr)
    (r : Option Effect) : Type 0 where
  pub effect : Effect
  pub done : r ≡ some effect
  pub sound : Sound answer gs cs i effect

module _ (answer : Data) (gs : List Goal) (cs : List Contract) (fit : FitsStore answer gs cs)
    (i : Instr) where
  pub keeps :
      (e : Effect)
      → e.contracts ≡ cs
      → All (Fits answer gs) e.code
      → All (λ l. All (Fits answer gs) l) e.submitted
      → All (λ d. d ≡ answer) e.outputs
      → ((c : ℕ) → in_effect (promises c) e ≡ promises c i)
      → ((c : ℕ) → in_effect (futures c) e ≡ futures c i)
      → in_effect ends e + total (λ _. 1) e.outputs ≡ ends i
      → 1 + in_effect (instr_cost gs) e ≡ instr_cost gs i
      → Sound answer gs cs i e
  keeps e same code submitted outputs promised held ended costs = record {
    goals = gs;
    grows = λ c g h. h;
    same_costs = λ j h. refl;
    code = code;
    submitted = submitted;
    outputs = outputs;
    store = rw same fit;
    promised = λ c. rw same (omega (arith, promised c));
    held = λ c. rw same (omega (arith, held c));
    ended = rw same (omega (arith, ended));
    costs = rw same (omega (arith, costs));
  }

  pub changes :
      (c : ℕ) (g : Goal) (k k' : Contract) (code : List Instr)
      → Gives gs c g
      → get_elem? cs c ≡ some k
      → FitsPhase answer gs c k'.phase
      → All (Fits answer gs) code
      → ((b : ℕ)
          → total (promises b) code
              + (stored_promises b k' + (if b == c then phase_open k.phase else 0))
            ≡ promises b i + (stored_promises b k + (if b == c then phase_open k'.phase else 0)))
      → ((b : ℕ)
          → total (futures b) code
              + (stored_futures b k' + (if b == c then phase_offered k.phase else 0))
            ≡ futures b i + (stored_futures b k + (if b == c then phase_offered k'.phase else 0)))
      → total ends code + stored_ends k' ≡ ends i + stored_ends k
      → 1 + (total (instr_cost gs) code + phase_cost (some g) k'.phase)
        ≡ instr_cost gs i + phase_cost (some g) k.phase
      → Sound answer gs cs i (goes_on (set cs c k') code)
  changes c g k k' code h at fits fitting promised held ended costs = record {
    goals = gs;
    grows = λ b x y. y;
    same_costs = λ j y. refl;
    code = fitting;
    submitted = tt;
    outputs = tt;
    store = set-FitsStore answer gs cs fit c k' fits;
    promised = λ b. omega (
      arith,
      promised b,
      total-set (stored_promises b) cs c k k' at,
      found-set_sum phase_open cs c k k' b at,
    );
    held = λ b. omega (
      arith,
      held b,
      total-set (stored_futures b) cs c k k' at,
      found-set_sum phase_offered cs c k k' b at,
    );
    ended = omega (arith, ended, total-set stored_ends cs c k k' at);
    costs = omega (arith, costs, store_cost-set gs cs c g k k' h at);
  }

  -- The new contract has the goal `g`.
  pub news :
      (g : Goal) (k : Contract) (code : List Instr)
      → k.phase ≡ empty
      → All (Fits answer (gs ++ g ∷ [])) code
      → ((b : ℕ) → total (promises b) code ≡ promises b i + bit (length cs == b))
      → ((b : ℕ) → total (futures b) code ≡ futures b i + bit (length cs == b))
      → total ends code ≡ ends i
      → 1 + total (instr_cost (gs ++ g ∷ [])) code ≡ instr_cost gs i
      → Sound answer gs cs i (goes_on (cs ++ k ∷ []) code)
  news g k code new fitting promised held ended costs = record {
    goals = gs ++ g ∷ [];
    grows = Gives-append gs (g ∷ []);
    same_costs = λ j h. instr_cost-grow answer gs (gs ++ g ∷ []) (Gives-append gs (g ∷ [])) j h;
    code = fitting;
    submitted = tt;
    outputs = tt;
    store = append-FitsStore answer gs cs fit g k new;
    promised = λ b. omega (
      arith,
      promised b,
      total-append (stored_promises b) cs (k ∷ []),
      ap (λ (p : Phase). held_promises b p) new,
      found-append_sum phase_open cs k b (ap phase_open new),
    );
    held = λ b. omega (
      arith,
      held b,
      total-append (stored_futures b) cs (k ∷ []),
      ap (λ (p : Phase). held_futures b p) new,
      found-append_sum phase_offered cs k b (ap phase_offered new),
    );
    ended = omega (arith, ended, total-append stored_ends cs (k ∷ []), ap held_ends new);
    costs =
        omega (arith, costs, store_cost-append gs cs g k fit.as_many, ap (phase_cost (some g)) new);
  }
