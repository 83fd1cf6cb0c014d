-- ===== src/Seq/Store.antt =====
-- How the contracts of a program of source/future change: one at a time, or by a new one.
use cpp_concurrency.Base.{
  ℕ, zero, suc, ◌+◌, ◌≡◌, refl, sym, ap, ◌∙◌, subst, inl, inr, List, [], ◌∷◌, ◌++◌, length, Option,
  some, get_elem?, set, length-set, length-append, get_elem?-set, get_elem?-append_cases,
  get_elem?-append_length, ==-cases, ◌==◌, bit, if◌then◌else◌, arith,
}
use cpp_concurrency.Seq.{Data}
use cpp_concurrency.Seq.Machine.{
  Callback, pipes, nests, joins, forwards, finishes, Instr, build, build_nested, attach,
  attach_nest, attach_join, set_runtime, produce, consume, call, submits, run, Phase, empty,
  Contract,
}
use cpp_concurrency.Seq.Rights.{found}
use cpp_concurrency.Seq.Goals.{
  Goal, leaf, nest, Gives, Gives-append, Grows, TakesAt, Fits, FitsPhase, FitsPhase-grow, FitsStore,
}
use cpp_concurrency.Seq.Cost.{
  phase_cost, store_cost, cost, cost_pipe, callback_cost, goal_datum, instr_cost,
}

pub found-set :
    (f : Phase → ℕ) (cs : List Contract) (c : ℕ) (k k' : Contract) (b : ℕ)
    → get_elem? cs c ≡ some k
    → found f (get_elem? (set cs c k') b)
      ≡ (if b == c then f k'.phase else found f (get_elem? cs b))
found-set f [] c k k' b e = cc
found-set f (x ∷ cs) zero k k' zero e = refl
found-set f (x ∷ cs) zero k k' (suc b) e = ground arith
found-set f (x ∷ cs) (suc c) k k' zero e = ground arith
found-set f (x ∷ cs) (suc c) k k' (suc b) e = ground (arith, found-set f cs c k k' b e)

-- The same, as a sum.
pub found-set_sum :
    (f : Phase → ℕ) (cs : List Contract) (c : ℕ) (k k' : Contract) (b : ℕ)
    → get_elem? cs c ≡ some k
    → found f (get_elem? (set cs c k') b) + (if b == c then f k.phase else 0)
      ≡ found f (get_elem? cs b) + (if b == c then f k'.phase else 0)
found-set_sum f cs c k k' b e = elim (==-cases b c) [
  | inl m ↦
      let old : found f (get_elem? cs b) ≡ f k.phase =
        ap (λ n. found f (get_elem? cs n)) m.0 ∙ ap (found f) e in
      ground (arith, m.1, old, found-set f cs c k k' b e)
  | inr m ↦ ground (arith, m.1, found-set f cs c k k' b e)
]

pub found-append_sum :
    (f : Phase → ℕ) (cs : List Contract) (k : Contract) (b : ℕ)
    → f k.phase ≡ 1
    → found f (get_elem? (cs ++ k ∷ []) b) ≡ found f (get_elem? cs b) + bit (length cs == b)
found-append_sum f [] k zero e = ground arith
found-append_sum f [] k (suc b) e = ground arith
found-append_sum f (x ∷ cs) k zero e = ground arith
found-append_sum f (x ∷ cs) k (suc b) e = ground (arith, found-append_sum f cs k b e)

pub store_cost-set :
    (gs : List Goal) (cs : List Contract) (c : ℕ) (g : Goal) (k k' : Contract)
    → Gives gs c g
    → get_elem? cs c ≡ some k
    → store_cost gs (set cs c k') + phase_cost (some g) k.phase
      ≡ store_cost gs cs + phase_cost (some g) k'.phase
store_cost-set [] cs c g k k' h e = cc
store_cost-set (x ∷ gs) [] c g k k' h e = cc
store_cost-set (x ∷ gs) (y ∷ cs) zero g k k' h e =
    let same : x ≡ g = cc in let also : y ≡ k = cc in rw (same, also) (omega arith)
store_cost-set (x ∷ gs) (y ∷ cs) (suc c) g k k' h e =
    omega (arith, store_cost-set gs cs c g k k' h e)

pub store_cost-append :
    (gs : List Goal) (cs : List Contract) (g : Goal) (k : Contract)
    → length cs ≡ length gs
    → store_cost (gs ++ g ∷ []) (cs ++ k ∷ []) ≡ store_cost gs cs + phase_cost (some g) k.phase
store_cost-append [] [] g k h = omega arith
store_cost-append [] (y ∷ cs) g k h = absurd (omega arith)
store_cost-append (x ∷ gs) [] g k h = absurd (omega arith)
store_cost-append (x ∷ gs) (y ∷ cs) g k h = omega (arith, store_cost-append gs cs g k (omega arith))

module _ (answer : Data) (gs : List Goal) (cs : List Contract) (fit : FitsStore answer gs cs) where
  pub set-FitsStore :
      (c : ℕ) (k : Contract) → FitsPhase answer gs c k.phase → FitsStore answer gs (set cs c k)
  set-FitsStore c k h = record {
    as_many = length-set cs c k ∙ fit.as_many;
    phases = λ b l e. elim (get_elem?-set cs c k b l e) [
      | inl m ↦ rw (m.0, m.1) h
      | inr m ↦ fit.phases b l m.1
    ];
  }

  pub append-FitsStore :
      (g : Goal) (k : Contract) → k.phase ≡ empty → FitsStore answer (gs ++ g ∷ []) (cs ++ k ∷ [])
  append-FitsStore g k new = record {
    as_many = omega (arith, length-append cs (k ∷ []), length-append gs (g ∷ []), fit.as_many);
    phases = λ b l e. elim (get_elem?-append_cases cs k b l e) [
      | inl m ↦
          subst (λ (x : Phase). FitsPhase answer (gs ++ g ∷ []) b x)
            (sym (ap (λ (x : Contract). x.phase) m.1 ∙ new)) tt
      | inr m ↦
          FitsPhase-grow answer gs (gs ++ g ∷ []) (Gives-append gs (g ∷ [])) b l.phase
            (fit.phases b l m)
    ];
  }

  -- The goal of the new contract.
  pub append-Gives : (g : Goal) → Gives (gs ++ g ∷ []) (length cs) g
  append-Gives g =
      subst (λ n. Gives (gs ++ g ∷ []) n g) (sym fit.as_many) (get_elem?-append_length gs g)

-- A callback waits at a contract that has a goal.
pub goal_of :
    (answer : Data) (gs : List Goal) (c : ℕ) (cb : Callback)
    → TakesAt answer gs c cb
    → (g : Goal) × Gives gs c g
goal_of answer gs c (pipes rt pipe p) h = (leaf h.0, h.1)
goal_of answer gs c (nests rt user p) h = (leaf h.0, h.1)
goal_of answer gs c (joins p) h = (nest h.0, h.1)
goal_of answer gs c (forwards p) h = (leaf h.0, h.1)
goal_of answer gs c finishes h = (leaf answer, h)

-- The cost of an instruction is known as soon as its contracts are.
pub instr_cost-grow :
    (answer : Data) (gs gs' : List Goal)
    → Grows gs gs'
    → (j : Instr) → Fits answer gs j
    → instr_cost gs' j ≡ instr_cost gs j
instr_cost-grow answer gs gs' grow (build e c) h = refl
instr_cost-grow answer gs gs' grow (build_nested n c) h = refl
instr_cost-grow answer gs gs' grow (attach from pipe to) h =
    ap (λ (g : Option Goal). 3 + cost_pipe pipe (goal_datum g)) (grow _ _ h.1 ∙ sym h.1)
instr_cost-grow answer gs gs' grow (attach_nest from user to) h =
    ap (λ (g : Option Goal). 5 + cost (user (goal_datum g))) (grow _ _ h.1 ∙ sym h.1)
instr_cost-grow answer gs gs' grow (attach_join from to) h = refl
instr_cost-grow answer gs gs' grow (set_runtime c rt) h = refl
instr_cost-grow answer gs gs' grow (produce c v) h = refl
instr_cost-grow answer gs gs' grow (consume c cb) h =
    let same = goal_of answer gs c cb h in
    ap (λ (g : Option Goal). 2 + callback_cost cb (goal_datum g)) (grow _ _ same.1 ∙ sym same.1)
instr_cost-grow answer gs gs' grow (call cb v) h = refl
instr_cost-grow answer gs gs' grow (submits rt t) h = refl
instr_cost-grow answer gs gs' grow (run t) h = refl

-- A goal has its contract.
pub contract_of :
    (gs : List Goal) (cs : List Contract) (c : ℕ) (g : Goal)
    → length cs ≡ length gs
    → Gives gs c g
    → (k : Contract) × (get_elem? cs c ≡ some k)
contract_of [] cs c g e h = cc
contract_of (x ∷ gs) [] c g e h = absurd (omega arith)
contract_of (x ∷ gs) (k ∷ cs) zero g e h = (k, refl)
contract_of (x ∷ gs) (k ∷ cs) (suc c) g e h = contract_of gs cs c g (omega arith) h
