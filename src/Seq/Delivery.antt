-- ===== src/Seq/Delivery.antt =====
-- What a program of source/future delivers to `Get` or `Detach`, whatever the schedulers do.
use cpp_concurrency.Base.{
  ℕ, zero, suc, ◌+◌, ◌≤◌, ◌<◌, ◌≡◌, ◌⊎◌, refl, sym, ap, ◌∙◌, inl, inr, Bool, List, [], ◌∷◌, Option,
  some, get_elem?, length, total, some_of_total, get_elem?-above, All, ltb, Bool-cases, arith,
}
use cpp_concurrency.Result.{ok, err}
use cpp_concurrency.Result.Laws.{result_laws}
use cpp_concurrency.Seq.{Data, View, Expr, ready, piped, flat_map, map_ok}
use cpp_concurrency.Seq as Seq
use cpp_concurrency.Seq.Meaning.{denote}
use cpp_concurrency.Seq.Machine.{Instr, Callback, Phase, waiting, Contract, Effect, exec}
use cpp_concurrency.Seq.Run.{World, Step, takes, Runs, after_effect}
use cpp_concurrency.Seq.Rights.{
  promises, stored_promises, ends, stored_ends, phase_open, found, in_activities, held_promises,
  held_ends,
}
use cpp_concurrency.Seq.Goals.{Goal, FitsPhase}
use cpp_concurrency.Seq.Cost.{cost, instr_cost, store_cost, phase_cost}
use cpp_concurrency.Seq.Keeps.{IsSound, IsSound-Executes, Runs-IsSound}

-- Nothing is left to do: every thread is through, and every task that was submitted has run.
abbrev pub IsComplete : World → Type 0
IsComplete w = All (λ l. l ≡ []) w.activities

nothing_left :
    (f : Instr → ℕ) (acts : List (List Instr)) → All (λ l. l ≡ []) acts → in_activities f acts ≡ 0
nothing_left f [] h = refl
nothing_left f (l ∷ acts) h = omega (arith, ap (total f) h.0, nothing_left f acts h.1)

-- A callback waits at a contract that is newer than that of its promise.
newer :
    (answer : Data) (gs : List Goal) (k : ℕ) (p : Phase) (c : ℕ)
    → FitsPhase answer gs k p
    → 0 < held_promises c p
    → (c < k) × (phase_open p ≡ 1)
newer answer gs k (waiting (Callback.pipes rt pipe p)) c h pos = (ground (arith, h.3), refl)
newer answer gs k (waiting (Callback.nests rt user p)) c h pos = (ground (arith, h.3), refl)
newer answer gs k (waiting (Callback.joins p)) c h pos = (ground (arith, h.3), refl)
newer answer gs k (waiting (Callback.forwards p)) c h pos = (ground (arith, h.3), refl)
newer answer gs k (waiting Callback.finishes) c h pos = absurd (omega arith)
newer answer gs k other c h pos = absurd (omega arith)

end_open : (p : Phase) → 0 < held_ends p → phase_open p ≡ 1
end_open (waiting cb) pos = refl
end_open other pos = absurd (omega arith)

shut_free : (g : Option Goal) (p : Phase) → phase_open p ≡ 0 → phase_cost g p ≡ 0
shut_free g (waiting cb) h = absurd (omega arith)
shut_free g other h = refl

store_free :
    (gs : List Goal) (cs : List Contract)
    → ((c : ℕ) → found phase_open (get_elem? cs c) ≡ 0)
    → store_cost gs cs ≡ 0
store_free [] cs h = refl
store_free (g ∷ gs) [] h = refl
store_free (g ∷ gs) (k ∷ cs) h =
    omega (arith, shut_free (some g) k.phase (h 0), store_free gs cs (λ c. h (suc c)))

-- Of outputs that are all the same and of which there is one.
one_output :
    (d : Data) (outputs : List Data)
    → All (λ x. x ≡ d) outputs
    → total (λ _. 1) outputs ≡ 1
    → outputs ≡ d ∷ []
one_output d [] h one = absurd (omega arith)
one_output d (x ∷ []) h one = ap (λ y. y ∷ []) h.0
one_output d (x ∷ y ∷ outputs) h one = absurd (omega arith)

at_most_one :
    (d : Data) (outputs : List Data)
    → All (λ x. x ≡ d) outputs
    → total (λ _. 1) outputs ≤ 1
    → (outputs ≡ []) ⊎ (outputs ≡ d ∷ [])
at_most_one d [] h one = inl refl
at_most_one d (x ∷ []) h one = inr (ap (λ y. y ∷ []) h.0)
at_most_one d (x ∷ y ∷ outputs) h one = absurd (omega arith)

module _ (e : Expr) (n : ℕ) (w : World) (s : IsSound e n w) (over : IsComplete w) where
  -- When nothing is left to do, no contract waits for its value: its promise would wait at a newer one.
  none_open :
      (room c : ℕ) → length w.contracts ≤ room + c → found phase_open (get_elem? w.contracts c) ≡ 0
  none_open zero c h = ap (found phase_open) (get_elem?-above w.contracts c (omega arith))
  none_open (suc room) c h =
      elim (Bool-cases (ltb 0 (found phase_open (get_elem? w.contracts c)))) [
        | inr shut ↦ ground arith
        | inl unmet ↦
            let stored : 0 < total (stored_promises c) w.contracts =
              ground (arith, s.balanced.promised c, nothing_left (promises c) w.activities over) in
            let (k, x, at, pos) = some_of_total (stored_promises c) w.contracts stored in
            let next = newer (denote e) s.goals k x.phase c (s.store.phases k x at) pos in
            let closed = none_open room k (omega (arith, next.0)) in
            absurd (omega (arith, closed, ap (found phase_open) at, next.1))
      ]

  never_open : (c : ℕ) → found phase_open (get_elem? w.contracts c) ≡ 0
  never_open c = none_open (length w.contracts) c (omega arith)

  -- So nothing of the chain is left, and no step.
  no_ends : total stored_ends w.contracts ≡ 0
  no_ends = elim (Bool-cases (ltb 0 (total stored_ends w.contracts))) [
    | inr none_left ↦ ground arith
    | inl some_left ↦
        let (k, x, at, pos) = some_of_total stored_ends w.contracts (ground arith) in
        absurd (omega (arith, never_open k, ap (found phase_open) at, end_open x.phase pos))
  ]

map_ok-denote :
    (e : Expr) (user : ℕ → ℕ)
    → denote (piped e (map_ok user)) ≡ denote (piped e (Seq.and_then (λ x. ready (ok (user x)))))
unfolding denote
map_ok-denote e user = (result_laws (denote e) ok ok user err).2

module _ (inline : View) (at_once : View → Bool) where
  -- For any program that builds a future from the constructors and sequential combinators, any
  -- runtime as the default and any choice of the schedulers that run a task inside of `Submit`: a
  -- run after which no thread and no task has anything left to do has called the callback of `Get`
  -- or `Detach` once, with the value that the combinators on results give, and has taken exactly
  -- the number of steps that the program costs.
  pub runs_deliver :
      {n : ℕ} {w : World} (e : Expr)
      → Runs inline at_once e n w
      → IsComplete w
      → (w.outputs ≡ denote e ∷ []) × (n ≡ cost e + 2)
  runs_deliver {n} {w} e r over =
      let s = Runs-IsSound inline at_once e r in
      let ended = nothing_left ends w.activities over in
      let idle = nothing_left (instr_cost s.goals) w.activities over in
      let free = store_free s.goals w.contracts (never_open e n w s over) in
      (
        one_output (denote e) w.outputs s.outputs
            (omega (arith, s.balanced.ended, ended, no_ends e n w s over)),
        omega (arith, s.costs, idle, free),
      )

  -- Every run of such a program has at most as many steps as the program costs, and at any time the
  -- callback of `Get` or `Detach` has not been called, or once, with the right value.
  pub runs_bounded :
      {n : ℕ} {w : World} (e : Expr)
      → Runs inline at_once e n w
      → (n ≤ cost e + 2) × ((w.outputs ≡ []) ⊎ (w.outputs ≡ denote e ∷ []))
  runs_bounded {n} {w} e r =
      let s = Runs-IsSound inline at_once e r in
      (
        omega (arith, s.costs),
        at_most_one (denote e) w.outputs s.outputs (omega (arith, s.balanced.ended)),
      )

  -- In any state that a run of such a program reaches, a thread or task that has an instruction
  -- left can execute that instruction, and it is a step of the run: no contract gets a second value
  -- or a second callback, and no callback a value of the wrong type.
  pub runs_progress :
      {n : ℕ} {w : World} (e : Expr) (i : ℕ) (instr : Instr) (rest : List Instr)
      → Runs inline at_once e n w
      → get_elem? w.activities i ≡ some (instr ∷ rest)
      → (e' : Effect) × (exec inline at_once w.contracts instr ≡ some e')
        × Step inline at_once w (after_effect w i rest e')
  runs_progress {n} {w} e i instr rest r at =
      let x =
        IsSound-Executes inline at_once e n w (Runs-IsSound inline at_once e r) i instr rest at in
      (x.effect, x.done, takes i instr rest x.effect at x.done)

  same_delivery :
      {n m : ℕ} {v w : World} (e f : Expr)
      → denote e ≡ denote f
      → Runs inline at_once e n v
      → Runs inline at_once f m w
      → IsComplete v
      → IsComplete w
      → v.outputs ≡ w.outputs
  same_delivery e f same r q over through =
      (runs_deliver e r over).0 ∙ ap (λ d. d ∷ []) same ∙ sym (runs_deliver f q through).0

  -- Two `FlatMap` one after the other, and one `FlatMap` of a function that goes on with the
  -- second, deliver the same in all complete runs.
  pub flat_map_assoc :
      {n m : ℕ} {v w : World} (e : Expr) (f g : Data → Expr)
      → Runs inline at_once (flat_map (flat_map e f) g) n v
      → Runs inline at_once (flat_map e (λ d. flat_map (f d) g)) m w
      → IsComplete v
      → IsComplete w
      → v.outputs ≡ w.outputs
  unfolding denote
  flat_map_assoc e f g =
      same_delivery (flat_map (flat_map e f) g) (flat_map e (λ d. flat_map (f d) g)) refl

  -- `MapOk` of a function, and `AndThen` of the function that returns its result as a ready future,
  -- deliver the same in all complete runs, for values and for errors.
  pub map_ok-and_then :
      {n m : ℕ} {v w : World} (e : Expr) (user : ℕ → ℕ)
      → Runs inline at_once (piped e (map_ok user)) n v
      → Runs inline at_once (piped e (Seq.and_then (λ x. ready (ok (user x))))) m w
      → IsComplete v
      → IsComplete w
      → v.outputs ≡ w.outputs
  map_ok-and_then e user =
      same_delivery (piped e (map_ok user)) (piped e (Seq.and_then (λ x. ready (ok (user x)))))
        (map_ok-denote e user)
