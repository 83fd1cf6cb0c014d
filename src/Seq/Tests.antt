-- ===== src/Seq/Tests.antt =====
-- Chains of futures, run to their end.
use cpp_concurrency.Base.{
  ℕ, zero, ◌+◌, ◌≡◌, refl, suc, Bool, true, false, Option, none, some, is_some, if◌then◌else◌,
  get_elem?, List, [], ◌∷◌,
}
use cpp_concurrency.Result.{ok}
use cpp_concurrency.Seq.{Data, View, Expr, ready, piped, flat_map, map_ok}
use cpp_concurrency.Seq as Seq
use cpp_concurrency.Seq.Meaning.{denote}
use cpp_concurrency.Seq.Cost.{cost}
use cpp_concurrency.Seq.Machine.{Instr, Task, Effect, exec, invoke, run_task, make, make_nested}
use cpp_concurrency.Seq.Run.{World, Step, takes, Runs, start, later, init, after_effect}
use cpp_concurrency.Seq.Delivery.{runs_deliver, runs_progress, flat_map_assoc, map_ok-and_then}

abbrev inline : View
inline = 0

abbrev later_on : View → Bool
later_on rt = false

-- The activity `i` executes its next instruction, if it has one that can be executed.
abbrev step_to : World → ℕ → List Instr → Option Effect → World
step_to w i rest none = w
step_to w i rest (some e) = after_effect w i rest e

abbrev step_of : World → ℕ → Option (List Instr) → World
step_of w i none = w
step_of w i (some []) = w
step_of w i (some (instr ∷ rest)) = step_to w i rest (exec inline later_on w.contracts instr)

abbrev can_step : World → Option (List Instr) → Bool
can_step w none = false
can_step w (some []) = false
can_step w (some (instr ∷ rest)) = is_some (exec inline later_on w.contracts instr)

abbrev play : List ℕ → World → World
play [] w = w
play (i ∷ schedule) w = play schedule (step_of w i (get_elem? w.activities i))

abbrev can_play : List ℕ → World → Bool
can_play [] w = true
can_play (i ∷ schedule) w =
    let o = get_elem? w.activities i in
    let rest = can_play schedule (step_of w i o) in if can_step w o then rest else false

abbrev count_from : ℕ → List ℕ → ℕ
count_from n [] = n
count_from n (i ∷ schedule) = count_from (suc n) schedule

step_to-Step :
    (w : World) (i : ℕ) (instr : Instr) (rest : List Instr) (r : Option Effect)
    → get_elem? w.activities i ≡ some (instr ∷ rest)
    → exec inline later_on w.contracts instr ≡ r
    → is_some r ≡ true
    → Step inline later_on w (step_to w i rest r)
step_to-Step w i instr rest none at done can = cc
step_to-Step w i instr rest (some e) at done can = takes i instr rest e at done

step_of-Step :
    (w : World) (i : ℕ) (o : Option (List Instr))
    → get_elem? w.activities i ≡ o
    → can_step w o ≡ true
    → Step inline later_on w (step_of w i o)
step_of-Step w i none at can = cc
step_of-Step w i (some []) at can = cc
step_of-Step w i (some (instr ∷ rest)) at can = step_to-Step w i instr rest _ at refl can

-- A schedule that can be played is a run.
play-Runs :
    (e : Expr) (schedule : List ℕ) (n : ℕ) (w : World)
    → Runs inline later_on e n w
    → can_play schedule w ≡ true
    → Runs inline later_on e (count_from n schedule) (play schedule w)
play-Runs e [] n w r can = r
play-Runs e (i ∷ schedule) n w r can =
    let both = if_true _ _ can in
    play-Runs e schedule (suc n) (step_of w i (get_elem? w.activities i))
      (later r (step_of-Step w i _ refl both.0)) both.1
  where
    if_true : (b c : Bool) → (if b then c else false) ≡ true → (b ≡ true) × (c ≡ true)
    if_true true c h = (refl, h)
    if_true false c h = cc

-- The schedule that always goes on with the first activity that is not through.
abbrev first_busy : List (List Instr) → ℕ → ℕ
first_busy [] n = n
first_busy ([] ∷ l) n = first_busy l (suc n)
first_busy ((x ∷ y) ∷ l) n = n

abbrev in_order : ℕ → World → List ℕ
in_order zero w = []
in_order (suc k) w =
    let i = first_busy w.activities 0 in i ∷ in_order k (step_of w i (get_elem? w.activities i))

-- `Ok(3) | MapOk(+ 1)`, and the same by `AndThen`.
abbrev chain : Expr
chain = piped (ready (ok 3)) (map_ok (λ v. v + 1))

abbrev longer : Expr
longer = piped (ready (ok 3)) (Seq.and_then (λ v. ready (ok (v + 1))))

-- The thread that builds the chain, and then the task that it submits.
abbrev in_turn : List ℕ
in_turn = 0 ∷ 0 ∷ 0 ∷ 0 ∷ 0 ∷ 0 ∷ 1 ∷ 1 ∷ 0 ∷ 0 ∷ []

abbrev last : World
unfolding exec invoke run_task make
last = play in_turn (init inline later_on chain)

last_reached : Runs inline later_on chain 10 last
unfolding exec invoke run_task make
last_reached = play-Runs chain in_turn 0 _ start refl

runs_deliver_example : (last.outputs ≡ denote chain ∷ []) × (10 ≡ cost chain + 2)
unfolding exec invoke run_task make
runs_deliver_example = runs_deliver inline later_on chain last_reached (refl, (refl, tt))

-- The task of the chain has been submitted.
abbrev midway : World
unfolding exec invoke run_task make
midway = play (0 ∷ 0 ∷ 0 ∷ 0 ∷ 0 ∷ 0 ∷ []) (init inline later_on chain)

midway_reached : Runs inline later_on chain 6 midway
unfolding exec invoke run_task make
midway_reached = play-Runs chain (0 ∷ 0 ∷ 0 ∷ 0 ∷ 0 ∷ 0 ∷ []) 0 _ start refl

runs_progress_example :
    (e : Effect) × (exec inline later_on midway.contracts (Instr.run (Task.sets 0 (ok 4))) ≡ some e)
    × Step inline later_on midway (after_effect midway 1 [] e)
unfolding exec invoke run_task make
runs_progress_example =
    runs_progress inline later_on chain 1 (Instr.run (Task.sets 0 (ok 4))) [] midway_reached refl

abbrev last_longer : World
unfolding exec invoke run_task make
last_longer = play (in_order 14 (init inline later_on longer)) (init inline later_on longer)

longer_reached : Runs inline later_on longer 14 last_longer
unfolding exec invoke run_task make
longer_reached = play-Runs longer (in_order 14 (init inline later_on longer)) 0 _ start refl

map_ok-and_then_example : last.outputs ≡ last_longer.outputs
unfolding exec invoke run_task make
map_ok-and_then_example =
    map_ok-and_then inline later_on (ready (ok 3)) (λ v. v + 1) last_reached longer_reached
      (refl, (refl, tt)) (refl, (refl, tt))

-- `Ok(3)`, then a function that spawns, then one that returns.
abbrev spawns : Data → Expr
spawns d = Seq.spawn 1 d

abbrev returns : Data → Expr
returns d = ready d

abbrev left_way : Expr
left_way = flat_map (flat_map (ready (ok 3)) spawns) returns

abbrev right_way : Expr
right_way = flat_map (ready (ok 3)) (λ d. flat_map (spawns d) returns)

abbrev final : Expr → World
unfolding exec invoke run_task make make_nested
final e = play (in_order 37 (init inline later_on e)) (init inline later_on e)

left_reached : Runs inline later_on left_way 37 (final left_way)
unfolding exec invoke run_task make make_nested
left_reached = play-Runs left_way (in_order 37 (init inline later_on left_way)) 0 _ start refl

right_reached : Runs inline later_on right_way 37 (final right_way)
unfolding exec invoke run_task make make_nested
right_reached = play-Runs right_way (in_order 37 (init inline later_on right_way)) 0 _ start refl

flat_map_assoc_example : (final left_way).outputs ≡ (final right_way).outputs
unfolding exec invoke run_task make make_nested
flat_map_assoc_example =
    flat_map_assoc inline later_on (ready (ok 3)) spawns returns left_reached right_reached
      (refl, (refl, (refl, (refl, tt)))) (refl, (refl, (refl, (refl, tt))))
