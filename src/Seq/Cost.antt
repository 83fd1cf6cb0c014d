-- ===== src/Seq/Cost.antt =====
-- How many instructions a program of source/future takes.
use cpp_concurrency.Base.{ℕ, ◌+◌, List, [], ◌∷◌, Option, none, some, get_elem?}
use cpp_concurrency.Result.{ok, err}
use cpp_concurrency.Seq.{
  Data, Expr, ready, spawn, piped, via, flattened, Pipe, map, after, map_ok, and_then, or_else,
  Nested, wrapped, mapped,
}
use cpp_concurrency.Seq.Meaning.{denote}
use cpp_concurrency.Seq.Machine.{
  Callback, pipes, nests, joins, forwards, finishes, Value, datum, future, Task, sets, sets_future,
  passes_on, Instr, build, build_nested, attach, attach_nest, attach_join, set_runtime, produce,
  consume, call, submits, run, Phase, waiting, Contract,
}
use cpp_concurrency.Seq.Goals.{Goal, leaf, nest}

-- Of a function of the user that builds a future, and only runs for a value, or for an error.
abbrev on_value : (ℕ → ℕ) → Data → ℕ
on_value f (ok v) = f v
on_value f (err e) = 1

abbrev on_error : (ℕ → ℕ) → Data → ℕ
on_error f (ok v) = 1
on_error f (err e) = f e

unfoldable mutual
  -- To build the future and to produce its value.
  pub cost : Expr → ℕ
  cost (ready d) = 2
  cost (spawn rt d) = 5
  cost (piped e p) = cost e + (4 + cost_pipe p (denote e))
  cost (via e rt) = cost e + 2
  cost (flattened n) = cost_nested n + 7

  -- What follows the call of the callback.
  pub cost_pipe : Pipe → Data → ℕ
  cost_pipe (map user) d = 2
  cost_pipe (after delay) d = 2
  cost_pipe (map_ok user) d = on_value (λ v. 2) d
  cost_pipe (and_then user) d = on_value (λ v. cost (user v) + 4) d
  cost_pipe (or_else user) d = on_error (λ e. cost (user e) + 4) d

  pub cost_nested : Nested → ℕ
  cost_nested (wrapped e) = cost e + 2
  cost_nested (mapped e user) = cost e + (6 + cost (user (denote e)))

abbrev pub callback_cost : Callback → Data → ℕ
callback_cost (pipes rt pipe p) d = cost_pipe pipe d
callback_cost (nests rt user p) d = cost (user d) + 2
callback_cost (joins p) d = 3
callback_cost (forwards p) d = 1
callback_cost finishes d = 0

abbrev pub task_cost : Task → ℕ
task_cost (sets p d) = 2
task_cost (sets_future p user d) = cost (user d) + 2
task_cost (passes_on p user v) = cost (user v) + 4

abbrev pub goal_datum : Option Goal → Data
goal_datum none = ok 0
goal_datum (some (leaf d)) = d
goal_datum (some (nest d)) = d

abbrev pub value_datum : Value → Data
value_datum (datum d) = d
value_datum (future c) = ok 0

-- Of the instruction and all that comes of it, with the goals of the contracts.
abbrev pub instr_cost : List Goal → Instr → ℕ
instr_cost gs (build e c) = cost e
instr_cost gs (build_nested n c) = cost_nested n
instr_cost gs (attach from pipe to) = 3 + cost_pipe pipe (goal_datum (get_elem? gs from))
instr_cost gs (attach_nest from user to) = 5 + cost (user (goal_datum (get_elem? gs from)))
instr_cost gs (attach_join from to) = 6
instr_cost gs (set_runtime c rt) = 1
instr_cost gs (produce c v) = 1
instr_cost gs (consume c cb) = 2 + callback_cost cb (goal_datum (get_elem? gs c))
instr_cost gs (call cb v) = 1 + callback_cost cb (value_datum v)
instr_cost gs (submits rt t) = 1 + task_cost t
instr_cost gs (run t) = task_cost t

abbrev pub phase_cost : Option Goal → Phase → ℕ
phase_cost g (waiting cb) = 1 + callback_cost cb (goal_datum g)
phase_cost g other = 0

abbrev pub store_cost : List Goal → List Contract → ℕ
store_cost [] cs = 0
store_cost (g ∷ gs) [] = 0
store_cost (g ∷ gs) (k ∷ cs) = phase_cost (some g) k.phase + store_cost gs cs
