-- ===== src/Seq/Rights.antt =====
-- Who has the promise and who has the future of a contract of source/future.
use cpp_concurrency.Base.{ℕ, ◌+◌, ◌≡◌, List, ◌==◌, bit, total, Option, none, some, get_elem?}
use cpp_concurrency.Seq.Machine.{
  Callback, pipes, nests, joins, forwards, finishes, Value, datum, future, Task, sets, sets_future,
  passes_on, Instr, build, build_nested, attach, attach_nest, attach_join, set_runtime, produce,
  consume, call, submits, run, Phase, empty, produced, waiting, Contract,
}
use cpp_concurrency.Seq.Run.{World}

-- The promises of the contract `c`.
abbrev pub callback_promises : ℕ → Callback → ℕ
callback_promises c (pipes rt pipe p) = bit (p == c)
callback_promises c (nests rt user p) = bit (p == c)
callback_promises c (joins p) = bit (p == c)
callback_promises c (forwards p) = bit (p == c)
callback_promises c finishes = 0

abbrev pub task_promises : ℕ → Task → ℕ
task_promises c (sets p d) = bit (p == c)
task_promises c (sets_future p user d) = bit (p == c)
task_promises c (passes_on p user v) = bit (p == c)

abbrev pub promises : ℕ → Instr → ℕ
promises c (build e p) = bit (p == c)
promises c (build_nested n p) = bit (p == c)
promises c (attach from pipe p) = bit (p == c)
promises c (attach_nest from user p) = bit (p == c)
promises c (attach_join from p) = bit (p == c)
promises c (set_runtime k rt) = 0
promises c (produce p v) = bit (p == c)
promises c (consume k cb) = callback_promises c cb
promises c (call cb v) = callback_promises c cb
promises c (submits rt t) = task_promises c t
promises c (run t) = task_promises c t

abbrev pub held_promises : ℕ → Phase → ℕ
held_promises c (waiting cb) = callback_promises c cb
held_promises c other = 0

abbrev pub stored_promises : ℕ → Contract → ℕ
stored_promises c k = held_promises c k.phase

-- The futures of the contract `c`.
abbrev pub value_futures : ℕ → Value → ℕ
value_futures c (datum d) = 0
value_futures c (future k) = bit (k == c)

abbrev pub futures : ℕ → Instr → ℕ
futures c (build e p) = 0
futures c (build_nested n p) = 0
futures c (attach from pipe p) = bit (from == c)
futures c (attach_nest from user p) = bit (from == c)
futures c (attach_join from p) = bit (from == c)
futures c (set_runtime k rt) = 0
futures c (produce p v) = value_futures c v
futures c (consume k cb) = bit (k == c)
futures c (call cb v) = value_futures c v
futures c (submits rt t) = 0
futures c (run t) = 0

abbrev pub held_futures : ℕ → Phase → ℕ
held_futures c (produced v) = value_futures c v
held_futures c other = 0

abbrev pub stored_futures : ℕ → Contract → ℕ
stored_futures c k = held_futures c k.phase

-- The callbacks at the end of the chain.
abbrev pub callback_ends : Callback → ℕ
callback_ends finishes = 1
callback_ends other = 0

abbrev pub ends : Instr → ℕ
ends (consume k cb) = callback_ends cb
ends (call cb v) = callback_ends cb
ends other = 0

abbrev pub held_ends : Phase → ℕ
held_ends (waiting cb) = callback_ends cb
held_ends other = 0

abbrev pub stored_ends : Contract → ℕ
stored_ends k = held_ends k.phase

-- Whether the contract still needs its value, and its callback.
abbrev pub phase_open : Phase → ℕ
phase_open empty = 1
phase_open (waiting cb) = 1
phase_open other = 0

abbrev pub phase_offered : Phase → ℕ
phase_offered empty = 1
phase_offered (produced v) = 1
phase_offered other = 0

abbrev pub found : (Phase → ℕ) → Option Contract → ℕ
found f none = 0
found f (some k) = f k.phase

abbrev pub in_activities : (Instr → ℕ) → List (List Instr) → ℕ
in_activities f = total (total f)

-- There is one promise for each contract that needs a value, one future for each that needs a callback, and
-- one end of the chain.
pub record IsBalanced (w : World) : Type 0 where
  pub promised :
      (c : ℕ)
      → in_activities (promises c) w.activities + total (stored_promises c) w.contracts
        ≡ found phase_open (get_elem? w.contracts c)
  pub held :
      (c : ℕ)
      → in_activities (futures c) w.activities + total (stored_futures c) w.contracts
        ≡ found phase_offered (get_elem? w.contracts c)
  pub ended :
      in_activities ends w.activities + (total stored_ends w.contracts + total (λ _. 1) w.outputs)
      ≡ 1
