-- ===== src/Seq/Machine.antt =====
-- The contracts of source/future/detail/contract_state.hpp, the threads that build futures, produce and
-- consume, and the tasks and timers that they submit. A step is one instruction of one thread. `Produce`
-- and `Consume` are one step each, since the model Future.Contract shows that a contract calls its
-- callback once, whoever comes last.
use cpp_concurrency.Base.{
  ℕ, Bool, Option, none, some, List, [], ◌∷◌, ◌++◌, length, get_elem?, set, if◌then◌else◌,
}
use cpp_concurrency.Result.{ok, err}
use cpp_concurrency.Seq.{
  Data, View, Expr, ready, spawn, piped, via, flattened, Pipe, map, after, map_ok, and_then,
  or_else, Nested, wrapped, mapped,
}

-- The callbacks, each with the promise that it is to keep: those of the combinators, with the runtime that
-- they read; of `Map` with a function that returns a future; of `Flatten`; the one that passes a
-- value on; and that of `Get` or `Detach`, at the end.
pub data Callback : Type 0 where
  pipes : View → Pipe → (promise : ℕ) → Callback
  nests : View → (Data → Expr) → (promise : ℕ) → Callback
  joins : (promise : ℕ) → Callback
  forwards : (promise : ℕ) → Callback
  finishes : Callback

-- A value of a contract, which can be a future, by its contract.
pub data Value : Type 0 where
  datum : Data → Value
  future : ℕ → Value

-- What `SubmitTask` and `SetTimer` get: the promise is set to a value, or to the future that the function of
-- the user returns, or to what that future gives.
pub data Task : Type 0 where
  sets : (promise : ℕ) → Data → Task
  sets_future : (promise : ℕ) → (Data → Expr) → Data → Task
  passes_on : (promise : ℕ) → (ℕ → Expr) → ℕ → Task

pub data Instr : Type 0 where
  -- Build the future of a contract.
  build : Expr → ℕ → Instr
  build_nested : Nested → ℕ → Instr
  -- `Pipe`, from the future of the first contract to that of the second.
  attach : ℕ → Pipe → ℕ → Instr
  attach_nest : ℕ → (Data → Expr) → ℕ → Instr
  attach_join : ℕ → ℕ → Instr
  set_runtime : ℕ → View → Instr
  produce : ℕ → Value → Instr
  consume : ℕ → Callback → Instr
  call : Callback → Value → Instr
  submits : View → Task → Instr
  run : Task → Instr

-- `RendezvousStateMachine`, with `callback_` and `result_`.
pub data Phase : Type 0 where
  empty : Phase
  produced : Value → Phase
  waiting : Callback → Phase
  finished : Phase

-- `ContractState`
pub record Contract : Type 0 where
  pub runtime : View
  pub phase : Phase

-- What an instruction leads to: the contracts, what the thread has to do before it goes on, the tasks that
-- are submitted, each for a thread of its own, and what reaches the end of the chain.
pub record Effect : Type 0 where
  pub contracts : List Contract
  pub code : List Instr
  pub submitted : List (List Instr)
  pub outputs : List Data

abbrev pub goes_on : List Contract → List Instr → Effect
goes_on cs code = record { contracts = cs; code = code; submitted = []; outputs = [] }

-- `ContractState::SetRuntime`
abbrev pub with_runtime : Contract → View → Contract
with_runtime k rt = record k { runtime = rt }

abbrev pub with_phase : Contract → Phase → Contract
with_phase k phase = record k { phase = phase }

-- `ContractState::Produce`. A second value is a fault.
abbrev pub produce_in : List Contract → ℕ → Value → Contract → Phase → Option Effect
produce_in cs c v k empty = some (goes_on (set cs c (with_phase k (produced v))) [])
produce_in cs c v k (waiting cb) =
    some (goes_on (set cs c (with_phase k finished)) (call cb v ∷ []))
produce_in cs c v k other = none

-- `ContractState::Consume`. A second callback is a fault.
abbrev pub consume_in : List Contract → ℕ → Callback → Contract → Phase → Option Effect
consume_in cs c cb k empty = some (goes_on (set cs c (with_phase k (waiting cb))) [])
consume_in cs c cb k (produced v) =
    some (goes_on (set cs c (with_phase k finished)) (call cb v ∷ []))
consume_in cs c cb k other = none

-- A contract is read where there is one.
abbrev pub at_contract : List Contract → ℕ → (Contract → Option Effect) → Option Effect
at_contract cs c f = elim (get_elem? cs c) [ none ↦ none | some k ↦ f k ]

-- `Inline()`, the runtime of a new contract, and whether a scheduler runs a task inside of `Submit`, as that
-- of `Inline()` does, are given from outside: that code is not in the repository.
module _ (inline : View) (at_once : View → Bool) where
  -- `Contract()`
  abbrev pub fresh : Contract
  fresh = record { runtime = inline; phase = empty }

  -- `SubmitTask`
  abbrev pub submit : List Contract → View → Task → Effect
  submit cs rt t =
      if at_once rt
      then goes_on cs (run t ∷ [])
      else record { contracts = cs; code = []; submitted = (run t ∷ []) ∷ []; outputs = [] }

  -- `SetTimer`. The handler runs in time, on another thread.
  abbrev pub set_timer : List Contract → View → ℕ → Task → Effect
  set_timer cs rt delay t = record {
    contracts = cs;
    code = [];
    submitted = (run t ∷ []) ∷ [];
    outputs = [];
  }

  -- The callbacks of `Map`, `After`, `MapOk`, `AndThen` and `OrElse`.
  abbrev pub on_map : (Data → Data) → List Contract → View → ℕ → Data → Effect
  on_map user cs rt p d = submit cs rt (sets p (user d))

  abbrev pub on_after : ℕ → List Contract → View → ℕ → Data → Effect
  on_after delay cs rt p d = set_timer cs rt delay (sets p d)

  abbrev pub on_map_ok : (ℕ → ℕ) → List Contract → View → ℕ → Data → Effect
  on_map_ok user cs rt p (ok v) = submit cs rt (sets p (ok (user v)))
  on_map_ok user cs rt p (err e) = goes_on cs (produce p (datum (err e)) ∷ [])

  abbrev pub on_and_then : (ℕ → Expr) → List Contract → View → ℕ → Data → Effect
  on_and_then user cs rt p (ok v) = submit cs rt (passes_on p user v)
  on_and_then user cs rt p (err e) = goes_on cs (produce p (datum (err e)) ∷ [])

  abbrev pub on_or_else : (ℕ → Expr) → List Contract → View → ℕ → Data → Effect
  on_or_else user cs rt p (ok v) = goes_on cs (produce p (datum (ok v)) ∷ [])
  on_or_else user cs rt p (err e) = submit cs rt (passes_on p user e)

  abbrev pub on_pipe : Pipe → List Contract → View → ℕ → Data → Effect
  on_pipe (map user) = on_map user
  on_pipe (after delay) = on_after delay
  on_pipe (map_ok user) = on_map_ok user
  on_pipe (and_then user) = on_and_then user
  on_pipe (or_else user) = on_or_else user

  -- The callbacks of `Map` with a function that returns a future, of `Flatten`, and of the future that
  -- `Flatten` finds.
  abbrev pub on_nest : (Data → Expr) → List Contract → View → ℕ → Data → Effect
  on_nest user cs rt p d = submit cs rt (sets_future p user d)

  abbrev pub on_join : List Contract → ℕ → ℕ → Effect
  on_join cs p c = goes_on cs (consume c (forwards p) ∷ [])

  abbrev pub on_forward : List Contract → ℕ → Data → Effect
  on_forward cs p d = goes_on cs (produce p (datum d) ∷ [])

  -- The callback of `Get`.
  abbrev pub on_finish : List Contract → Data → Effect
  on_finish cs d = record { contracts = cs; code = []; submitted = []; outputs = d ∷ [] }

  -- A callback is called. A value of the wrong type is a fault.
  unfoldable pub invoke : List Contract → Callback → Value → Option Effect
  invoke cs (pipes rt pipe p) (datum d) = some (on_pipe pipe cs rt p d)
  invoke cs (nests rt user p) (datum d) = some (on_nest user cs rt p d)
  invoke cs (joins p) (future c) = some (on_join cs p c)
  invoke cs (forwards p) (datum d) = some (on_forward cs p d)
  invoke cs finishes (datum d) = some (on_finish cs d)
  invoke cs cb v = none

  -- A task runs. The function of the user builds a future, of a new contract.
  unfoldable pub run_task : List Contract → Task → Effect
  run_task cs (sets p d) = goes_on cs (produce p (datum d) ∷ [])
  run_task cs (sets_future p user d) =
      goes_on (cs ++ fresh ∷ []) (build (user d) (length cs) ∷ produce p (future (length cs)) ∷ [])
  run_task cs (passes_on p user v) =
      goes_on (cs ++ fresh ∷ [])
        (build (user v) (length cs) ∷ consume (length cs) (forwards p) ∷ [])

  -- `Ready`
  abbrev pub make_ready : List Contract → ℕ → Data → Effect
  make_ready cs c d = goes_on cs (produce c (datum d) ∷ [])

  -- `Spawn`
  abbrev pub make_spawn : List Contract → ℕ → View → Data → Effect
  make_spawn cs c rt d = goes_on cs (set_runtime c rt ∷ submits rt (sets c d) ∷ [])

  -- `Via`
  abbrev pub make_via : List Contract → ℕ → Expr → View → Effect
  make_via cs c e rt = goes_on cs (build e c ∷ set_runtime c rt ∷ [])

  -- The future that a combinator takes comes first, of a new contract.
  unfoldable pub make : List Contract → ℕ → Expr → Effect
  make cs c (ready d) = make_ready cs c d
  make cs c (spawn rt d) = make_spawn cs c rt d
  make cs c (piped e pipe) =
      goes_on (cs ++ fresh ∷ []) (build e (length cs) ∷ attach (length cs) pipe c ∷ [])
  make cs c (via e rt) = make_via cs c e rt
  make cs c (flattened n) =
      goes_on (cs ++ fresh ∷ []) (build_nested n (length cs) ∷ attach_join (length cs) c ∷ [])

  unfoldable pub make_nested : List Contract → ℕ → Nested → Effect
  make_nested cs c (wrapped e) =
      goes_on (cs ++ fresh ∷ []) (build e (length cs) ∷ produce c (future (length cs)) ∷ [])
  make_nested cs c (mapped e user) =
      goes_on (cs ++ fresh ∷ []) (build e (length cs) ∷ attach_nest (length cs) user c ∷ [])

  -- `Pipe` of a combinator: the runtime goes over to the new future, and the old one is consumed.
  abbrev pub pipe_into : List Contract → ℕ → ℕ → (View → Callback) → Option Effect
  pipe_into cs from to cb = at_contract cs from λ k.
      at_contract cs to λ l.
        some (goes_on (set cs to (with_runtime l k.runtime)) (consume from (cb k.runtime) ∷ []))

  -- `Pipe` of each combinator.
  abbrev pub pipe_map : (Data → Data) → List Contract → ℕ → ℕ → Option Effect
  pipe_map user cs from to = pipe_into cs from to (λ rt. pipes rt (map user) to)

  abbrev pub pipe_after : ℕ → List Contract → ℕ → ℕ → Option Effect
  pipe_after delay cs from to = pipe_into cs from to (λ rt. pipes rt (after delay) to)

  abbrev pub pipe_map_ok : (ℕ → ℕ) → List Contract → ℕ → ℕ → Option Effect
  pipe_map_ok user cs from to = pipe_into cs from to (λ rt. pipes rt (map_ok user) to)

  abbrev pub pipe_and_then : (ℕ → Expr) → List Contract → ℕ → ℕ → Option Effect
  pipe_and_then user cs from to = pipe_into cs from to (λ rt. pipes rt (and_then user) to)

  abbrev pub pipe_or_else : (ℕ → Expr) → List Contract → ℕ → ℕ → Option Effect
  pipe_or_else user cs from to = pipe_into cs from to (λ rt. pipes rt (or_else user) to)

  abbrev pub pipe_nest : (Data → Expr) → List Contract → ℕ → ℕ → Option Effect
  pipe_nest user cs from to = pipe_into cs from to (λ rt. nests rt user to)

  abbrev pub pipe_flatten : List Contract → ℕ → ℕ → Option Effect
  pipe_flatten cs from to = pipe_into cs from to (λ rt. joins to)

  abbrev pub pipe_of : Pipe → List Contract → ℕ → ℕ → Option Effect
  pipe_of (map user) = pipe_map user
  pipe_of (after delay) = pipe_after delay
  pipe_of (map_ok user) = pipe_map_ok user
  pipe_of (and_then user) = pipe_and_then user
  pipe_of (or_else user) = pipe_or_else user

  -- `Future::SetRuntime`
  abbrev pub set_runtime_of : List Contract → ℕ → View → Option Effect
  set_runtime_of cs c rt = at_contract cs c λ k. some (goes_on (set cs c (with_runtime k rt)) [])

  -- `Promise::Set`
  abbrev pub produce_at : List Contract → ℕ → Value → Option Effect
  produce_at cs c v = at_contract cs c λ k. produce_in cs c v k k.phase

  -- `Future::Consume`
  abbrev pub consume_at : List Contract → ℕ → Callback → Option Effect
  consume_at cs c cb = at_contract cs c λ k. consume_in cs c cb k k.phase

  unfoldable pub exec : List Contract → Instr → Option Effect
  unfolding make make_nested run_task invoke
  exec cs (build e c) = some (make cs c e)
  exec cs (build_nested n c) = some (make_nested cs c n)
  exec cs (attach from pipe to) = pipe_of pipe cs from to
  exec cs (attach_nest from user to) = pipe_nest user cs from to
  exec cs (attach_join from to) = pipe_flatten cs from to
  exec cs (set_runtime c rt) = set_runtime_of cs c rt
  exec cs (produce c v) = produce_at cs c v
  exec cs (consume c cb) = consume_at cs c cb
  exec cs (call cb v) = invoke cs cb v
  exec cs (submits rt t) = some (submit cs rt t)
  exec cs (run t) = some (run_task cs t)
