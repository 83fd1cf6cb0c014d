-- ===== src/Seq/Run.antt =====
-- The runs of a program of source/future: the threads and the submitted tasks take turns in any order, which
-- stands for all that schedulers and timers can do.
use cpp_concurrency.Base.{ℕ, suc, ◌≡◌, Bool, List, [], ◌∷◌, ◌++◌, some, get_elem?, set}
use cpp_concurrency.Seq.{Data, View, Expr}
use cpp_concurrency.Seq.Machine.{Instr, build, consume, finishes, Contract, fresh, Effect, exec}

pub record World : Type 0 where
  pub contracts : List Contract
  pub activities : List (List Instr)
  pub outputs : List Data

-- The activity `i` executes its first instruction, with the effect `e`, and has `rest` behind it.
abbrev pub after_effect : World → ℕ → List Instr → Effect → World
after_effect w i rest e = record {
  contracts = e.contracts;
  activities = set w.activities i (e.code ++ rest) ++ e.submitted;
  outputs = w.outputs ++ e.outputs;
}

module _ (inline : View) (at_once : View → Bool) where
  pub data Step (w : World) : World → Type 0 where
    takes :
        (i : ℕ) (instr : Instr) (rest : List Instr) (e : Effect)
        → get_elem? w.activities i ≡ some (instr ∷ rest)
        → exec inline at_once w.contracts instr ≡ some e
        → Step w (after_effect w i rest e)

  -- `Get` or `Detach` of a future: a thread builds it and consumes it.
  abbrev pub init : Expr → World
  init e = record {
    contracts = fresh inline at_once ∷ [];
    activities = (build e 0 ∷ consume 0 finishes ∷ []) ∷ [];
    outputs = [];
  }

  -- A run of `n` steps.
  pub data Runs (e : Expr) : ℕ → World → Type 0 where
    start : Runs e 0 (init e)
    later : {n : ℕ} {w w' : World} → Runs e n w → Step w w' → Runs e (suc n) w'
