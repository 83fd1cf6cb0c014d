-- ===== src/Seq.antt =====
-- source/future: futures made, chained one after the other, and consumed, with the constructors of make/, the
-- combinators of combine/seq/ and the consumers of terminate/. An expression says which future a program
-- builds; its children have the machine that builds it and what the future is to give.
pub mod Meaning
pub mod Machine
pub mod Run
pub mod Rights
pub mod Goals
pub mod Cost
pub mod Store
pub mod Effects
pub mod Building
pub mod Calling
pub mod Meeting
pub mod Keeps
pub mod Delivery
mod Tests
use cpp_concurrency.Base.{ℕ}
use cpp_concurrency.Result.{Result}

-- A plain value, or a `Try` of one, with a number for each C++ value.
abbrev pub Data : Type 0
Data = Result ℕ ℕ

-- `runtime::View`, a name for a scheduler of tasks with its scheduler of timers.
abbrev pub View : Type 0
View = ℕ

mutual
  -- A program that builds a future.
  pub data Expr : Type 0 where
    -- `Ready`, and so `Value`, `Just`, `Return`, `Ok` and `Err`.
    ready : Data → Expr
    -- `Spawn`, with what the function returns.
    spawn : View → Data → Expr
    piped : Expr → Pipe → Expr
    via : Expr → View → Expr
    flattened : Nested → Expr

  -- A combinator, with the function of the user.
  pub data Pipe : Type 0 where
    map : (Data → Data) → Pipe
    after : ℕ → Pipe
    map_ok : (ℕ → ℕ) → Pipe
    and_then : (ℕ → Expr) → Pipe
    or_else : (ℕ → Expr) → Pipe

  -- A program that builds a future of a future: `Ready`, or `Map` of a function that returns a future.
  pub data Nested : Type 0 where
    wrapped : Expr → Nested
    mapped : Expr → (Data → Expr) → Nested

-- `FlatMap`
abbrev pub flat_map : Expr → (Data → Expr) → Expr
flat_map e user = flattened (mapped e user)
