-- ===== src/Seq/Meaning.antt =====
-- The value that a future of source/future is to give, by the combinators of source/result. Neither runtimes
-- nor delays change it.
use cpp_concurrency.Result as Result
use cpp_concurrency.Seq.{
  Data, Expr, ready, spawn, piped, via, flattened, Pipe, map, after, map_ok, and_then, or_else,
  Nested, wrapped, mapped,
}

unfoldable mutual
  pub denote : Expr → Data
  denote (ready d) = d
  denote (spawn rt d) = d
  denote (piped e p) = denote_pipe p (denote e)
  denote (via e rt) = denote e
  denote (flattened n) = denote_nested n

  pub denote_pipe : Pipe → Data → Data
  denote_pipe (map user) d = user d
  denote_pipe (after delay) d = d
  denote_pipe (map_ok user) d = Result.transform user d
  denote_pipe (and_then user) d = Result.and_then (λ v. denote (user v)) d
  denote_pipe (or_else user) d = Result.or_else (λ e. denote (user e)) d

  pub denote_nested : Nested → Data
  denote_nested (wrapped e) = denote e
  denote_nested (mapped e user) = denote (user (denote e))
