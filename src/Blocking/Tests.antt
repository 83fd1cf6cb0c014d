-- ===== src/Blocking/Tests.antt =====
-- Two consumers and a producer at the queue of source/detail/queue.hpp.
use cpp_concurrency.Base.{ℕ, true, List, [], ◌∷◌}
use cpp_concurrency.Blocking.{Queue}
use cpp_concurrency.Blocking.Laws.{
  Move, pushes, pops, resumes, closes, moves, start, IsFair, moves-IsFair,
}

abbrev history : List (Move ℕ)
history = pops ∷ pops ∷ pushes 4 ∷ resumes ∷ pushes 5 ∷ closes ∷ resumes ∷ []

moves-IsFair_example : IsFair (moves history start)
moves-IsFair_example = moves-IsFair history

abbrev closed : Queue ℕ
closed = record { buffer = []; waiting = 0; is_closed = true; blocked = 0; notified = 0 }

-- Both values are taken, and a consumer comes again.
abbrev drained : List (Move ℕ)
drained = pops ∷ pushes 4 ∷ resumes ∷ pushes 5 ∷ closes ∷ pops ∷ []
