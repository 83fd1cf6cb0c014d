-- ===== src/Sandbox/Tests.antt =====
-- A runtime of source/runtime/sandbox with two timers and a task.
use cpp_concurrency.Base.{ℕ, ◌+◌, ◌≤◌, ◌<◌, ◌≡◌, refl, sym, append-nil, false, some, [], ◌∷◌, arith}
use cpp_concurrency.LeftistHeap
use cpp_concurrency.LeftistHeap.{Timer, null, node}
use cpp_concurrency.Sandbox.{
  Runtime, plain, TimerQueue, advance_clock_by, advance_clock_to_next, submit,
}
use cpp_concurrency.Sandbox.Clock.{
  IsValid, IsMoved, advance_clock_by-IsMoved, advance_clock_to_next-IsMoved,
}
use cpp_concurrency.Sandbox.Tasks.{OnlyAppend}

abbrev early : Timer
early = record { task = 1; deadline = 5 }

abbrev late : Timer
late = record { task = 2; deadline = 9 }

abbrev two_timers : TimerQueue
two_timers = record { now = 3; timers = node early 1 (node late 1 null null) null }

abbrev busy : Runtime
busy = record { tasks = plain 0 ∷ []; queue = two_timers }

busy-IsValid : IsValid busy
unfolding LeftistHeap.depth
busy-IsValid = record {
  ordered = (omega arith, tt, (tt, tt, tt, tt), tt);
  leftist = (refl, omega arith, (refl, omega arith, tt, tt), tt);
  current = omega arith;
}

not_empty : LeftistHeap.is_empty busy.timers ≡ false
unfolding LeftistHeap.is_empty
not_empty = refl

advance_clock_by-IsMoved_example : IsMoved (3 + 4) busy (advance_clock_by 4 busy)
advance_clock_by-IsMoved_example = advance_clock_by-IsMoved 4 busy busy-IsValid

advance_clock_to_next-IsMoved_example :
    (t : Timer) × (r : Runtime × ℕ) × (LeftistHeap.top busy.timers ≡ some t)
    × (advance_clock_to_next busy ≡ some r)
    × (3 ≤ t.deadline)
    × IsMoved t.deadline busy r
    × (0 < r.1)
advance_clock_to_next-IsMoved_example = advance_clock_to_next-IsMoved busy busy-IsValid not_empty

-- The task 0 submits the task 1; the others do nothing.
abbrev exec : ℕ → Runtime → Runtime
exec ℕ.zero s = submit (plain 1) s
exec (ℕ.suc n) s = s

exec-OnlyAppend : OnlyAppend exec
unfolding submit
exec-OnlyAppend ℕ.zero s = record { new = plain 1 ∷ []; appended = refl }
exec-OnlyAppend (ℕ.suc n) s = record { new = []; appended = sym (append-nil s.tasks) }
