-- ===== src/RunLoop/Stopped.antt =====
-- What `Run` of source/runtime/run_loop/runtime.cpp still does after `Stop`.
use cpp_concurrency.Base.{
  ℕ, ◌+◌, ◌-◌, ◌<◌, ◌≡◌, refl, ap, ◌∙◌, true, false, List, [], ◌∷◌, arith, length, All,
}
use cpp_concurrency.Blocking as Blocking
use cpp_concurrency.RunLoop.{
  Runtime, task, null, turn, after_turn, run, stop, is_due, try_nearest_deadline,
}

-- A task that does nothing to the runtime.
abbrev pub idle : ℕ → Runtime → Runtime
idle work s = s

-- A queue after `Pop`, with `vs` left.
abbrev rested : Blocking.Queue ℕ → List ℕ → Blocking.Queue ℕ
rested q vs = record q { buffer = vs; waiting = q.waiting + 1 - 1 }

-- A turn of a runtime that is closed, with no timer due.
turn-nothing :
    (now : ℕ) (s : Runtime)
    → is_due now (try_nearest_deadline s) ≡ false
    → s.tasks.buffer ≡ []
    → s.tasks.is_closed ≡ true
    → s.is_closed ≡ true
    → turn now s ≡ (null, record s { tasks = rested s.tasks [] })
turn-nothing now s late e c d = rw (late, e, c, d) refl

turn-task :
    (now v : ℕ) (vs : List ℕ) (s : Runtime)
    → is_due now (try_nearest_deadline s) ≡ false
    → s.tasks.buffer ≡ v ∷ vs
    → s.tasks.is_closed ≡ true
    → turn now s ≡ (task v, record s { tasks = rested s.tasks vs })
turn-task now v vs s late e c = rw (late, e, c) refl

runs_queued :
    (vs clock : List ℕ) (s : Runtime)
    → s.tasks.buffer ≡ vs
    → s.tasks.is_closed ≡ true
    → s.is_closed ≡ true
    → All (λ now. is_due now (try_nearest_deadline s) ≡ false) clock
    → length vs < length clock
    → (end : Runtime) × (run idle clock s ≡ (vs, null, end)) × (end.timers ≡ s.timers)
unfolding run
runs_queued vs [] s e c d late lt = absurd (omega arith)
runs_queued [] (now ∷ clock) s e c d late lt =
    (_, ap (λ r. after_turn idle (run idle clock) r.0 r.1) (turn-nothing now s late.0 e c d), refl)
runs_queued (v ∷ vs) (now ∷ clock) s e c d late lt =
    let (end, ran, kept) =
      runs_queued vs clock (record s { tasks = rested s.tasks vs }) refl c d late.1 (omega arith) in
    (
      end,
      ap (λ r. after_turn idle (run idle clock) r.0 r.1) (turn-task now v vs s late.0 e c)
          ∙ ap (λ r. (v ∷ r.0, r.1, r.2)) ran,
      kept,
    )

-- After `Stop`, with no timer due at any turn and tasks that do nothing to the runtime, `Run` runs
-- exactly the tasks that were in the queue, in order, within one turn more than there are, and then
-- returns; the timers stay behind.
pub stop-runs :
    (clock : List ℕ) (s : Runtime)
    → All (λ now. is_due now (try_nearest_deadline s) ≡ false) clock
    → length s.tasks.buffer < length clock
    → (end : Runtime) × (run idle clock (stop s) ≡ (s.tasks.buffer, null, end))
      × (end.timers ≡ s.timers)
stop-runs clock s late lt =
    runs_queued s.tasks.buffer clock (stop s) (ground arith) (ground arith) refl late lt
