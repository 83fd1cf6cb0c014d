-- ===== src/Future/Apart.antt =====
-- The phases of two sides with two steps each, neither of which waits for the other.
use cpp_concurrency.Base.{ℕ, ◌-◌, ◌≤◌, ◌≡◌, refl, Option, some, List, arith, ap, ◌∙◌}
use cpp_concurrency.Future.Interleave.{
  Side, left, right, other, Pc, ready, stored, ended, turns, run, run-at, nexts, nexts-measure,
  IsMeasure,
}

pub data Stage : Type 0 where
  first_step second_step finished : Stage

pub data Phase : Type 0 where
  at : (left_stage right_stage : Stage) → Phase

abbrev pub pc : Stage → Pc
pc first_step = ready
pc second_step = stored
pc finished = ended

abbrev pub advance : Stage → Stage
advance first_step = second_step
advance second_step = finished
advance finished = finished

abbrev pub next : Side → Phase → Phase
next left (at l r) = at (advance l) r
next right (at l r) = at l (advance r)

-- A bit that a side sets by its second step.
abbrev pub bit_at : ℕ → Stage → ℕ
bit_at n finished = n
bit_at n _ = 0

abbrev to_do : Stage → ℕ
to_do first_step = 2
to_do second_step = 1
to_do finished = 0

abbrev measure : Side → Phase → ℕ
measure left (at l r) = to_do l
measure right (at l r) = to_do r

to_do-advance : (t : Stage) → to_do (advance t) ≤ to_do t - 1
to_do-advance first_step = omega arith
to_do-advance second_step = omega arith
to_do-advance finished = omega arith

next-IsMeasure : IsMeasure next measure
next-IsMeasure = record { falls = falls; stays = stays }
  where
    falls : (s : Side) (ph : Phase) → measure s (next s ph) ≤ measure s ph - 1
    falls left (at l r) = to_do-advance l
    falls right (at l r) = to_do-advance r

    stays : (s : Side) (ph : Phase) → measure (other s) (next s ph) ≤ measure (other s) ph
    stays left (at l r) = omega arith
    stays right (at l r) = omega arith

both_finished :
    (ph : Phase) → measure left ph ≡ 0 → measure right ph ≡ 0 → ph ≡ at finished finished
both_finished (at finished finished) e f = refl
both_finished (at first_step r) e f = absurd (omega arith)
both_finished (at second_step r) e f = absurd (omega arith)
both_finished (at finished first_step) e f = absurd (omega arith)
both_finished (at finished second_step) e f = absurd (omega arith)

module _ {ℓ} {W : Type ℓ} (step : Side → W → Option W) (memory : Phase → W)
    (follows : (s : Side) (ph : Phase) → step s (memory ph) ≡ some (memory (next s ph))) where
  -- Two turns of each side are enough.
  pub apart-over :
      (ss : List Side)
      → 2 ≤ turns left ss
      → 2 ≤ turns right ss
      → run step ss (memory (at first_step first_step)) ≡ some (memory (at finished finished))
  apart-over ss l r =
      let start : Phase = at first_step first_step in
      run-at step memory next follows ss start
      ∙ ap (λ ph. some (memory ph))
          (both_finished (nexts step memory next ss start)
            (omega (arith, nexts-measure step memory next measure next-IsMeasure ss start left))
            (omega (arith, nexts-measure step memory next measure next-IsMeasure ss start right)))
