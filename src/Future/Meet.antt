-- ===== src/Future/Meet.antt =====
-- The phases of two sides that each write a value and announce it, where the second to announce does
-- the rest. `Contract` and `Both` of source/future are such machines.
use cpp_concurrency.Base.{
  ℕ, ◌-◌, ◌≤◌, ◌≡◌, refl, Bool, true, false, Option, some, List, arith, ap, ◌∙◌,
}
use cpp_concurrency.Future.Interleave.{
  Side, left, right, Pc, ready, stored, chosen, ended, rank, other, turns, run, run-at, nexts,
  nexts-measure, IsMeasure,
}

-- `wrote` tells a side that has written its value from one that has not.
pub data Phase : Type 0 where
  before : (left_wrote right_wrote : Bool) → Phase
  left_ended : (right_wrote : Bool) → Phase
  right_ended : (left_wrote : Bool) → Phase
  left_chosen right_chosen over : Phase

abbrev pub early : Bool → Pc
early false = ready
early true = stored

abbrev pub pc : Side → Phase → Pc
pc left (before l r) = early l
pc left (left_ended r) = ended
pc left (right_ended l) = early l
pc left left_chosen = chosen
pc left right_chosen = ended
pc left over = ended
pc right (before l r) = early r
pc right (left_ended r) = early r
pc right (right_ended l) = ended
pc right left_chosen = ended
pc right right_chosen = chosen
pc right over = ended

-- The state word: bit 1 once the left side has announced its value, bit 2 once the right one has.
abbrev pub announced : Phase → ℕ
announced (before l r) = 0
announced (left_ended r) = 1
announced (right_ended l) = 2
announced _ = 3

abbrev pub next : Side → Phase → Phase
next left (before false r) = before true r
next left (before true r) = left_ended r
next left (left_ended r) = left_ended r
next left (right_ended false) = right_ended true
next left (right_ended true) = left_chosen
next left left_chosen = over
next left right_chosen = right_chosen
next left over = over
next right (before l false) = before l true
next right (before l true) = right_ended l
next right (right_ended l) = right_ended l
next right (left_ended false) = left_ended true
next right (left_ended true) = right_chosen
next right right_chosen = over
next right left_chosen = left_chosen
next right over = over

abbrev pub measure : Side → Phase → ℕ
measure s ph = rank (pc s ph)

next-IsMeasure : IsMeasure next measure
next-IsMeasure = record { falls = falls; stays = stays }
  where
    falls : (s : Side) (ph : Phase) → measure s (next s ph) ≤ measure s ph - 1
    falls left (before false r) = omega arith
    falls left (before true r) = omega arith
    falls left (left_ended r) = omega arith
    falls left (right_ended false) = omega arith
    falls left (right_ended true) = omega arith
    falls left _ = omega arith
    falls right (before l false) = omega arith
    falls right (before l true) = omega arith
    falls right (right_ended l) = omega arith
    falls right (left_ended false) = omega arith
    falls right (left_ended true) = omega arith
    falls right _ = omega arith

    stays : (s : Side) (ph : Phase) → measure (other s) (next s ph) ≤ measure (other s) ph
    stays left (before false r) = omega arith
    stays left (before true r) = omega arith
    stays left (left_ended r) = omega arith
    stays left (right_ended false) = omega arith
    stays left (right_ended true) = omega arith
    stays left _ = omega arith
    stays right (before l false) = omega arith
    stays right (before l true) = omega arith
    stays right (right_ended l) = omega arith
    stays right (left_ended false) = omega arith
    stays right (left_ended true) = omega arith
    stays right _ = omega arith

-- With both sides at their ends the job is done.
over_of_ended : (ph : Phase) → measure left ph ≡ 0 → measure right ph ≡ 0 → ph ≡ over
over_of_ended (before false r) e f = absurd (omega arith)
over_of_ended (before true r) e f = absurd (omega arith)
over_of_ended (left_ended false) e f = absurd (omega arith)
over_of_ended (left_ended true) e f = absurd (omega arith)
over_of_ended (right_ended false) e f = absurd (omega arith)
over_of_ended (right_ended true) e f = absurd (omega arith)
over_of_ended left_chosen e f = absurd (omega arith)
over_of_ended right_chosen e f = absurd (omega arith)
over_of_ended over e f = refl

module _ {ℓ} {W : Type ℓ} (step : Side → W → Option W) (at : Phase → W)
    (follows : (s : Side) (ph : Phase) → step s (at ph) ≡ some (at (next s ph))) where
  -- Every run stays among the phases.
  pub meet-run :
      (ss : List Side) → (ph : Phase) × (run step ss (at (before false false)) ≡ some (at ph))
  meet-run ss = (_, run-at step at next follows ss (before false false))

  -- Three turns of each side are enough.
  pub meet-over :
      (ss : List Side)
      → 3 ≤ turns left ss
      → 3 ≤ turns right ss
      → run step ss (at (before false false)) ≡ some (at over)
  meet-over ss l r =
      let end : Phase = nexts step at next ss (before false false) in
      run-at step at next follows ss (before false false)
      ∙ ap (λ ph. some (at ph))
          (over_of_ended end
            (omega (
              arith,
              nexts-measure step at next measure next-IsMeasure ss (before false false) left,
            ))
            (omega (
              arith,
              nexts-measure step at next measure next-IsMeasure ss (before false false) right,
            )))
