-- ===== src/Future/Race.antt =====
-- The phases of two sides of which the first to move is chosen. `First` of source/future is such a
-- machine, and `FirstOk` where both succeed.
use cpp_concurrency.Base.{
  ℕ, ◌-◌, ◌≤◌, ◌≡◌, refl, Bool, true, false, Option, some, List, [], ◌∷◌, arith, ap, ◌∙◌,
}
use cpp_concurrency.Future.Interleave.{
  Side, left, right, other, Pc, ready, chosen, ended, turns, run, run-at, nexts, nexts-measure,
  IsMeasure,
}

-- Who moved first, whether it has finished, and whether the other has moved.
pub data Phase : Type 0 where
  start : Phase
  won : (winner : Side) (finished loser_moved : Bool) → Phase

abbrev winner_pc : Bool → Pc
winner_pc false = chosen
winner_pc true = ended

abbrev loser_pc : Bool → Pc
loser_pc false = ready
loser_pc true = ended

abbrev pub pc : Side → Phase → Pc
pc s start = ready
pc left (won left f m) = winner_pc f
pc right (won left f m) = loser_pc m
pc left (won right f m) = loser_pc m
pc right (won right f m) = winner_pc f

abbrev pub next : Side → Phase → Phase
next s start = won s false false
next left (won left f m) = won left true m
next right (won left f m) = won left f true
next left (won right f m) = won right f true
next right (won right f m) = won right true m

-- The turns that a side still needs.
abbrev left_to_do : Pc → ℕ
left_to_do ready = 2
left_to_do ended = 0
left_to_do _ = 1

abbrev measure : Side → Phase → ℕ
measure s ph = left_to_do (pc s ph)

next-IsMeasure : IsMeasure next measure
next-IsMeasure = record { falls = falls; stays = stays }
  where
    falls : (s : Side) (ph : Phase) → measure s (next s ph) ≤ measure s ph - 1
    falls left start = omega arith
    falls right start = omega arith
    falls left (won left f m) = omega arith
    falls right (won left f m) = omega arith
    falls left (won right f m) = omega arith
    falls right (won right f m) = omega arith

    stays : (s : Side) (ph : Phase) → measure (other s) (next s ph) ≤ measure (other s) ph
    stays left start = omega arith
    stays right start = omega arith
    stays left (won left f m) = omega arith
    stays right (won left f m) = omega arith
    stays left (won right f m) = omega arith
    stays right (won right f m) = omega arith

module _ {ℓ} {W : Type ℓ} (step : Side → W → Option W) (at : Phase → W)
    (follows : (s : Side) (ph : Phase) → step s (at ph) ≡ some (at (next s ph))) where
  -- The winner of a run is the side that moves first.
  nexts-won :
      (ss : List Side) (s : Side) (f m : Bool)
      → (f' : Bool) × (m' : Bool) × (nexts step at next ss (won s f m) ≡ won s f' m')
  nexts-won [] s f m = (f, m, refl)
  nexts-won (left ∷ ss) left f m = nexts-won ss left true m
  nexts-won (right ∷ ss) left f m = nexts-won ss left f true
  nexts-won (left ∷ ss) right f m = nexts-won ss right f true
  nexts-won (right ∷ ss) right f m = nexts-won ss right true m

  finished :
      (s : Side) (f m : Bool)
      → measure left (won s f m) ≡ 0
      → measure right (won s f m) ≡ 0
      → won s f m ≡ won s true true
  finished left true true e g = refl
  finished left false m e g = absurd (omega arith)
  finished left true false e g = absurd (omega arith)
  finished right true true e g = refl
  finished right false m e g = absurd (omega arith)
  finished right true false e g = absurd (omega arith)

  pub race-run :
      (s : Side) (ss : List Side)
      → (f : Bool) × (m : Bool) × (run step (s ∷ ss) (at start) ≡ some (at (won s f m)))
  race-run s ss =
      let (f, m, e) = nexts-won ss s false false in
      (f, m, run-at step at next follows (s ∷ ss) start ∙ ap (λ ph. some (at ph)) e)

  -- Two turns of each side are enough.
  pub race-over :
      (s : Side) (ss : List Side)
      → 2 ≤ turns left (s ∷ ss)
      → 2 ≤ turns right (s ∷ ss)
      → run step (s ∷ ss) (at start) ≡ some (at (won s true true))
  race-over s ss l r =
      let (f, m, e) = nexts-won ss s false false in
      run-at step at next follows (s ∷ ss) start
      ∙ ap (λ ph. some (at ph))
          (e
            ∙ finished s f m
                (omega (
                  arith,
                  ap (measure left) e,
                  nexts-measure step at next measure next-IsMeasure (s ∷ ss) start left,
                ))
                (omega (
                  arith,
                  ap (measure right) e,
                  nexts-measure step at next measure next-IsMeasure (s ∷ ss) start right,
                )))
