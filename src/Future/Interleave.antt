-- ===== src/Future/Interleave.antt =====
-- Two sides that share memory, interleaved by a schedule.
use cpp_concurrency.Base.{ℕ, suc, ◌-◌, ◌≤◌, ◌≡◌, refl, Option, none, some, List, [], ◌∷◌, arith}

pub data Side : Type 0 where
  left right : Side

-- How far a side has come: before its first access, after it, chosen to finish the job, at its end.
pub data Pc : Type 0 where
  ready stored chosen ended : Pc

-- An upper bound on the steps that a side still has to take.
abbrev pub rank : Pc → ℕ
rank ready = 3
rank stored = 2
rank chosen = 1
rank ended = 0

abbrev pub pc_of {ℓ} : {A : Type ℓ} → Side → A → A → A
pc_of left l r = l
pc_of right l r = r

abbrev pub other : Side → Side
other left = right
other right = left

-- A storage that a side fills by its first access.
abbrev pub written {ℓ} : {A : Type ℓ} → A → Pc → Option A
written a ready = none
written a _ = some a

-- The number of turns of a side.
abbrev pub turns : Side → List Side → ℕ
turns s [] = 0
turns left (left ∷ ss) = suc (turns left ss)
turns left (right ∷ ss) = turns left ss
turns right (left ∷ ss) = turns right ss
turns right (right ∷ ss) = suc (turns right ss)

module _ {ℓ} {W : Type ℓ} (step : Side → W → Option W) where
  -- A run along a schedule. `none` is a fault.
  pub run : List Side → W → Option W
  run [] w = some w
  run (s ∷ ss) w = elim (step s w) [ none ↦ none | some w' ↦ run ss w' ]

  pub run-some :
      (s : Side) (ss : List Side) (w w' : W) → step s w ≡ some w' → run (s ∷ ss) w ≡ run ss w'
  unfolding run
  run-some s ss w w' e = rw (e, run) refl

  pub run-none : (s : Side) (ss : List Side) (w : W) → step s w ≡ none → run (s ∷ ss) w ≡ none
  unfolding run
  run-none s ss w e = rw (e, run) refl

-- A machine that moves among phases: `at` is the memory in a phase, and `next` the phase after a step.
module _ {ℓ} {W : Type ℓ} {Phase : Type 0} (step : Side → W → Option W) (at : Phase → W)
    (next : Side → Phase → Phase) where
  abbrev pub nexts : List Side → Phase → Phase
  nexts [] ph = ph
  nexts (s ∷ ss) ph = nexts ss (next s ph)

  -- Where each step follows the phases, so does every run: none faults.
  pub run-at :
      ((s : Side) (ph : Phase) → step s (at ph) ≡ some (at (next s ph)))
      → (ss : List Side) (ph : Phase) → run step ss (at ph) ≡ some (at (nexts ss ph))
  unfolding run
  run-at follows [] ph = refl
  run-at follows (s ∷ ss) ph = rw (follows s ph, run) (run-at follows ss (next s ph))

-- Each turn of a side brings it nearer to its end, and none of the other takes it away from it.
pub record IsMeasure {Phase : Type 0} (next : Side → Phase → Phase) (m : Side → Phase → ℕ)
    : Type 0 where
  pub falls : (s : Side) (ph : Phase) → m s (next s ph) ≤ m s ph - 1
  pub stays : (s : Side) (ph : Phase) → m (other s) (next s ph) ≤ m (other s) ph

module _ {ℓ} {W : Type ℓ} {Phase : Type 0} (step : Side → W → Option W) (at : Phase → W)
    (next : Side → Phase → Phase) (m : Side → Phase → ℕ) (measure : IsMeasure next m) where
  pub nexts-measure :
      (ss : List Side) (ph : Phase) (s : Side)
      → m s (nexts step at next ss ph) ≤ m s ph - turns s ss
  nexts-measure [] ph s = omega arith
  nexts-measure (left ∷ ss) ph left =
      omega (arith, nexts-measure ss (next left ph) left, measure.falls left ph)
  nexts-measure (right ∷ ss) ph right =
      omega (arith, nexts-measure ss (next right ph) right, measure.falls right ph)
  nexts-measure (left ∷ ss) ph right =
      omega (arith, nexts-measure ss (next left ph) right, measure.stays left ph)
  nexts-measure (right ∷ ss) ph left =
      omega (arith, nexts-measure ss (next right ph) left, measure.stays right ph)
