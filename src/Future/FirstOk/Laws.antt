-- ===== src/Future/FirstOk/Laws.antt =====
-- `FirstOk` of source/future/combine/concur/result/first.hpp sets its promise once: to the first
-- success, or to the last error.
use cpp_concurrency.Base.{
  ℕ, ◌-◌, ◌≤◌, ◌≡◌, refl, ap, sym, subst, ◌∙◌, Bool, true, false, some, List, [], ◌∷◌, arith,
  if◌then◌else◌,
}
use cpp_concurrency.Future.Interleave.{
  Side, left, right, other, Pc, ready, chosen, ended, pc_of, turns, run, run-at, nexts,
  nexts-measure, IsMeasure,
}
use cpp_concurrency.Future.Promise.{Promise, fresh}
use cpp_concurrency.Future.FirstOk.{World, step, init}
use cpp_concurrency.Result.{Result, ok, err}

-- Which callbacks have made their exchange, the earlier one first; a flag tells that a callback has
-- had a turn after it.
data Phase : Type 0 where
  start : Phase
  one : (first : Side) (finished : Bool) → Phase
  two : (first : Side) (finished other_finished : Bool) → Phase

abbrev next : Side → Phase → Phase
next s start = one s false
next left (one left f) = one left true
next right (one left f) = two left f false
next left (one right f) = two right f false
next right (one right f) = one right true
next left (two left f g) = two left true g
next right (two left f g) = two left f true
next left (two right f g) = two right f true
next right (two right f g) = two right true g

abbrev unfinished : Bool → ℕ
unfinished false = 1
unfinished true = 0

abbrev measure : Side → Phase → ℕ
measure s start = 2
measure left (one left f) = unfinished f
measure right (one left f) = 2
measure left (one right f) = 2
measure right (one right f) = unfinished f
measure left (two left f g) = unfinished f
measure right (two left f g) = unfinished g
measure left (two right f g) = unfinished g
measure right (two right f g) = unfinished f

next-IsMeasure : IsMeasure next measure
next-IsMeasure = record { falls = falls; stays = stays }
  where
    falls : (s : Side) (ph : Phase) → measure s (next s ph) ≤ measure s ph - 1
    falls left start = ground arith
    falls left (one left f) = ground arith
    falls left (two left f g) = ground arith
    falls left (one right f) = ground arith
    falls left (two right f g) = ground arith
    falls right start = ground arith
    falls right (one left f) = ground arith
    falls right (two left f g) = ground arith
    falls right (one right f) = ground arith
    falls right (two right f g) = ground arith

    stays : (s : Side) (ph : Phase) → measure (other s) (next s ph) ≤ measure (other s) ph
    stays left start = ground arith
    stays left (one left f) = ground arith
    stays left (two left f g) = ground arith
    stays left (one right f) = ground arith
    stays left (two right f g) = ground arith
    stays right start = ground arith
    stays right (one left f) = ground arith
    stays right (two left f g) = ground arith
    stays right (one right f) = ground arith
    stays right (two right f g) = ground arith

all_finished :
    (ph : Phase) → measure left ph ≡ 0 → measure right ph ≡ 0 → (s : Side) × (ph ≡ two s true true)
all_finished start e f = absurd (omega arith)
all_finished (one left g) e f = absurd (omega arith)
all_finished (one right g) e f = absurd (omega arith)
all_finished (two left true true) e f = (left, refl)
all_finished (two right true true) e f = (right, refl)
all_finished (two left false g) e f = absurd (omega arith)
all_finished (two right false g) e f = absurd (omega arith)
all_finished (two left true false) e f = absurd (omega arith)
all_finished (two right true false) e f = absurd (omega arith)

-- The side that made its exchange first stays so.
abbrev Begun : Side → Phase → Type 0
Begun s start = ⊥
Begun s (one t f) = s ≡ t
Begun s (two t f g) = s ≡ t

Begun-next : (s t : Side) (ph : Phase) → Begun s ph → Begun s (next t ph)
Begun-next s left (one left f) b = b
Begun-next s right (one left f) b = b
Begun-next s left (one right f) b = b
Begun-next s right (one right f) b = b
Begun-next s left (two left f g) b = b
Begun-next s right (two left f g) b = b
Begun-next s left (two right f g) b = b
Begun-next s right (two right f g) b = b
Begun-next s t start b = absurd b

Begun-start : (s : Side) → Begun s (next s start)
Begun-start s = refl

module _ {ℓ} {T E : Type ℓ} where
  -- Of two results in the order in which they arrive, the first success, or else the last error.
  abbrev pub first_success : Result T E → Result T E → Result T E
  first_success (ok v) y = ok v
  first_success (err e) y = y

  abbrev code : Result T E → ℕ
  code (ok v) = 1
  code (err e) = 2

  abbrev first_pc : Result T E → Bool → Pc
  first_pc (ok v) f = if f then ended else chosen
  first_pc (err e) f = ended

  abbrev second_pc : Result T E → Bool → Pc
  second_pc (ok v) g = ended
  second_pc (err e) g = if g then ended else chosen

  abbrev promised : Result T E → Bool → Promise (Result T E)
  promised x false = fresh
  promised x true = record { holds_state = false; produced = x ∷ [] }

  abbrev promised_one : Result T E → Bool → Promise (Result T E)
  promised_one (ok v) f = promised (ok v) f
  promised_one (err e) f = fresh

  abbrev promised_two : Result T E → Result T E → Bool → Bool → Promise (Result T E)
  promised_two (ok v) y f g = promised (ok v) f
  promised_two (err e) y f g = promised y g

  module _ (x y : Result T E) where
    abbrev world : Phase → World T E
    world start = record { state = 0; promise = fresh; first = ready; second = ready }
    world (one left f) = record {
      state = code x;
      promise = promised_one x f;
      first = first_pc x f;
      second = ready;
    }
    world (one right f) = record {
      state = code y;
      promise = promised_one y f;
      first = ready;
      second = first_pc y f;
    }
    world (two left f g) = record {
      state = code y;
      promise = promised_two x y f g;
      first = first_pc x f;
      second = second_pc x g;
    }
    world (two right f g) = record {
      state = code x;
      promise = promised_two y x f g;
      first = second_pc y g;
      second = first_pc y f;
    }

  follows :
      (x y : Result T E) (s : Side) (ph : Phase)
      → step x y s (world x y ph) ≡ some (world x y (next s ph))
  unfolding step
  follows x y left start = ground arith
  follows x y left (one left f) = ground arith
  follows x y left (two left f g) = ground arith
  follows x y left (one right f) = ground arith
  follows x y left (two right f g) = ground arith
  follows x y right start = ground arith
  follows x y right (one left f) = ground arith
  follows x y right (two left f g) = ground arith
  follows x y right (one right f) = ground arith
  follows x y right (two right f g) = ground arith

  init-world : (x y : Result T E) → init ≡ world x y start
  unfolding init
  init-world x y = refl

  nexts-Begun :
      (x y : Result T E) (s : Side) (ss : List Side) (ph : Phase)
      → Begun s ph
      → Begun s (nexts (step x y) (world x y) next ss ph)
  nexts-Begun x y s [] ph b = b
  nexts-Begun x y s (t ∷ ss) ph b = nexts-Begun x y s ss (next t ph) (Begun-next s t ph b)

  promised_two-success :
      (x y : Result T E)
      → promised_two x y true true
        ≡ record { holds_state = false; produced = first_success x y ∷ [] }
  promised_two-success (ok v) y = refl
  promised_two-success (err e) y = refl

  outcome :
      (x y : Result T E) (s : Side)
      → (world x y (two s true true)).promise ≡ record {
        holds_state = false;
        produced = first_success (pc_of s x y) (pc_of (other s) x y) ∷ [];
      }
  outcome x y left = promised_two-success x y
  outcome x y right = promised_two-success y x

  -- `FirstOk` of two futures with results `x` and `y`, on a schedule that starts with the side `s`
  -- and has two turns for each callback: no step faults, and the promise is set once, to the first
  -- success in the order of arrival, or to the last error if both fail.
  pub first_ok_complete :
      (x y : Result T E) (s : Side) (ss : List Side)
      → 2 ≤ turns left (s ∷ ss)
      → 2 ≤ turns right (s ∷ ss)
      → (w : World T E) × (run (step x y) (s ∷ ss) init ≡ some w)
        × (w.promise ≡ record {
          holds_state = false;
          produced = first_success (pc_of s x y) (pc_of (other s) x y) ∷ [];
        })
  first_ok_complete x y s ss l r =
      let end : Phase = nexts (step x y) (world x y) next (s ∷ ss) start in
      let (t, e) =
        all_finished end
          (omega (
            arith,
            nexts-measure (step x y) (world x y) next measure next-IsMeasure (s ∷ ss) start left,
          ))
          (omega (
            arith,
            nexts-measure (step x y) (world x y) next measure next-IsMeasure (s ∷ ss) start right,
          )) in
      let same : s ≡ t = subst (Begun s) e (nexts-Begun x y s ss (next s start) (Begun-start s)) in
      (
        world x y (two s true true),
        ap (run (step x y) (s ∷ ss)) (init-world x y)
            ∙ (run-at (step x y) (world x y) next (follows x y) (s ∷ ss) start)
            ∙ ap (λ ph. some (world x y ph)) (e ∙ ap (λ u. two u true true) (sym same)),
        outcome x y s,
      )
