-- ===== src/Future/BothOk/Laws.antt =====
-- What `BothOk` of source/future/combine/concur/result/all.hpp does when both futures succeed, when
-- one fails, and when both fail.
use cpp_concurrency.Base.{
  ◌+◌, ◌≤◌, ◌≡◌, refl, ◌⊎◌, Bool, true, false, ◌&&◌, none, some, List, [], ◌∷◌, arith, ◌∙◌,
  if◌then◌else◌,
}
use cpp_concurrency.Future.Interleave.{
  Side, left, right, ready, stored, ended, written, turns, run, run-some, run-none,
}
use cpp_concurrency.Future.Meet as Meet
use cpp_concurrency.Future.Apart as Apart
use cpp_concurrency.Future.Promise.{Promise, fresh}
use cpp_concurrency.Future.BothOk.{World, releases, step, init}
use cpp_concurrency.Result.{Result, ok, err, has_value}

-- The promise, once a side has reported the error `e`.
abbrev failed {ℓ} : (A B : Type ℓ) {E : Type ℓ} → E → Apart.Stage → Promise (Result (A × B) E)
failed A B e Apart.first_step = fresh
failed A B e _ = record { holds_state = false; produced = err e ∷ [] }

module _ {ℓ} {A B E : Type ℓ} where
  -- Both values are there.
  module _ (a : A) (b : B) where
    abbrev promised : Meet.Phase → Promise (Result (A × B) E)
    promised Meet.over = record { holds_state = false; produced = ok (a, b) ∷ [] }
    promised _ = fresh

    abbrev world : Meet.Phase → World A B E
    world ph = record {
      v1 = written a (Meet.pc left ph);
      v2 = written b (Meet.pc right ph);
      promise = promised ph;
      state = Meet.announced ph;
      first = Meet.pc left ph;
      second = Meet.pc right ph;
    }

    ok_follows :
        (s : Side) (ph : Meet.Phase)
        → step (ok a) (ok b) s (world ph) ≡ some (world (Meet.next s ph))
    unfolding step
    ok_follows left (Meet.before false r) = refl
    ok_follows left (Meet.before true r) = refl
    ok_follows left (Meet.left_ended r) = refl
    ok_follows left (Meet.right_ended false) = refl
    ok_follows left (Meet.right_ended true) = refl
    ok_follows left Meet.left_chosen = refl
    ok_follows left Meet.right_chosen = refl
    ok_follows left Meet.over = refl
    ok_follows right (Meet.before l false) = refl
    ok_follows right (Meet.before l true) = refl
    ok_follows right (Meet.right_ended l) = refl
    ok_follows right (Meet.left_ended false) = refl
    ok_follows right (Meet.left_ended true) = refl
    ok_follows right Meet.left_chosen = refl
    ok_follows right Meet.right_chosen = refl
    ok_follows right Meet.over = refl

    ok_over :
        (ss : List Side)
        → 3 ≤ turns left ss
        → 3 ≤ turns right ss
        → run (step (ok a) (ok b)) ss init ≡ some (world Meet.over)
    unfolding init
    ok_over ss l r = Meet.meet-over (step (ok a) (ok b)) world ok_follows ss l r

  -- Only the left future fails.
  module _ (e : E) (b : B) where
    abbrev left_failed : Apart.Phase → World A B E
    left_failed (Apart.at l r) = record {
      v1 = none;
      v2 = written b (Apart.pc r);
      promise = failed A B e l;
      state = Apart.bit_at 4 l + Apart.bit_at 2 r;
      first = Apart.pc l;
      second = Apart.pc r;
    }

    left_failed_follows :
        (s : Side) (ph : Apart.Phase)
        → step (err e) (ok b) s (left_failed ph) ≡ some (left_failed (Apart.next s ph))
    unfolding step
    left_failed_follows left (Apart.at Apart.first_step r) = refl
    left_failed_follows left (Apart.at Apart.second_step Apart.first_step) = refl
    left_failed_follows left (Apart.at Apart.second_step Apart.second_step) = refl
    left_failed_follows left (Apart.at Apart.second_step Apart.finished) = refl
    left_failed_follows left (Apart.at Apart.finished r) = refl
    left_failed_follows right (Apart.at l Apart.first_step) = refl
    left_failed_follows right (Apart.at Apart.first_step Apart.second_step) = refl
    left_failed_follows right (Apart.at Apart.second_step Apart.second_step) = refl
    left_failed_follows right (Apart.at Apart.finished Apart.second_step) = refl
    left_failed_follows right (Apart.at l Apart.finished) = refl

    left_failed_over :
        (ss : List Side)
        → 2 ≤ turns left ss
        → 2 ≤ turns right ss
        → run (step (err e) (ok b)) ss init
          ≡ some (left_failed (Apart.at Apart.finished Apart.finished))
    unfolding init
    left_failed_over ss l r =
        Apart.apart-over (step (err e) (ok b)) left_failed left_failed_follows ss l r

  -- Only the right future fails.
  module _ (a : A) (e : E) where
    abbrev right_failed : Apart.Phase → World A B E
    right_failed (Apart.at l r) = record {
      v1 = written a (Apart.pc l);
      v2 = none;
      promise = failed A B e r;
      state = Apart.bit_at 1 l + Apart.bit_at 4 r;
      first = Apart.pc l;
      second = Apart.pc r;
    }

    right_failed_follows :
        (s : Side) (ph : Apart.Phase)
        → step (ok a) (err e) s (right_failed ph) ≡ some (right_failed (Apart.next s ph))
    unfolding step
    right_failed_follows right (Apart.at l Apart.first_step) = refl
    right_failed_follows right (Apart.at Apart.first_step Apart.second_step) = refl
    right_failed_follows right (Apart.at Apart.second_step Apart.second_step) = refl
    right_failed_follows right (Apart.at Apart.finished Apart.second_step) = refl
    right_failed_follows right (Apart.at l Apart.finished) = refl
    right_failed_follows left (Apart.at Apart.first_step r) = refl
    right_failed_follows left (Apart.at Apart.second_step Apart.first_step) = refl
    right_failed_follows left (Apart.at Apart.second_step Apart.second_step) = refl
    right_failed_follows left (Apart.at Apart.second_step Apart.finished) = refl
    right_failed_follows left (Apart.at Apart.finished r) = refl

    right_failed_over :
        (ss : List Side)
        → 2 ≤ turns left ss
        → 2 ≤ turns right ss
        → run (step (ok a) (err e)) ss init
          ≡ some (right_failed (Apart.at Apart.finished Apart.finished))
    unfolding init
    right_failed_over ss l r =
        Apart.apart-over (step (ok a) (err e)) right_failed right_failed_follows ss l r

  -- The pair of the values, or the error.
  abbrev pub joined : Result A E → Result B E → Result (A × B) E
  joined (ok a) (ok b) = ok (a, b)
  joined (ok a) (err e) = err e
  joined (err e) y = err e

  -- `BothOk` of two futures of which one at least succeeds, after three turns of each callback on
  -- any schedule: no step faults, the promise has been set once, to the pair of the values or to
  -- the error, and both storages that are then destroyed hold an object only if both futures
  -- succeeded.
  pub both_ok_complete :
      (x : Result A E) (y : Result B E)
      → (has_value x ≡ true) ⊎ (has_value y ≡ true)
      → (ss : List Side) → 3 ≤ turns left ss
      → 3 ≤ turns right ss
      → (w : World A B E) × (run (step x y) ss init ≡ some w)
        × (w.promise ≡ record { holds_state = false; produced = joined x y ∷ [] })
        × (releases w ≡ (has_value x && has_value y))
  both_ok_complete (ok a) (ok b) one ss l r = (_, ok_over a b ss l r, refl, refl)
  both_ok_complete (ok a) (err e) one ss l r =
      (_, right_failed_over a e ss (omega arith) (omega arith), refl, refl)
  both_ok_complete (err e) (ok b) one ss l r =
      (_, left_failed_over e b ss (omega arith) (omega arith), refl, refl)
  both_ok_complete (err e) (err e') one ss l r = absurd (ground arith)

  -- One of two failing futures has reported its error, and stands anywhere behind that.
  module _ (e e' : E) where
    abbrev left_reported : Bool → World A B E
    left_reported at_end = record {
      v1 = none;
      v2 = none;
      promise = record { holds_state = false; produced = err e ∷ [] };
      state = if at_end then 4 else 0;
      first = if at_end then ended else stored;
      second = ready;
    }

    abbrev right_reported : Bool → World A B E
    right_reported at_end = record {
      v1 = none;
      v2 = none;
      promise = record { holds_state = false; produced = err e' ∷ [] };
      state = if at_end then 4 else 0;
      first = ready;
      second = if at_end then ended else stored;
    }

    left_reported-faults :
        (ss : List Side) (d : Bool)
        → 1 ≤ turns right ss
        → run (step (err e) (err e')) ss (left_reported d) ≡ none
    unfolding step
    left_reported-faults [] d h = absurd (omega arith)
    left_reported-faults (right ∷ ss) d h = run-none (step (err e) (err e')) right ss _ refl
    left_reported-faults (left ∷ ss) false h =
        run-some (step (err e) (err e')) left ss (left_reported false) (left_reported true) refl
        ∙ left_reported-faults ss true h
    left_reported-faults (left ∷ ss) true h =
        run-some (step (err e) (err e')) left ss (left_reported true) (left_reported true) refl
        ∙ left_reported-faults ss true h

    right_reported-faults :
        (ss : List Side) (d : Bool)
        → 1 ≤ turns left ss
        → run (step (err e) (err e')) ss (right_reported d) ≡ none
    unfolding step
    right_reported-faults [] d h = absurd (omega arith)
    right_reported-faults (left ∷ ss) d h = run-none (step (err e) (err e')) left ss _ refl
    right_reported-faults (right ∷ ss) false h =
        run-some (step (err e) (err e')) right ss (right_reported false) (right_reported true) refl
        ∙ right_reported-faults ss true h
    right_reported-faults (right ∷ ss) true h =
        run-some (step (err e) (err e')) right ss (right_reported true) (right_reported true) refl
        ∙ right_reported-faults ss true h

    -- If both futures of `BothOk` fail, every schedule on which each callback has a turn faults:
    -- the second callback sets a promise that has given its state away.
    pub both_ok_faults :
        (ss : List Side)
        → 1 ≤ turns left ss
        → 1 ≤ turns right ss
        → run (step {A = A} {B = B} (err e) (err e')) ss init ≡ none
    unfolding step init
    both_ok_faults [] l r = absurd (omega arith)
    both_ok_faults (left ∷ ss) l r =
        run-some (step (err e) (err e')) left ss init (left_reported false) refl
        ∙ left_reported-faults ss false r
    both_ok_faults (right ∷ ss) l r =
        run-some (step (err e) (err e')) right ss init (right_reported false) refl
        ∙ right_reported-faults ss false l
