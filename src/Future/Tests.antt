-- ===== src/Future/Tests.antt =====
-- Schedules of the two sides of source/future.
use cpp_concurrency.Base.{ℕ, ◌≡◌, refl, inl, true, false, ◌&&◌, none, some, List, [], ◌∷◌, arith}
use cpp_concurrency.Result.{Result, ok, err, has_value}
use cpp_concurrency.Future.Interleave.{Side, left, right, run}
use cpp_concurrency.Future.Contract as Contract
use cpp_concurrency.Future.Contract.Laws.{contract_complete}
use cpp_concurrency.Future.BothOk as BothOk
use cpp_concurrency.Future.BothOk.Laws.{joined, both_ok_complete, both_ok_faults}
use cpp_concurrency.Future.FirstOk as FirstOk
use cpp_concurrency.Future.FirstOk.Laws.{first_ok_complete}

-- The sides in turn, the right one first.
abbrev in_turn : List Side
in_turn = right ∷ left ∷ right ∷ left ∷ right ∷ left ∷ []

contract_complete_example :
    (w : Contract.World ℕ ℕ) × (run (Contract.step 1 2) in_turn Contract.init ≡ some w)
    × ((w.contract).calls ≡ (1, 2) ∷ [])
    × ((w.contract).deleted ≡ true)
contract_complete_example = contract_complete 1 2 in_turn (omega arith) (omega arith)

abbrev value : Result ℕ ℕ
value = ok 1

abbrev error : Result ℕ ℕ
error = err 2

both_ok_complete_example :
    (w : BothOk.World ℕ ℕ ℕ) × (run (BothOk.step value error) in_turn BothOk.init ≡ some w)
    × (w.promise ≡ record { holds_state = false; produced = joined value error ∷ [] })
    × (BothOk.releases w ≡ (has_value value && has_value error))
both_ok_complete_example =
    both_ok_complete value error (inl refl) in_turn (omega arith) (omega arith)

both_ok_faults_example :
    run (BothOk.step {A = ℕ} {B = ℕ} {E = ℕ} (err 3) (err 2)) in_turn BothOk.init ≡ none
both_ok_faults_example = both_ok_faults 3 2 in_turn (omega arith) (omega arith)

first_ok_complete_example :
    (w : FirstOk.World ℕ ℕ) × (run (FirstOk.step value error) in_turn FirstOk.init ≡ some w)
    × (w.promise ≡ record { holds_state = false; produced = ok 1 ∷ [] })
first_ok_complete_example =
    first_ok_complete value error right (left ∷ right ∷ left ∷ right ∷ left ∷ []) (omega arith)
      (omega arith)
