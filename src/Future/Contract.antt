-- ===== src/Future/Contract.antt =====
-- source/future/detail/rendezvous.hpp and source/future/detail/contract_state.hpp: a producer and a
-- consumer meet at a contract, whoever comes first.
pub mod Laws
use Prim.Native.Nat.{bit_or}
use cpp_concurrency.Base.{
  ℕ, Bool, true, false, Option, none, some, List, [], ◌∷◌, ◌++◌, ◌==◌, if◌then◌else◌,
}
use cpp_concurrency.Future.Interleave.{Side, left, right, Pc, ready, stored, chosen, ended}

-- `RendezvousStateMachine::Produce` and `Consume`: whether the two sides have met, and the new state.
pub produce : ℕ → Bool × ℕ
produce state = (state == 2, bit_or state 1)

pub consume : ℕ → Bool × ℕ
consume state = (state == 1, bit_or state 2)

-- `ContractState`, for callbacks of a type `K`. A storage is `none` before its `Emplace`. `calls`
-- are the calls of the callback, and `deleted` is `delete this`.
pub record ContractState {ℓ} (K T : Type ℓ) : Type ℓ where
  pub state : ℕ
  pub callback : Option K
  pub result : Option T
  pub calls : List (K × T)
  pub deleted : Bool

-- A contract, with its producer at the left, and its consumer at the right.
pub record World {ℓ} (K T : Type ℓ) : Type ℓ where
  pub contract : ContractState K T
  pub producer : Pc
  pub consumer : Pc

module _ {ℓ} {K T : Type ℓ} where
  -- `Rendezvous`. `none` is a read of a storage before its `Emplace`, or of a deleted contract.
  rendezvous : ContractState K T → Option (ContractState K T)
  rendezvous c = elim c.deleted [
    | true ↦ none
    | false ↦ elim c.callback [
      | none ↦ none
      | some k ↦ elim c.result [
        | none ↦ none
        | some v ↦ some (record c { calls = c.calls ++ (k, v) ∷ []; deleted = true })
      ]
    ]
  ]

  -- `ContractState::Produce(res)`, an access at a time.
  produce_step : T → World K T → Pc → Option (World K T)
  produce_step v w ready = elim (w.contract).deleted [
    | true ↦ none
    | false ↦
        some (record w { contract = record w.contract { result = some v }; producer = stored })
  ]
  produce_step v w stored = elim (w.contract).deleted [
    | true ↦ none
    | false ↦
        let (met, state) = produce (w.contract).state in
        some (record w {
          contract = record w.contract { state = state };
          producer = if met then chosen else ended;
        })
  ]
  produce_step v w chosen = elim (rendezvous w.contract) [
    | none ↦ none
    | some c ↦ some (record w { contract = c; producer = ended })
  ]
  produce_step v w ended = some w

  -- `ContractState::Consume(cb)`, an access at a time.
  consume_step : K → World K T → Pc → Option (World K T)
  consume_step k w ready = elim (w.contract).deleted [
    | true ↦ none
    | false ↦
        some (record w { contract = record w.contract { callback = some k }; consumer = stored })
  ]
  consume_step k w stored = elim (w.contract).deleted [
    | true ↦ none
    | false ↦
        let (met, state) = consume (w.contract).state in
        some (record w {
          contract = record w.contract { state = state };
          consumer = if met then chosen else ended;
        })
  ]
  consume_step k w chosen = elim (rendezvous w.contract) [
    | none ↦ none
    | some c ↦ some (record w { contract = c; consumer = ended })
  ]
  consume_step k w ended = some w

  pub step : K → T → Side → World K T → Option (World K T)
  unfolding produce_step consume_step rendezvous produce consume
  step k v left w = produce_step v w w.producer
  step k v right w = consume_step k w w.consumer

  -- `Contract()`
  pub init : World K T
  init = record {
    contract = record { state = 0; callback = none; result = none; calls = []; deleted = false };
    producer = ready;
    consumer = ready;
  }
