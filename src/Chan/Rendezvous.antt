-- ===== src/Chan/Rendezvous.antt =====
-- source/fiber/chan/detail/rendezvous_channel_state.hpp, which source/fiber/chan/rendezvous.hpp
-- shares between its copies. `none` is a read of memory without an object.
pub mod Laws
pub mod Pipe
use cpp_concurrency.Base.{ℕ, Option, none, some, List, [], ◌∷◌, ◌++◌}
use cpp_concurrency.Chan.Waiter.{
  States, nobody, senders, receivers, Waiter, settle, Sent, handed, send_parked, Received, took,
  receive_parked,
}

-- `RendezvousChannelState`
pub record Channel {ℓ} (A : Type ℓ) : Type ℓ where
  pub waiters : List (Waiter A)
  pub state : States

module _ {ℓ} {A : Type ℓ} where
  pub make : Channel A
  make = record { waiters = []; state = nobody }

  -- `Send` where a receiver waits.
  send_to_receiver : A → Channel A → Option (Sent A × Channel A)
  send_to_receiver v c = elim c.waiters [
    | [] ↦ none
    | w ∷ rest ↦ some (handed w.handle v, record { waiters = rest; state = settle rest c.state })
  ]

  -- `Send` where none waits.
  park_sender : ℕ → A → Channel A → Option (Sent A × Channel A)
  park_sender f v c =
      let parked : Waiter A = record { handle = f; message = some v } in
      some (send_parked, record { waiters = c.waiters ++ parked ∷ []; state = senders })

  send_in : States → ℕ → A → Channel A → Option (Sent A × Channel A)
  send_in receivers f v c = send_to_receiver v c
  send_in nobody f v c = park_sender f v c
  send_in senders f v c = park_sender f v c

  -- `Send`, called by the fiber `f`.
  pub send : ℕ → A → Channel A → Option (Sent A × Channel A)
  unfolding send_in send_to_receiver park_sender
  send f v c = send_in c.state f v c

  -- `Receive` where a sender waits.
  take_from_sender : Channel A → Option (Received A × Channel A)
  take_from_sender c = elim c.waiters [
    | [] ↦ none
    | w ∷ rest ↦ elim w.message [
      | none ↦ none
      | some v ↦
          some (took v (some w.handle), record { waiters = rest; state = settle rest c.state })
    ]
  ]

  -- `Receive` where none waits.
  park_receiver : ℕ → Channel A → Option (Received A × Channel A)
  park_receiver f c =
      let parked : Waiter A = record { handle = f; message = none } in
      some (receive_parked, record { waiters = c.waiters ++ parked ∷ []; state = receivers })

  receive_in : States → ℕ → Channel A → Option (Received A × Channel A)
  receive_in senders f c = take_from_sender c
  receive_in nobody f c = park_receiver f c
  receive_in receivers f c = park_receiver f c

  -- `Receive`, called by the fiber `f`.
  pub receive : ℕ → Channel A → Option (Received A × Channel A)
  unfolding receive_in take_from_sender park_receiver
  receive f c = receive_in c.state f c
