-- ===== src/Chan/Buffered.antt =====
-- source/fiber/chan/detail/buffered_channel_state.hpp, which source/fiber/chan/buffered.hpp shares
-- between its copies. `none` is a failed assertion or a read of memory without an object.
pub mod Laws
pub mod Pipe
use cpp_concurrency.Base.{ℕ, Option, none, some, List, [], ◌∷◌, ◌++◌, if◌then◌else◌, ◌==◌}
use cpp_concurrency.Chan.Waiter.{
  States, nobody, senders, receivers, Waiter, settle, Sent, stored, handed, send_parked, Received,
  took, receive_parked,
}
use cpp_concurrency.Chan.CircularBuffer
use cpp_concurrency.Chan.CircularBuffer.{CircularBuffer}

-- `BufferedChannelState`
pub record Channel {ℓ} (A : Type ℓ) : Type ℓ where
  pub buffer : CircularBuffer A
  pub waiters : List (Waiter A)
  pub state : States

module _ {ℓ} {A : Type ℓ} where
  -- `BufferedChannelState(size_t capacity)`
  pub make : ℕ → Option (Channel A)
  make capacity =
      if capacity == 0
      then none
      else some (record { buffer = CircularBuffer.make capacity; waiters = []; state = nobody })

  -- `Send` where a receiver waits.
  send_to_receiver : A → Channel A → Option (Sent A × Channel A)
  send_to_receiver v c = elim c.waiters [
    | [] ↦ none
    | w ∷ rest ↦ some (handed w.handle v, record c { waiters = rest; state = settle rest c.state })
  ]

  -- `Send` where none waits.
  send_to_buffer : ℕ → A → Channel A → Option (Sent A × Channel A)
  send_to_buffer f v c =
      let parked : Waiter A = record { handle = f; message = some v } in
      if CircularBuffer.is_full c.buffer
      then some (send_parked, record c { waiters = c.waiters ++ parked ∷ []; state = senders })
      else (elim (CircularBuffer.emplace v c.buffer) [
        | none ↦ none
        | some b ↦ some (stored, record c { buffer = b })
      ])

  send_in : States → ℕ → A → Channel A → Option (Sent A × Channel A)
  send_in receivers f v c = send_to_receiver v c
  send_in nobody f v c = send_to_buffer f v c
  send_in senders f v c = send_to_buffer f v c

  -- `Send`, called by the fiber `f`.
  pub send : ℕ → A → Channel A → Option (Sent A × Channel A)
  unfolding send_in send_to_receiver send_to_buffer
  send f v c = send_in c.state f v c

  -- `Receive`, once the value is taken: the oldest sender fills the buffer again.
  refill : A → Channel A → Option (Received A × Channel A)
  refill v c = elim c.waiters [
    | [] ↦ none
    | w ∷ rest ↦ elim w.message [
      | none ↦ none
      | some m ↦ elim (CircularBuffer.emplace m c.buffer) [
        | none ↦ none
        | some b ↦ some (
          took v (some w.handle),
          record { buffer = b; waiters = rest; state = settle rest c.state },
        )
      ]
    ]
  ]

  after_pop : States → A → Channel A → Option (Received A × Channel A)
  after_pop senders v c = refill v c
  after_pop nobody v c = some (took v none, c)
  after_pop receivers v c = some (took v none, c)

  -- `Receive`, called by the fiber `f`.
  pub receive : ℕ → Channel A → Option (Received A × Channel A)
  unfolding after_pop refill
  receive f c =
      let parked : Waiter A = record { handle = f; message = none } in
      if CircularBuffer.is_empty c.buffer
      then some (receive_parked, record c { waiters = c.waiters ++ parked ∷ []; state = receivers })
      else (elim (CircularBuffer.pop c.buffer) [
        | none ↦ none
        | some (v, b) ↦ after_pop c.state v (record c { buffer = b })
      ])
