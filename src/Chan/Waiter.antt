-- ===== src/Chan/Waiter.antt =====
-- source/fiber/chan/detail/state.hpp: the fibers that wait at a channel.
use cpp_concurrency.Base.{
  ℕ, ◌≡◌, refl, ◌⊎◌, inl, inr, Option, none, some, List, [], ◌∷◌, ◌++◌, is_empty, if◌then◌else◌,
}

-- `States`
pub data States : Type 0 where
  nobody senders receivers : States

-- `WaiterNode`. `message` is what the pointer leads to: the value of a sender, raw storage (`none`)
-- of a receiver.
pub record Waiter {ℓ} (A : Type ℓ) : Type ℓ where
  pub handle : ℕ
  pub message : Option A

-- How a call of `Send` ends: the value is in the buffer, or constructed in the oldest receiver, which
-- is scheduled, or the fiber is suspended.
pub data Sent {ℓ} (A : Type ℓ) : Type ℓ where
  stored : Sent A
  handed : (receiver : ℕ) (value : A) → Sent A
  send_parked : Sent A

-- How a call of `Receive` ends: it returns a value, and may have scheduled a sender, or the fiber is
-- suspended.
pub data Received {ℓ} (A : Type ℓ) : Type ℓ where
  took : (value : A) (woken : Option ℕ) → Received A
  receive_parked : Received A

-- `if (waiters_.IsEmpty()) { state_ = States::Nobody; }`
abbrev pub settle {ℓ} : {A : Type ℓ} → List (Waiter A) → States → States
settle waiters state = if is_empty waiters then nobody else state

module _ {ℓ} {A : Type ℓ} where
  -- A sender at the wait queue, with its value; and a receiver.
  abbrev pub sender_node : ℕ × A → Waiter A
  sender_node s = record { handle = s.0; message = some s.1 }

  abbrev pub receiver_node : ℕ → Waiter A
  receiver_node r = record { handle = r; message = none }

  pub settle-snoc :
      (ws : List (Waiter A)) (w : Waiter A) (st : States) → settle (ws ++ w ∷ []) st ≡ st
  settle-snoc [] w st = refl
  settle-snoc (x ∷ ws) w st = refl

  pub settle-cases :
      (ws : List (Waiter A)) (st : States) → (settle ws st ≡ nobody) ⊎ (settle ws st ≡ st)
  settle-cases [] st = inl refl
  settle-cases (w ∷ ws) st = inr refl

  -- The fiber that a call gives a value to, with the value.
  abbrev pub sent_to : Sent A → Option (ℕ × A)
  sent_to stored = none
  sent_to (handed r v) = some (r, v)
  sent_to send_parked = none

  abbrev pub received_by : ℕ → Received A → Option (ℕ × A)
  received_by f (took v woken) = some (f, v)
  received_by f receive_parked = none
