-- ===== src/Chan/Rendezvous/Laws.antt =====
-- What the calls of source/fiber/chan/detail/rendezvous_channel_state.hpp do, on every branch.
use mathlib.Core.List.{map-append}
use cpp_concurrency.Base.{
  ℕ, ◌≡◌, refl, ap, sym, ◌∙◌, ◌⊎◌, inl, inr, ◌↔◌, Bool-cases, some, List, [], ◌∷◌, ◌++◌, map,
  is_empty, if◌then◌else◌,
}
use cpp_concurrency.Chan.Waiter.{
  nobody, senders, receivers, settle, settle-snoc, sender_node, receiver_node, handed, send_parked,
  took, receive_parked,
}
use cpp_concurrency.Chan.Rendezvous.{
  Channel, make, send, receive, send_in, receive_in, send_to_receiver, park_sender,
  take_from_sender, park_receiver,
}

module _ {ℓ} {A : Type ℓ} where
  -- The senders `ss` wait at the channel, each with its value, the oldest first.
  pub record Sending (c : Channel A) (ss : List (ℕ × A)) : Type ℓ where
    pub queue : c.waiters ≡ map sender_node ss
    pub status : c.state ≡ settle c.waiters senders

  -- The receivers `rs` wait at the channel, the oldest first.
  pub record Receiving (c : Channel A) (rs : List ℕ) : Type ℓ where
    pub queue : c.waiters ≡ map receiver_node rs
    pub status : c.state ≡ settle c.waiters receivers

  pub make-Sending : Sending make []
  unfolding make
  make-Sending = record { queue = refl; status = refl }

  -- A channel where nobody waits can be read either way.
  pub idle : (c : Channel A) → Sending c [] ↔ Receiving c []
  idle c = (
    λ w. record { queue = w.queue; status = w.status ∙ rw w.queue refl },
    λ w. record { queue = w.queue; status = w.status ∙ rw w.queue refl },
  )

  -- A value goes to the fiber that has waited longest for one.
  pub send-handed :
      (f : ℕ) (v : A) (c : Channel A) (r : ℕ) (rs : List ℕ)
      → Receiving c (r ∷ rs)
      → (c' : Channel A) × (send f v c ≡ some (handed r v, c')) × Receiving c' rs
  unfolding send
  send-handed f v c r rs w =
      let status : c.state ≡ receivers = w.status ∙ ap (λ q. settle q receivers) w.queue in
      (
        record { waiters = map receiver_node rs; state = settle (map receiver_node rs) receivers },
        rw (status, send_in, send_to_receiver, w.queue) refl,
        record { queue = refl; status = refl },
      )

  Sending-state :
      (c : Channel A) (ss : List (ℕ × A)) → Sending c ss → (c.state ≡ nobody) ⊎ (c.state ≡ senders)
  Sending-state c ss w = elim (Bool-cases (is_empty c.waiters)) [
    | inl e ↦ inl (w.status ∙ ap (λ b. if b then nobody else senders) e)
    | inr e ↦ inr (w.status ∙ ap (λ b. if b then nobody else senders) e)
  ]

  Receiving-state :
      (c : Channel A) (rs : List ℕ) → Receiving c rs → (c.state ≡ nobody) ⊎ (c.state ≡ receivers)
  Receiving-state c rs w = elim (Bool-cases (is_empty c.waiters)) [
    | inl e ↦ inl (w.status ∙ ap (λ b. if b then nobody else receivers) e)
    | inr e ↦ inr (w.status ∙ ap (λ b. if b then nobody else receivers) e)
  ]

  -- Where no receiver waits, the sender does, behind those that came before.
  pub send-parked :
      (f : ℕ) (v : A) (c : Channel A) (ss : List (ℕ × A))
      → Sending c ss
      → (c' : Channel A) × (send f v c ≡ some (send_parked, c')) × Sending c' (ss ++ (f, v) ∷ [])
  unfolding send
  send-parked f v c ss w = (
    record { waiters = c.waiters ++ sender_node (f, v) ∷ []; state = senders },
    elim (Sending-state c ss w) [
      | inl e ↦ rw (e, send_in, park_sender) refl
      | inr e ↦ rw (e, send_in, park_sender) refl
    ],
    record {
      queue = rw w.queue (sym (map-append sender_node ss ((f, v) ∷ [])));
      status = sym (settle-snoc c.waiters (sender_node (f, v)) senders);
    },
  )

  -- A receiver takes the value of the fiber that has waited longest to send one, and wakes it.
  pub receive-took :
      (f g : ℕ) (v : A) (c : Channel A) (ss : List (ℕ × A))
      → Sending c ((g, v) ∷ ss)
      → (c' : Channel A) × (receive f c ≡ some (took v (some g), c')) × Sending c' ss
  unfolding receive
  receive-took f g v c ss w =
      let status : c.state ≡ senders = w.status ∙ ap (λ q. settle q senders) w.queue in
      (
        record { waiters = map sender_node ss; state = settle (map sender_node ss) senders },
        rw (status, receive_in, take_from_sender, w.queue) refl,
        record { queue = refl; status = refl },
      )

  pub receive-parked :
      (f : ℕ) (c : Channel A) (rs : List ℕ)
      → Receiving c rs
      → (c' : Channel A) × (receive f c ≡ some (receive_parked, c')) × Receiving c' (rs ++ f ∷ [])
  unfolding receive
  receive-parked f c rs w = (
    record { waiters = c.waiters ++ receiver_node f ∷ []; state = receivers },
    elim (Receiving-state c rs w) [
      | inl e ↦ rw (e, receive_in, park_receiver) refl
      | inr e ↦ rw (e, receive_in, park_receiver) refl
    ],
    record {
      queue = rw w.queue (sym (map-append receiver_node rs (f ∷ [])));
      status = sym (settle-snoc c.waiters (receiver_node f) receivers);
    },
  )
