-- ===== src/Chan/Rendezvous/Pipe.antt =====
-- The rendezvous channel of source/fiber/chan/rendezvous.hpp implements a pipe.
use mathlib.Core.List.{map-append}
use cpp_concurrency.Base.{ℕ, ◌≡◌, refl, subst, Option, some, List, [], ◌∷◌, ◌++◌, map}
use cpp_concurrency.Chan.Waiter.{sent_to, received_by}
use cpp_concurrency.Chan.Rendezvous.{Channel, make, send, receive}
use cpp_concurrency.Chan.Rendezvous.Laws.{
  Sending, Receiving, send-handed, send-parked, receive-took, receive-parked, make-Sending, idle,
}
use cpp_concurrency.Chan.Spec.{Pipe, spec_send, spec_receive, IsChannel, deliver}

module _ {ℓ} {A : Type ℓ} where
  pub send_step : ℕ → A → Channel A → Option (Option (ℕ × A) × Channel A)
  send_step f v c = deliver sent_to (send f v c)

  pub receive_step : ℕ → Channel A → Option (Option (ℕ × A) × Channel A)
  receive_step f c = deliver (received_by f) (receive f c)

  -- On their way are the values of the senders that wait.
  pub data Shows (c : Channel A) : Pipe A → Type ℓ where
    sending :
        (ss : List (ℕ × A))
        → Sending c ss
        → Shows c (record { values = map (λ s. s.1) ss; waiting = [] })
    receiving : (rs : List ℕ) → Receiving c rs → Shows c (record { values = []; waiting = rs })

  Shows-send :
      (f : ℕ) (v : A) (c : Channel A) (p : Pipe A)
      → Shows c p
      → (c' : Channel A) × (send_step f v c ≡ some ((spec_send v p).0, c'))
        × Shows c' (spec_send v p).1
  unfolding send_step
  Shows-send f v c _ (sending ss w) =
      let (c', e, w') = send-parked f v c ss w in
      (
        c',
        rw e refl,
        subst (λ vs. Shows c' (record { values = vs; waiting = [] }))
            (map-append (λ s. s.1) ss ((f, v) ∷ [])) (sending (ss ++ (f, v) ∷ []) w'),
      )
  Shows-send f v c _ (receiving [] w) =
      let (c', e, w') = send-parked f v c [] ((idle c).1 w) in
      (c', rw e refl, sending ((f, v) ∷ []) w')
  Shows-send f v c _ (receiving (r ∷ rs) w) =
      let (c', e, w') = send-handed f v c r rs w in (c', rw e refl, receiving rs w')

  Shows-receive :
      (f : ℕ) (c : Channel A) (p : Pipe A)
      → Shows c p
      → (c' : Channel A) × (receive_step f c ≡ some ((spec_receive f p).0, c'))
        × Shows c' (spec_receive f p).1
  unfolding receive_step
  Shows-receive f c _ (sending [] w) =
      let (c', e, w') = receive-parked f c [] ((idle c).0 w) in
      (c', rw e refl, receiving (f ∷ []) w')
  Shows-receive f c _ (sending ((g, v) ∷ ss) w) =
      let (c', e, w') = receive-took f g v c ss w in (c', rw e refl, sending ss w')
  Shows-receive f c _ (receiving rs w) =
      let (c', e, w') = receive-parked f c rs w in (c', rw e refl, receiving (rs ++ f ∷ []) w')

  pub make-Shows : Shows make (record { values = []; waiting = [] })
  make-Shows = sending [] make-Sending

  -- Every call of the channel does what the pipe does.
  pub channel : IsChannel send_step receive_step Shows
  channel = record { sends = Shows-send; receives = Shows-receive }
