-- ===== src/Chan/Buffered/Pipe.antt =====
-- The buffered channel of source/fiber/chan/buffered.hpp implements a pipe.
use mathlib.Core.List.{map-append, append-nil, append_assoc}
use cpp_concurrency.Base.{
  ℕ, ◌+◌, ◌-◌, ◌^◌, ◌<◌, ◌≡◌, refl, sym, inl, inr, Bool-cases, Option, none, some, List, [], ◌∷◌,
  ◌++◌, map, arith, ltb, length,
}
use cpp_concurrency.Chan.Waiter.{sent_to, received_by}
use cpp_concurrency.Chan.CircularBuffer
use cpp_concurrency.Chan.Buffered.{Channel, make, send, receive}
use cpp_concurrency.Chan.Buffered.Laws.{
  Sending, Receiving, send-handed, send-stored, send-parked, receive-took, receive-woke,
  receive-parked, make-Sending, idle,
}
use cpp_concurrency.Chan.Spec.{Pipe, spec_send, spec_receive, IsChannel, deliver}

module _ {ℓ} {A : Type ℓ} where
  pub send_step : ℕ → A → Channel A → Option (Option (ℕ × A) × Channel A)
  send_step f v c = deliver sent_to (send f v c)

  pub receive_step : ℕ → Channel A → Option (Option (ℕ × A) × Channel A)
  receive_step f c = deliver (received_by f) (receive f c)

  -- On their way are the values of the buffer, then those of the senders that wait.
  pub data Shows (c : Channel A) : Pipe A → Type ℓ where
    sending :
        (xs vs : List A) (ss : List (ℕ × A))
        → Sending c xs ss
        → vs ≡ xs ++ map (λ s. s.1) ss
        → Shows c (record { values = vs; waiting = [] })
    receiving : (rs : List ℕ) → Receiving c rs → Shows c (record { values = []; waiting = rs })

  send-Sending :
      (f : ℕ) (v : A) (c : Channel A) (xs vs : List A) (ss : List (ℕ × A))
      → Sending c xs ss
      → vs ≡ xs ++ map (λ s. s.1) ss
      → (c' : Channel A) × (send_step f v c ≡ some (none, c'))
        × Shows c' (record { values = vs ++ v ∷ []; waiting = [] })
  unfolding send_step
  send-Sending f v c xs vs [] w q = elim (Bool-cases (ltb (length xs) (c.buffer.capacity - 1))) [
    | inl room ↦
        let (c', e, w') = send-stored f v c xs w (ground arith) in
        (
          c',
          rw e refl,
          sending (xs ++ v ∷ []) (vs ++ v ∷ []) [] w'
              (rw (q, append-nil xs, append-nil (xs ++ v ∷ [])) refl),
        )
    | inr full ↦
        let (c', e, w') = send-parked f v c xs [] w (ground (arith, w.holds.room)) in
        (c', rw e refl, sending xs (vs ++ v ∷ []) ((f, v) ∷ []) w' (rw (q, append-nil xs) refl))
  ]
  send-Sending f v c xs vs (s ∷ ss) w q =
      let full : length xs ≡ c.buffer.capacity - 1 = ground (arith, w.full) in
      let (c', e, w') = send-parked f v c xs (s ∷ ss) w full in
      (
        c',
        rw e refl,
        sending xs (vs ++ v ∷ []) (s ∷ ss ++ (f, v) ∷ []) w' (
            rw (q, map-append (λ (z : ℕ × A). z.1) ss ((f, v) ∷ []))
              (append_assoc xs (map (λ z. z.1) (s ∷ ss)) (v ∷ []))),
      )

  Shows-send :
      (f : ℕ) (v : A) (c : Channel A) (p : Pipe A)
      → Shows c p
      → (c' : Channel A) × (send_step f v c ≡ some ((spec_send v p).0, c'))
        × Shows c' (spec_send v p).1
  unfolding send_step
  Shows-send f v c _ (sending xs vs ss w q) = send-Sending f v c xs vs ss w q
  Shows-send f v c _ (receiving [] w) = send-Sending f v c [] [] [] ((idle c).1 w) refl
  Shows-send f v c _ (receiving (r ∷ rs) w) =
      let (c', e, w') = send-handed f v c r rs w in (c', rw e refl, receiving rs w')

  receive-Sending :
      (f : ℕ) (c : Channel A) (x : A) (xs : List A) (ss : List (ℕ × A))
      → Sending c (x ∷ xs) ss
      → (c' : Channel A) × (receive_step f c ≡ some (some (f, x), c'))
        × Shows c' (record { values = xs ++ map (λ s. s.1) ss; waiting = [] })
  unfolding receive_step
  receive-Sending f c x xs [] w =
      let (c', e, w') = receive-took f x c xs w in (c', rw e refl, sending xs (xs ++ []) [] w' refl)
  receive-Sending f c x xs ((g, v) ∷ ss) w =
      let (c', e, w') = receive-woke f g x v c xs ss w in
      (
        c',
        rw e refl,
        sending (xs ++ v ∷ []) (xs ++ v ∷ map (λ s. s.1) ss) ss w'
            (sym (append_assoc xs (v ∷ []) (map (λ s. s.1) ss))),
      )

  receive_idle :
      (f : ℕ) (c : Channel A) (rs : List ℕ)
      → Receiving c rs
      → (c' : Channel A) × (receive_step f c ≡ some (none, c'))
        × Shows c' (record { values = []; waiting = rs ++ f ∷ [] })
  unfolding receive_step
  receive_idle f c rs w =
      let (c', e, w') = receive-parked f c rs w in (c', rw e refl, receiving (rs ++ f ∷ []) w')

  Shows-receive :
      (f : ℕ) (c : Channel A) (p : Pipe A)
      → Shows c p
      → (c' : Channel A) × (receive_step f c ≡ some ((spec_receive f p).0, c'))
        × Shows c' (spec_receive f p).1
  Shows-receive f c _ (sending (x ∷ xs) vs ss w q) = rw q (receive-Sending f c x xs ss w)
  Shows-receive f c _ (sending [] vs [] w q) = rw q (receive_idle f c [] ((idle c).0 w))
  Shows-receive f c _ (sending [] vs (s ∷ ss) w q) = absurd (ground (arith, w.full, w.roomy))
  Shows-receive f c _ (receiving rs w) = receive_idle f c rs w

  pub make-Shows :
      (n : ℕ)
      → 0 < n
      → n + 1 < 2 ^ 64
      → (c : Channel A) × (make n ≡ some c)
        × (c.buffer ≡ CircularBuffer.make n)
        × Shows c (record { values = []; waiting = [] })
  make-Shows n h small =
      let (c, e, b, w) = make-Sending n h small in (c, e, b, sending [] [] [] w refl)

  -- Every call of the channel does what the pipe does, whatever the capacity.
  pub channel : IsChannel send_step receive_step Shows
  channel = record { sends = Shows-send; receives = Shows-receive }
