-- ===== src/Chan/Buffered/Laws.antt =====
-- What the calls of source/fiber/chan/detail/buffered_channel_state.hpp do, on every branch.
use mathlib.Core.List.{map-append}
use cpp_concurrency.Base.{
  ℕ, suc, ◌+◌, ◌-◌, ◌^◌, ◌<◌, ◌≡◌, refl, ap, sym, ◌∙◌, ◌⊎◌, inl, inr, ◌↔◌, none, some, List, [],
  ◌∷◌, ◌++◌, map, arith, length, length-append,
}
use cpp_concurrency.Chan.Waiter.{
  nobody, senders, receivers, settle, settle-snoc, settle-cases, sender_node, receiver_node, stored,
  handed, send_parked, took, receive_parked,
}
use cpp_concurrency.Chan.CircularBuffer
use cpp_concurrency.Chan.CircularBuffer.{CircularBuffer}
use cpp_concurrency.Chan.CircularBuffer.Laws.{
  Holds, make-Holds, make-capacity, is_full-true, is_full-false, is_empty-true, is_empty-false,
  emplace-Holds, pop-Holds,
}
use cpp_concurrency.Chan.Buffered.{
  Channel, make, send, receive, send_in, send_to_receiver, send_to_buffer, after_pop, refill,
}

module _ {ℓ} {A : Type ℓ} where
  -- The values `xs` are in the buffer, and the senders `ss` wait, but only while it is full.
  pub record Sending (c : Channel A) (xs : List A) (ss : List (ℕ × A)) : Type ℓ where
    pub holds : Holds c.buffer xs
    pub queue : c.waiters ≡ map sender_node ss
    pub status : c.state ≡ settle c.waiters senders
    pub full : (ss ≡ []) ⊎ (length xs ≡ c.buffer.capacity - 1)
    pub roomy : 1 < c.buffer.capacity

  -- The buffer is empty and the receivers `rs` wait.
  pub record Receiving (c : Channel A) (rs : List ℕ) : Type ℓ where
    pub holds : Holds c.buffer []
    pub queue : c.waiters ≡ map receiver_node rs
    pub status : c.state ≡ settle c.waiters receivers
    pub roomy : 1 < c.buffer.capacity

  -- A new channel is empty. A capacity of 0 fails the assertion.
  pub make-Sending :
      (n : ℕ)
      → 0 < n
      → n + 1 < 2 ^ 64
      → (c : Channel A) × (make n ≡ some c) × (c.buffer ≡ CircularBuffer.make n) × Sending c [] []
  unfolding make
  make-Sending n h small = (
    record { buffer = CircularBuffer.make n; waiters = []; state = nobody },
    ground arith,
    refl,
    record {
      holds = make-Holds n small;
      queue = refl;
      status = refl;
      full = inl refl;
      roomy = omega (arith, make-capacity A n small);
    },
  )

  -- A channel that holds nothing and where nobody waits can be read either way.
  pub idle : (c : Channel A) → Sending c [] [] ↔ Receiving c []
  idle c = (
    λ w. record {
      holds = w.holds;
      queue = w.queue;
      status = w.status ∙ rw w.queue refl;
      roomy = w.roomy;
    },
    λ w. record {
      holds = w.holds;
      queue = w.queue;
      status = w.status ∙ rw w.queue refl;
      full = inl refl;
      roomy = w.roomy;
    },
  )

  -- The oldest receiver gets the value.
  pub send-handed :
      (f : ℕ) (v : A) (c : Channel A) (r : ℕ) (rs : List ℕ)
      → Receiving c (r ∷ rs)
      → (c' : Channel A) × (send f v c ≡ some (handed r v, c')) × Receiving c' rs
  unfolding send
  send-handed f v c r rs w =
      let status : c.state ≡ receivers = w.status ∙ ap (λ q. settle q receivers) w.queue in
      (
        record c {
          waiters = map receiver_node rs;
          state = settle (map receiver_node rs) receivers;
        },
        rw (status, send_in, send_to_receiver, w.queue) refl,
        record { holds = w.holds; queue = refl; status = refl; roomy = w.roomy },
      )

  send_in-buffer :
      (f : ℕ) (v : A) (c : Channel A) (xs : List A) (ss : List (ℕ × A))
      → Sending c xs ss
      → send f v c ≡ send_to_buffer f v c
  unfolding send
  send_in-buffer f v c xs ss w = elim (settle-cases c.waiters senders) [
    | inl e ↦ ap (λ st. send_in st f v c) (w.status ∙ e)
    | inr e ↦ ap (λ st. send_in st f v c) (w.status ∙ e)
  ]

  pub send-stored :
      (f : ℕ) (v : A) (c : Channel A) (xs : List A)
      → Sending c xs []
      → length xs < c.buffer.capacity - 1
      → (c' : Channel A) × (send f v c ≡ some (stored, c')) × Sending c' (xs ++ v ∷ []) []
  unfolding send_to_buffer
  send-stored f v c xs w room =
      let (b, e, cap, blank, h) = emplace-Holds v c.buffer xs w.holds room in
      (
        record c { buffer = b },
        send_in-buffer f v c xs [] w ∙ rw (is_full-false c.buffer xs w.holds room, e) refl,
        record {
          holds = h;
          queue = w.queue;
          status = w.status;
          full = inl refl;
          roomy = omega (arith, cap, w.roomy);
        },
      )

  -- `Send` on a full buffered channel leaves the buffer as it is and puts the fiber with its value
  -- behind the senders that wait.
  pub send-parked :
      (f : ℕ) (v : A) (c : Channel A) (xs : List A) (ss : List (ℕ × A))
      → Sending c xs ss
      → length xs ≡ c.buffer.capacity - 1
      → (c' : Channel A) × (send f v c ≡ some (send_parked, c')) × Sending c' xs (ss ++ (f, v) ∷ [])
  unfolding send_to_buffer
  send-parked f v c xs ss w full = (
    record c { waiters = c.waiters ++ sender_node (f, v) ∷ []; state = senders },
    send_in-buffer f v c xs ss w ∙ rw (is_full-true c.buffer xs w.holds full) refl,
    record {
      holds = w.holds;
      queue = rw w.queue (sym (map-append sender_node ss ((f, v) ∷ [])));
      status = sym (settle-snoc c.waiters (sender_node (f, v)) senders);
      full = inr full;
      roomy = w.roomy;
    },
  )

  -- A receiver at an empty buffer waits, behind those that came before.
  pub receive-parked :
      (f : ℕ) (c : Channel A) (rs : List ℕ)
      → Receiving c rs
      → (c' : Channel A) × (receive f c ≡ some (receive_parked, c')) × Receiving c' (rs ++ f ∷ [])
  unfolding receive
  receive-parked f c rs w = (
    record c { waiters = c.waiters ++ receiver_node f ∷ []; state = receivers },
    rw (is_empty-true c.buffer w.holds) refl,
    record {
      holds = w.holds;
      queue = rw w.queue (sym (map-append receiver_node rs (f ∷ [])));
      status = sym (settle-snoc c.waiters (receiver_node f) receivers);
      roomy = w.roomy;
    },
  )

  -- Otherwise it takes the oldest value of the buffer.
  pub receive-took :
      (f : ℕ) (x : A) (c : Channel A) (xs : List A)
      → Sending c (x ∷ xs) []
      → (c' : Channel A) × (receive f c ≡ some (took x none, c')) × Sending c' xs []
  unfolding receive
  receive-took f x c xs w =
      let (b, e, cap, blank, h) = pop-Holds c.buffer x xs w.holds in
      let idle : c.state ≡ nobody = w.status ∙ ap (λ q. settle q senders) w.queue in
      (
        record c { buffer = b },
        rw (is_empty-false c.buffer x xs w.holds, e)
            (ap (λ st. after_pop st x (record c { buffer = b })) idle),
        record {
          holds = h;
          queue = w.queue;
          status = w.status;
          full = inl refl;
          roomy = omega (arith, cap, w.roomy);
        },
      )

  -- `Receive` on a buffered channel that holds values and where senders wait returns the oldest
  -- value, puts the value of the oldest sender at the end of the buffer, and schedules that sender
  -- alone.
  pub receive-woke :
      (f g : ℕ) (x v : A) (c : Channel A) (xs : List A) (ss : List (ℕ × A))
      → Sending c (x ∷ xs) ((g, v) ∷ ss)
      → (c' : Channel A) × (receive f c ≡ some (took x (some g), c')) × Sending c' (xs ++ v ∷ []) ss
  unfolding receive
  receive-woke f g x v c xs ss w =
      let filled : suc (length xs) ≡ c.buffer.capacity - 1 = ground arith in
      let status : c.state ≡ senders = w.status ∙ ap (λ q. settle q senders) w.queue in
      let (b, e, cap, blank, h) = pop-Holds c.buffer x xs w.holds in
      let (b', e', cap', blank', h') = emplace-Holds v b xs h (omega (arith, cap)) in
      (
        record {
          buffer = b';
          waiters = map sender_node ss;
          state = settle (map sender_node ss) senders;
        },
        rw (is_empty-false c.buffer x xs w.holds, e, status, after_pop, refill, w.queue, e') refl,
        record {
          holds = h';
          queue = refl;
          status = refl;
          full = inr (omega (arith, cap, cap', length-append xs (v ∷ [])));
          roomy = omega (arith, cap, cap', w.roomy);
        },
      )
