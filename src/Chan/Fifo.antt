-- ===== src/Chan/Fifo.antt =====
-- Histories of calls of a channel of source/fiber/chan: which receiver gets which value.
use mathlib.Core.List.{append_assoc, append-nil}
use cpp_concurrency.Base.{
  ℕ, ◌+◌, ◌*◌, ◌^◌, ◌<◌, ◌≡◌, refl, ap, sym, ◌∙◌, ◌⊎◌, inl, inr, Option, none, some, List, [], ◌∷◌,
  ◌++◌, map, arith,
}
use cpp_concurrency.Chan.Spec.{Pipe, spec_send, spec_receive, IsChannel}
use cpp_concurrency.Chan.CircularBuffer.{allocated}
use cpp_concurrency.Chan.CircularBuffer.Laws.{allocated-fits}
use cpp_concurrency.Chan.Buffered
use cpp_concurrency.Chan.Buffered.Pipe as BufferedPipe
use cpp_concurrency.Chan.Rendezvous
use cpp_concurrency.Chan.Rendezvous.Pipe as RendezvousPipe

-- A call, with the fiber that makes it.
pub data Call {ℓ} (A : Type ℓ) : Type ℓ where
  sends : (fiber : ℕ) (value : A) → Call A
  receives : (fiber : ℕ) → Call A

abbrev pub cons_if {ℓ} : {A : Type ℓ} → Option A → List A → List A
cons_if none xs = xs
cons_if (some x) xs = x ∷ xs

module _ {ℓ} {A : Type ℓ} where
  -- The values sent, and the fibers that asked for one, in the order of the calls.
  abbrev pub sent : List (Call A) → List A
  sent [] = []
  sent (sends f v ∷ cs) = v ∷ sent cs
  sent (receives f ∷ cs) = sent cs

  abbrev pub asked : List (Call A) → List ℕ
  asked [] = []
  asked (sends f v ∷ cs) = asked cs
  asked (receives f ∷ cs) = f ∷ asked cs

  -- `ds` is what was delivered, in order, and `p` what is left, when `vs` had been sent and `fs` had
  -- asked: the i-th value goes to the i-th request, and a value and a request are never both left.
  pub record IsFifo (vs : List A) (fs : List ℕ) (ds : List (ℕ × A)) (p : Pipe A) : Type ℓ where
    pub values_in_order : map (λ d. d.1) ds ++ p.values ≡ vs
    pub requests_in_order : map (λ d. d.0) ds ++ p.waiting ≡ fs
    pub none_stuck : (p.values ≡ []) ⊎ (p.waiting ≡ [])

  spec_step : Call A → Pipe A → Option (ℕ × A) × Pipe A
  spec_step (sends f v) p = spec_send v p
  spec_step (receives f) p = spec_receive f p

  spec_run : List (Call A) → Pipe A → List (ℕ × A) × Pipe A
  spec_run [] p = ([], p)
  spec_run (c ∷ cs) p =
      let (d, q) = spec_step c p in let (ds, r) = spec_run cs q in (cons_if d ds, r)

  -- The pipe keeps both orders.
  spec_run-IsFifo :
      (cs : List (Call A)) (xs : List A) (rs : List ℕ)
      → (xs ≡ []) ⊎ (rs ≡ [])
      → IsFifo
          (xs ++ sent cs)
          (rs ++ asked cs)
          (spec_run cs (record { values = xs; waiting = rs })).0
          (spec_run cs (record { values = xs; waiting = rs })).1
  unfolding spec_run spec_step
  spec_run-IsFifo [] xs rs o = record {
    values_in_order = sym (append-nil xs);
    requests_in_order = sym (append-nil rs);
    none_stuck = o;
  }
  spec_run-IsFifo (sends f v ∷ cs) xs [] o =
      let h = spec_run-IsFifo cs (xs ++ v ∷ []) [] (inr refl) in
      record {
        values_in_order = h.values_in_order ∙ append_assoc xs (v ∷ []) (sent cs);
        requests_in_order = h.requests_in_order;
        none_stuck = h.none_stuck;
      }
  spec_run-IsFifo (sends f v ∷ cs) xs (r ∷ rs) o =
      let empty : xs ≡ [] = ground arith in
      let h = spec_run-IsFifo cs xs rs (inl empty) in
      record {
        values_in_order = ap (◌∷◌ v) h.values_in_order ∙ (rw empty refl);
        requests_in_order = ap (◌∷◌ r) h.requests_in_order;
        none_stuck = h.none_stuck;
      }
  spec_run-IsFifo (receives f ∷ cs) [] rs o =
      let h = spec_run-IsFifo cs [] (rs ++ f ∷ []) (inl refl) in
      record {
        values_in_order = h.values_in_order;
        requests_in_order = h.requests_in_order ∙ append_assoc rs (f ∷ []) (asked cs);
        none_stuck = h.none_stuck;
      }
  spec_run-IsFifo (receives f ∷ cs) (x ∷ xs) rs o =
      let empty : rs ≡ [] = ground arith in
      let h = spec_run-IsFifo cs xs rs (inr empty) in
      record {
        values_in_order = ap (◌∷◌ x) h.values_in_order;
        requests_in_order = ap (◌∷◌ f) h.requests_in_order ∙ (rw empty refl);
        none_stuck = h.none_stuck;
      }

module _ {ℓ} {A C : Type ℓ} (send : ℕ → A → C → Option (Option (ℕ × A) × C))
    (receive : ℕ → C → Option (Option (ℕ × A) × C)) where
  step : Call A → C → Option (Option (ℕ × A) × C)
  step (sends f v) c = send f v c
  step (receives f) c = receive f c

  -- The calls of a history, made one after the other: the deliveries, and the channel they leave.
  pub run : List (Call A) → C → Option (List (ℕ × A) × C)
  unfolding step
  run [] c = some ([], c)
  run (call ∷ cs) c = elim (step call c) [
    | none ↦ none
    | some (d, c') ↦ elim (run cs c') [ none ↦ none | some (ds, c'') ↦ some (cons_if d ds, c'') ]
  ]

  module _ (Shows : C → Pipe A → Type ℓ) (channel : IsChannel send receive Shows) where
    step-spec :
        (call : Call A) (c : C) (p : Pipe A)
        → Shows c p
        → (c' : C) × (step call c ≡ some ((spec_step call p).0, c')) × Shows c' (spec_step call p).1
    unfolding step spec_step
    step-spec (sends f v) c p s = channel.sends f v c p s
    step-spec (receives f) c p s = channel.receives f c p s

    run-spec :
        (cs : List (Call A)) (c : C) (p : Pipe A)
        → Shows c p
        → (c' : C) × (run cs c ≡ some ((spec_run cs p).0, c')) × Shows c' (spec_run cs p).1
    unfolding run spec_run
    run-spec [] c p s = (c, refl, s)
    run-spec (call ∷ cs) c p s =
        let (c', e, s') = step-spec call c p s in
        let (c'', e', s'') = run-spec cs c' (spec_step call p).1 s' in
        (c'', rw (e, run, e') refl, s'')

    -- From a channel that shows an empty pipe, no history fails, and each keeps both orders.
    pub run-IsFifo :
        (cs : List (Call A)) (c : C)
        → Shows c (record { values = []; waiting = [] })
        → (ds : List (ℕ × A)) × (c' : C) × (p : Pipe A) × (run cs c ≡ some (ds, c'))
          × Shows c' p
          × IsFifo (sent cs) (asked cs) ds p
    run-IsFifo cs c s =
        let (c', e, s') = run-spec cs c _ s in
        (_, c', _, e, s', spec_run-IsFifo cs [] [] (inl refl))

-- A factor of a product that fits a word fits it.
fits-factor : (m k : ℕ) → 0 < k → m * k < 2 ^ 64 → m < 2 ^ 64
fits-factor m k pos few = grind arith

-- A buffered channel of any capacity above 0, for items of any size above 0, whose slots, one more
-- than the capacity, take fewer than 2 ^ 64 bytes, asks for the memory of all slots and runs every
-- history of calls without a failed assertion or a read of memory without an object, and leaves a
-- channel that shows a pipe. The i-th value that was sent goes to the i-th call of `Receive`, and a
-- value and a receiver are never both left over.
pub buffered-IsFifo {ℓ} :
    {A : Type ℓ} (n size_of : ℕ) (cs : List (Call A))
    → 0 < n
    → 0 < size_of
    → (n + 1) * size_of < 2 ^ 64
    → (c : Buffered.Channel A) × (ds : List (ℕ × A)) × (c' : Buffered.Channel A) × (p : Pipe A)
      × (Buffered.make n ≡ some c)
      × (allocated size_of c.buffer ≡ (n + 1) * size_of)
      × (run BufferedPipe.send_step BufferedPipe.receive_step cs c ≡ some (ds, c'))
      × BufferedPipe.Shows c' p
      × IsFifo (sent cs) (asked cs) ds p
buffered-IsFifo {A = A} n size_of cs h pos few =
    let small : n + 1 < 2 ^ 64 = fits-factor (n + 1) size_of pos few in
    let (c, made, b, s) = BufferedPipe.make-Shows n h small in
    let (ds, c', p, e, s', fifo) =
      run-IsFifo BufferedPipe.send_step BufferedPipe.receive_step BufferedPipe.Shows
        BufferedPipe.channel cs c s in
    (
      c,
      ds,
      c',
      p,
      made,
      ap (allocated size_of) b ∙ allocated-fits A n size_of few small,
      e,
      s',
      fifo,
    )

-- A rendezvous channel runs every history of calls without a failure, and leaves a channel that
-- shows a pipe. The i-th value that was sent goes to the i-th call of `Receive`, and a value and a
-- receiver are never both left over.
pub rendezvous-IsFifo {ℓ} :
    {A : Type ℓ} (cs : List (Call A))
    → (ds : List (ℕ × A)) × (c' : Rendezvous.Channel A) × (p : Pipe A) × (run
          RendezvousPipe.send_step RendezvousPipe.receive_step cs Rendezvous.make
        ≡ some (ds, c'))
      × RendezvousPipe.Shows c' p
      × IsFifo (sent cs) (asked cs) ds p
rendezvous-IsFifo cs =
    run-IsFifo RendezvousPipe.send_step RendezvousPipe.receive_step RendezvousPipe.Shows
      RendezvousPipe.channel cs Rendezvous.make RendezvousPipe.make-Shows
