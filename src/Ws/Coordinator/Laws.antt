-- ===== src/Ws/Coordinator/Laws.antt =====
-- That a submission wakes a stopped worker, and how far the counter of
-- source/runtime/multi_thread/v2/ws/coordinator.cpp drifts.
use cpp_concurrency.Base.{
  ℕ, zero, suc, ◌+◌, ◌-◌, ◌%◌, ◌^◌, ◌≤◌, ◌<◌, ◌≡◌, ◌≢◌, refl, inl, inr, true, false, List, [], ◌∷◌,
  ◌++◌, ltb, ◌==◌, arith, length, length-append, Bool-cases, List-cases, lt→ltb, ap, ==-cases, ◌∙◌,
  sym, subst,
}
use cpp_concurrency.Ws.Coordinator.{
  Coordinator, init, is_linked, without, add_stopped, wake, wake_worker, unlink, notify_on_submit,
}

-- A call that changes the list of stopped workers.
pub data Call : Type 0 where
  adds unlinks : (worker : ℕ) → Call
  notifies : Call

unfoldable pub call : Call → Coordinator → Coordinator
call (adds w) c = add_stopped w c
call (unlinks w) c = unlink w c
call notifies c = notify_on_submit c

unfoldable pub calls : List Call → Coordinator → Coordinator
unfolding call
calls [] c = c
calls (k ∷ ks) c = calls ks (call k c)

-- No worker is in the list twice.
abbrev pub AllOnce : List ℕ → Type 0
AllOnce [] = Unit
AllOnce (w ∷ ws) = (is_linked w ws ≡ false) × AllOnce ws

-- The counter is at least the length of the list, and at most `n`.
pub record IsCounted (n : ℕ) (c : Coordinator) : Type 0 where
  pub enough : length c.stopped ≤ c.approximate_size
  pub bound : c.approximate_size ≤ n
  pub once : AllOnce c.stopped

length-without : (w : ℕ) (vs : List ℕ) → length (without w vs) ≤ length vs
unfolding without
length-without w [] = omega arith
length-without w (v ∷ vs) = ground (arith, length-without w vs)

is_linked-without :
    (w v : ℕ) (vs : List ℕ) → is_linked w vs ≡ false → is_linked w (without v vs) ≡ false
unfolding is_linked without
is_linked-without w v [] e = refl
is_linked-without w v (x ∷ vs) e = ground (arith, is_linked-without w v vs)

AllOnce-without : (w : ℕ) (vs : List ℕ) → AllOnce vs → AllOnce (without w vs)
unfolding without
AllOnce-without w [] o = tt
AllOnce-without w (v ∷ vs) o = elim (==-cases w v) [
  | inl e ↦ rw e.1 o.1
  | inr e ↦ rw e.1 (is_linked-without v w vs o.0, AllOnce-without w vs o.1)
]

is_linked-append :
    (w v : ℕ) (vs : List ℕ) → is_linked w vs ≡ false → w ≢ v → is_linked w (vs ++ v ∷ []) ≡ false
unfolding is_linked
is_linked-append w v [] e ne = ground arith
is_linked-append w v (x ∷ vs) e ne = ground (arith, is_linked-append w v vs)

AllOnce-append :
    (w : ℕ) (vs : List ℕ) → is_linked w vs ≡ false → AllOnce vs → AllOnce (vs ++ w ∷ [])
unfolding is_linked
AllOnce-append w [] e o = (refl, tt)
AllOnce-append w (v ∷ vs) e o =
    let apart : v ≢ w = ground arith in
    let rest : is_linked w vs ≡ false = ground arith in
    (is_linked-append v w vs o.0 apart, AllOnce-append w vs rest o.1)

-- A stopped worker is enough for the counter to be positive, so `NotifyOnSubmit` wakes the oldest.
notify-wake :
    (n : ℕ) (c : Coordinator) (w : ℕ) (rest : List ℕ)
    → IsCounted n c
    → c.stopped ≡ w ∷ rest
    → notify_on_submit c ≡ record c {
      stopped = rest;
      wakeups = wake w c.wakeups;
      approximate_size = (c.approximate_size + 2 ^ 64 - 1) % 2 ^ 64;
    }
unfolding notify_on_submit wake_worker
notify-wake n c w rest i e =
    let some : length c.stopped ≡ suc (length rest) = ap length e in
    rw (lt→ltb 0 c.approximate_size (omega (arith, i.enough)), e) refl

notify-none : (c : Coordinator) → c.stopped ≡ [] → notify_on_submit c ≡ c
unfolding notify_on_submit wake_worker
notify-none c e = elim (Bool-cases (ltb 0 c.approximate_size)) [
  | inl t ↦ rw (t, e) refl
  | inr f ↦ rw f refl
]

notify-IsCounted :
    (n : ℕ) (c : Coordinator)
    → suc n < 2 ^ 64
    → IsCounted n c
    → IsCounted (suc n) (notify_on_submit c)
notify-IsCounted n c fit i = elim (List-cases c.stopped) [
  | inl e ↦
      subst (IsCounted (suc n)) (sym (notify-none c e))
        (record { enough = i.enough; bound = omega (arith, i.bound); once = i.once })
  | inr s ↦
      let shorter : length c.stopped ≡ suc (length s.tail) = ap length s.split in
      let once : AllOnce (s.head ∷ s.tail) = subst AllOnce s.split i.once in
      subst (IsCounted (suc n)) (sym (notify-wake n c s.head s.tail i s.split)) (record {
        enough = omega (arith, i.enough, i.bound);
        bound = omega (arith, i.enough, i.bound);
        once = once.1;
      })
]

call-IsCounted :
    (n : ℕ) (k : Call) (c : Coordinator)
    → suc n < 2 ^ 64
    → IsCounted n c
    → IsCounted (suc n) (call k c)
unfolding call add_stopped unlink
call-IsCounted n (adds w) c fit i = elim (Bool-cases (is_linked w c.stopped)) [
  | inl e ↦ rw e (record { enough = i.enough; bound = omega (arith, i.bound); once = i.once })
  | inr e ↦ rw e (record {
    enough = omega (arith, length-append c.stopped (w ∷ []), i.enough, i.bound);
    bound = omega (arith, i.bound);
    once = AllOnce-append w c.stopped e i.once;
  })
]
call-IsCounted n (unlinks w) c fit i = elim (Bool-cases (is_linked w c.stopped)) [
  | inl e ↦ rw e (record {
    enough = omega (arith, length-without w c.stopped, i.enough);
    bound = omega (arith, i.bound);
    once = AllOnce-without w c.stopped i.once;
  })
  | inr e ↦ rw e (record { enough = i.enough; bound = omega (arith, i.bound); once = i.once })
]
call-IsCounted n notifies c fit i = notify-IsCounted n c fit i

calls-from :
    (ks : List Call) (n : ℕ) (c : Coordinator)
    → n + length ks < 2 ^ 64
    → IsCounted n c
    → IsCounted (n + length ks) (calls ks c)
unfolding calls
calls-from [] n c fit i = subst (λ m. IsCounted m c) (omega arith) i
calls-from (k ∷ ks) n c fit i =
    subst (λ m. IsCounted m (calls ks (call k c))) (omega arith)
      (calls-from ks (suc n) (call k c) (omega arith) (call-IsCounted n k c (omega arith) i))

-- After any fewer than 2 ^ 64 calls of a coordinator, no worker is twice in the list of stopped
-- workers, and its counter is at least the length of the list and at most the number of calls.
pub calls-IsCounted : (ks : List Call) → length ks < 2 ^ 64 → IsCounted (length ks) (calls ks init)
calls-IsCounted ks fit =
    subst (λ m. IsCounted m (calls ks init)) (omega arith)
      (calls-from ks 0 init (omega arith)
        (record { enough = omega arith; bound = omega arith; once = tt }))

-- After any fewer than 2 ^ 64 calls of a coordinator, if a worker is stopped then `NotifyOnSubmit`
-- wakes the one that has been stopped longest, takes it alone out of the list, and wakes no other.
pub notify_on_submit-wakes :
    (ks : List Call) (w : ℕ) (rest : List ℕ)
    → length ks < 2 ^ 64
    → (calls ks init).stopped ≡ w ∷ rest
    → ((notify_on_submit (calls ks init)).stopped ≡ rest)
      × ((notify_on_submit (calls ks init)).wakeups w ≡ ((calls ks init).wakeups w + 1) % 2 ^ 32)
      × ((v : ℕ) → v ≢ w → (notify_on_submit (calls ks init)).wakeups v ≡ (calls ks init).wakeups v)
notify_on_submit-wakes ks w rest fit e =
    let woken = notify-wake (length ks) (calls ks init) w rest (calls-IsCounted ks fit) e in
    rw woken (refl, ground arith, λ v ne. ground arith)

-- A worker that stops, finds a task, and takes itself out of the list, `n` times over.
abbrev pub rounds : ℕ → ℕ → List Call
rounds w zero = []
rounds w (suc n) = adds w ∷ unlinks w ∷ rounds w n

round_lem :
    (w a : ℕ)
    → suc a < 2 ^ 64
    → unlink w (add_stopped w (record init { approximate_size = a }))
      ≡ record init { approximate_size = suc a }
unfolding add_stopped unlink is_linked without
round_lem w a fit = rw (is_self w) (ap (λ k. record init { approximate_size = k }) (omega arith))
  where
    is_self : (v : ℕ) → (v == v) ≡ true
    is_self v = ground arith

rounds-from :
    (w n a : ℕ)
    → a + n < 2 ^ 64
    → calls (rounds w n) (record init { approximate_size = a })
      ≡ record init { approximate_size = a + n }
unfolding calls call
rounds-from w zero a fit = ap (λ k. record init { approximate_size = k }) (omega arith)
rounds-from w (suc n) a fit =
    ap (calls (rounds w n)) (round_lem w a (omega arith))
    ∙ rounds-from w n (suc a) (omega arith)
    ∙ ap (λ k. record init { approximate_size = k }) (omega arith)

-- A worker that is added to the stopped ones and unlinked again, `n` times over with `n` below 2 ^
-- 64, leaves the list empty and the counter at `n`, not at 0.
pub rounds-drift :
    (w n : ℕ) → n < 2 ^ 64 → calls (rounds w n) init ≡ record init { approximate_size = n }
rounds-drift w n fit =
    rounds-from w n 0 (omega arith) ∙ ap (λ k. record init { approximate_size = k }) (omega arith)
