-- ===== src/Gc/Invariant.antt =====
-- What holds between the counters, the references, the lists of retired objects and the hazard pointers of
-- source/gc.
use cpp_concurrency.Base.{
  ℕ, ◌+◌, ◌≤◌, ◌<◌, ◌≡◌, ◌≢◌, refl, sym, ◌∙◌, subst, ap, ◌⊎◌, inl, inr, Bool, true, List, some,
  get_elem?, set, bit, ltb, ◌==◌, total, total-set, get_elem?-set, le-total, arith,
}
use cpp_concurrency.Gc.{
  System, Thread, Ptr, null, Pc, checking, protected, trying, adding, scanning, go,
}
use cpp_concurrency.Gc.References.{refs, doomed, references, doomed_by}
use cpp_concurrency.Gc.Steps.{init}

-- The object that the thread relies on, since it has found the cell unchanged after it set its hazard
-- pointer; null if there is none.
abbrev pub shown : Pc → Ptr
shown (protected job p) = p
shown (trying job p) = p
shown (adding job p old) = p
shown other = null

-- The object that the thread has put into its hazard pointer to rely on it.
abbrev pub aimed : Pc → Ptr
aimed (checking job p) = p
aimed other = shown other

-- The object for which the thread looks for a hazard pointer, null if there is none, and the number of
-- mutators that it has not read yet.
abbrev pub sought : Pc → Ptr
sought (scanning a kept top k rest) = a
sought other = null

abbrev pub unread : Pc → ℕ
unread (scanning a kept top k rest) = k
unread other = 0

pub record IsSound (s : System) : Type 0 where
  -- The counter is the number of references.
  pub counted : (a : Ptr) → a ≢ null → s.counter a ≡ references s a
  -- An object is there exactly if it has references or is to be destroyed, which happens once.
  pub wasted : (a : Ptr) → a ≢ null → doomed_by s a + bit (ltb 0 (s.counter a)) ≡ bit (s.alive a)
  -- What a thread relies on is in its hazard pointer, and there.
  pub aims :
      (i : ℕ) (u : Thread)
      → get_elem? s.threads i ≡ some u
      → aimed u.pc ≢ null
      → u.hazard ≡ aimed u.pc
  pub shows :
      (i : ℕ) (u : Thread)
      → get_elem? s.threads i ≡ some u
      → shown u.pc ≢ null
      → s.alive (shown u.pc) ≡ true
  -- Who is to destroy it has still to read that hazard pointer.
  pub ahead :
      (i j : ℕ) (u v : Thread)
      → get_elem? s.threads i ≡ some u
      → get_elem? s.threads j ≡ some v
      → shown u.pc ≢ null
      → sought v.pc ≡ shown u.pc
      → i < unread v.pc

pub init-IsSound : IsSound init
init-IsSound = record {
  counted = λ a ne. ground arith;
  wasted = λ a ne. refl;
  aims = λ i u e. cc;
  shows = λ i u e. cc;
  ahead = λ i j u v e. cc;
}

-- What a thread `t` becomes by a step that changes memory to that of `s'`, with the hypotheses on this thread
-- alone.
pub record Goes (s : System) (j : ℕ) (t : Thread) (s' : System) (t' : Thread) : Type 0 where
  pub counts :
      (a : Ptr)
      → a ≢ null
      → s'.counter a + (s.held a + (bit (s.cell == a) + refs a t))
        ≡ s.counter a + (s'.held a + (bit (s'.cell == a) + refs a t'))
  pub wastes :
      (a : Ptr)
      → a ≢ null
      → (doomed a t' + bit (ltb 0 (s'.counter a))) + bit (s.alive a)
        ≡ (doomed a t + bit (ltb 0 (s.counter a))) + bit (s'.alive a)
  -- What others rely on stays.
  pub keeps :
      (i : ℕ) (u : Thread)
      → get_elem? s.threads i ≡ some u
      → shown u.pc ≢ null
      → s.alive (shown u.pc) ≡ true
      → s'.alive (shown u.pc) ≡ true
  pub aims : aimed t'.pc ≢ null → t'.hazard ≡ aimed t'.pc
  pub shows : shown t'.pc ≢ null → s'.alive (shown t'.pc) ≡ true
  pub ahead :
      (i : ℕ) (v : Thread)
      → get_elem? s.threads i ≡ some v
      → shown t'.pc ≢ null
      → sought v.pc ≡ shown t'.pc
      → j < unread v.pc
  pub behind :
      (i : ℕ) (u : Thread)
      → get_elem? s.threads i ≡ some u
      → shown u.pc ≢ null
      → sought t'.pc ≡ shown u.pc
      → i < unread t'.pc
  -- The thread does not look for what it relies on itself.
  pub apart : shown t'.pc ≢ null → sought t'.pc ≢ shown t'.pc

module _ (s s' : System) (j : ℕ) (t t' : Thread) where
  pub go-IsSound :
      s'.threads ≡ set s.threads j t'
      → get_elem? s.threads j ≡ some t
      → IsSound s
      → Goes s j t s' t'
      → IsSound s'
  go-IsSound e at i g = record {
    counted = λ a ne.
        let sum = total-set (refs a) s.threads j t t' at in
        omega (arith, ap (total (refs a)) e, sum, i.counted a ne, g.counts a ne);
    wasted = λ a ne.
        let sum = total-set (doomed a) s.threads j t t' at in
        omega (arith, ap (total (doomed a)) e, sum, i.wasted a ne, g.wastes a ne);
    aims = λ k u f ne. elim (was k u f) [
      | inl m ↦ rw m.1 (g.aims (λ z. ne (ap (λ (x : Thread). aimed x.pc) m.1 ∙ z)))
      | inr m ↦ i.aims k u m.1 ne
    ];
    shows = λ k u f ne. elim (was k u f) [
      | inl m ↦ rw m.1 (g.shows (λ z. ne (ap (λ (x : Thread). shown x.pc) m.1 ∙ z)))
      | inr m ↦ g.keeps k u m.1 ne (i.shows k u m.1 ne)
    ];
    ahead = λ k l u v f h ne same. elim (was k u f) [
      | inl m ↦ elim (was l v h) [
        | inl n ↦
            let mine = ap (λ (x : Thread). shown x.pc) m.1 in
            let theirs = ap (λ (x : Thread). sought x.pc) n.1 in
            absurd (g.apart (λ z. ne (mine ∙ z)) (sym theirs ∙ same ∙ mine))
        | inr n ↦
            let mine = ap (λ (x : Thread). shown x.pc) m.1 in
            rw m.0 (g.ahead l v n.1 (λ z. ne (mine ∙ z)) (same ∙ mine))
      ]
      | inr m ↦ elim (was l v h) [
        | inl n ↦ rw n.1 (g.behind k u m.1 ne (sym (ap (λ (x : Thread). sought x.pc) n.1) ∙ same))
        | inr n ↦ i.ahead k l u v m.1 n.1 ne same
      ]
    ];
  }
    where
      was :
          (k : ℕ) (u : Thread)
          → get_elem? s'.threads k ≡ some u
          → ((k ≡ j) × (u ≡ t')) ⊎ ((k ≢ j) × (get_elem? s.threads k ≡ some u))
      was k u f =
          get_elem?-set s.threads j t' k u (subst (λ (l : List Thread). get_elem? l k ≡ some u) e f)

module _ (s : System) (j : ℕ) (t : Thread) (here : get_elem? s.threads j ≡ some t)
    (i : IsSound s) where
  -- A step to a place where the thread relies on nothing and looks for nothing, which makes and destroys
  -- nothing.
  pub plain-IsSound :
      (s' : System) (t' : Thread)
      → s'.threads ≡ set s.threads j t'
      → aimed t'.pc ≡ null
      → shown t'.pc ≡ null
      → sought t'.pc ≡ null
      → s'.alive ≡ s.alive
      → ((a : Ptr)
          → a ≢ null
          → s'.counter a + (s.held a + (bit (s.cell == a) + refs a t))
            ≡ s.counter a + (s'.held a + (bit (s'.cell == a) + refs a t')))
      → ((a : Ptr)
          → a ≢ null
          → doomed a t' + bit (ltb 0 (s'.counter a)) ≡ doomed a t + bit (ltb 0 (s.counter a)))
      → IsSound s'
  plain-IsSound s' t' e free blind calm same counts wastes =
      go-IsSound s s' j t t' e here i (record {
        counts = counts;
        wastes = λ a ne. omega (arith, wastes a ne, ap (λ (f : Ptr → Bool). bit (f a)) same);
        keeps = λ k u e ne al. ap (λ (f : Ptr → Bool). f (shown u.pc)) same ∙ al;
        aims = λ ne. absurd (ne free);
        shows = λ ne. absurd (ne blind);
        ahead = λ k v e ne. absurd (ne blind);
        behind = λ k u e ne f. absurd (ne (sym f ∙ calm));
        apart = λ ne. absurd (ne blind);
      })

  -- Such a step that changes no memory.
  pub idle-IsSound :
      (t' : Thread)
      → aimed t'.pc ≡ null
      → shown t'.pc ≡ null
      → sought t'.pc ≡ null
      → ((a : Ptr) → a ≢ null → refs a t ≡ refs a t')
      → ((a : Ptr) → a ≢ null → doomed a t' ≡ doomed a t)
      → IsSound (go s j t')
  idle-IsSound t' free blind calm counts wastes =
      plain-IsSound (go s j t') t' refl free blind calm refl (λ a ne. omega (arith, counts a ne))
        (λ a ne. omega (arith, wastes a ne))

  -- A reference that a thread has in hand is counted.
  pub refs-le-counter : (a : Ptr) → a ≢ null → refs a t ≤ s.counter a
  refs-le-counter a ne = omega (arith, i.counted a ne, le-total (refs a) s.threads j t here)

  -- A step to a place where the thread relies on an object that it relied on before.
  pub shows-IsSound :
      (t' : Thread)
      → aimed t'.pc ≡ aimed t.pc
      → shown t'.pc ≡ shown t.pc
      → sought t'.pc ≡ null
      → t'.hazard ≡ t.hazard
      → ((a : Ptr) → a ≢ null → refs a t ≡ refs a t')
      → ((a : Ptr) → a ≢ null → doomed a t' ≡ doomed a t)
      → IsSound (go s j t')
  shows-IsSound t' target same calm kept counts wastes =
      go-IsSound s (go s j t') j t t' refl here i (record {
        counts = λ a ne. omega (arith, counts a ne);
        wastes = λ a ne. omega (arith, wastes a ne);
        keeps = λ k u e ne al. al;
        aims = λ ne. kept ∙ i.aims j t here (λ z. ne (target ∙ z)) ∙ sym target;
        shows = λ ne. ap s.alive same ∙ i.shows j t here (λ z. ne (same ∙ z));
        ahead = λ k v e ne f. i.ahead j k t v here e (λ z. ne (same ∙ z)) (f ∙ same);
        behind = λ k u e ne f. absurd (ne (sym f ∙ calm));
        apart = λ ne f. ne (sym f ∙ calm);
      })
