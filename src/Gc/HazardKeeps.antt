-- ===== src/Gc/HazardKeeps.antt =====
-- Protecting, retiring and collecting, in source/gc/hazard, keep the invariant.
use cpp_concurrency.Base.{
  ℕ, suc, ◌<◌, ◌≡◌, ◌≢◌, refl, sym, ap, ◌∙◌, inl, inr, false, List, [], ◌∷◌, ◌++◌, some, get_elem?,
  length, ◌==◌, ==-cases, le-total, total-append, tally-append, get_elem?-lt,
  get_elem?-append_cases, set_at-cases, arith,
}
use cpp_concurrency.Gc.{
  System, Thread, Pc, Ptr, null, Todo, reading, setting, checking, protected, ending, sweeping,
  scanning, go, at,
}
use cpp_concurrency.Gc.References.{refs, doomed, pc_doomed}
use cpp_concurrency.Gc.Invariant.{IsSound, aimed, shown, sought, unread, go-IsSound, idle-IsSound}
use cpp_concurrency.Gc.Hazard.{
  Protect, ScopedReset, Retire, Gc, IsProtected, GetMutator, mutator, look_for,
}

-- A thread that looks for hazard pointers to an object is to destroy it.
pc_doomed_of_sought : (pc : Pc) (a : Ptr) → a ≢ null → sought pc ≡ a → 0 < pc_doomed a pc
pc_doomed_of_sought (scanning b kept top k rest) a ne e = ground arith
pc_doomed_of_sought other a ne e = absurd (ne (sym e))

doomed_of_sought : (v : Thread) (a : Ptr) → a ≢ null → sought v.pc ≡ a → 0 < doomed a v
doomed_of_sought v a ne e = omega (arith, pc_doomed_of_sought v.pc a ne e)

-- What a thread relies on is what it has put into its hazard pointer.
aimed_of_shown : (pc : Pc) → shown pc ≢ null → aimed pc ≡ shown pc
aimed_of_shown (checking job p) ne = absurd (ne refl)
aimed_of_shown other ne = refl

module _ (s : System) (j : ℕ) (t : Thread) (here : get_elem? s.threads j ≡ some t)
    (i : IsSound s) where
  pub Protect-IsSound : {s' : System} → Protect s j t s' → IsSound s'
  Protect-IsSound (Protect.loads job e) =
      idle-IsSound s j t here i (at t (setting job s.cell)) refl refl refl (λ b ne. ground arith)
        (λ b ne. ground arith)
  Protect-IsSound (Protect.sets job p e) =
      go-IsSound s _ j t (record t { pc = checking job p; hazard = p }) refl here i
        (record {
          counts = λ b nb. ground arith;
          wastes = λ b nb. ground arith;
          keeps = λ k u f sh al. al;
          aims = λ sh. refl;
          shows = λ sh. absurd (sh refl);
          ahead = λ k v f sh. absurd (sh refl);
          behind = λ k u f sh g. absurd (sh (sym g));
          apart = λ sh. absurd (sh refl);
        })
  Protect-IsSound (Protect.succeeds job p e same) =
      go-IsSound s _ j t (at t (protected job p)) refl here i (record {
        counts = λ b nb. ground arith;
        wastes = λ b nb. ground arith;
        keeps = λ k u f sh al. al;
        aims = λ sh. i.aims j t here (λ z. sh (sym (ap aimed e) ∙ z)) ∙ ap aimed e;
        shows = λ sh. ground (arith, i.counted p sh, i.wasted p sh);
        ahead = λ k v f sh g. absurd (
            ground (
              arith,
              i.counted p sh,
              i.wasted p sh,
              le-total (doomed p) s.threads k v f,
              doomed_of_sought v p sh g,
            ));
        behind = λ k u f sh g. absurd (sh (sym g));
        apart = λ sh g. sh (sym g);
      })
  Protect-IsSound (Protect.repeats job p e other) =
      idle-IsSound s j t here i (at t (reading job)) refl refl refl (λ b ne. ground arith)
        (λ b ne. ground arith)

  pub ScopedReset-IsSound : {s' : System} → ScopedReset s j t s' → IsSound s'
  ScopedReset-IsSound (ScopedReset.resets rest e) =
      idle-IsSound s j t here i (record t { pc = ending rest; hazard = null }) refl refl refl
        (λ b ne. ground arith) (λ b ne. ground arith)

  pub Retire-IsSound : {s' : System} → Retire s j t s' → IsSound s'
  Retire-IsSound (Retire.retires a rest e) =
      idle-IsSound s j t here i (record t { pc = sweeping [] rest; retired = t.retired ++ a ∷ [] })
        refl refl refl (λ b ne. ground arith)
        (λ b ne. ground (arith, tally-append (λ c. c == b) t.retired (a ∷ [])))

  pub Gc-IsSound : {s' : System} → Gc s j t s' → IsSound s'
  Gc-IsSound (Gc.pops kept rest a others e f) =
      go-IsSound s _ j t (record t { pc = look_for s a kept rest; retired = others }) refl here i
        (record {
          counts = λ b nb. ground arith;
          wastes = λ b nb. ground arith;
          keeps = λ k u f sh al. al;
          aims = λ sh. absurd (sh refl);
          shows = λ sh. absurd (sh refl);
          ahead = λ k v f sh. absurd (sh refl);
          behind = λ k u f sh g. get_elem?-lt s.threads k u f;
          apart = λ sh. absurd (sh refl);
        })
  Gc-IsSound (Gc.appends kept rest e f) =
      idle-IsSound s j t here i (record t { pc = ending rest; retired = kept }) refl refl refl
        (λ b ne. ground arith) (λ b ne. ground arith)

  -- A thread that sees to the destruction of an object that it has in hand goes on looking.
  looks-IsSound :
      (a : Ptr) (kept : List Ptr) (top k n : ℕ) (rest : List Todo)
      → t.pc ≡ scanning a kept top k rest
      → ((l : ℕ) (u : Thread)
          → get_elem? s.threads l ≡ some u
          → shown u.pc ≢ null
          → a ≡ shown u.pc
          → l < n)
      → (top' : ℕ) → IsSound (go s j (at t (scanning a kept top' n rest)))
  looks-IsSound a kept top k n rest e behind top' =
      go-IsSound s _ j t (at t (scanning a kept top' n rest)) refl here i (record {
        counts = λ b nb. ground arith;
        wastes = λ b nb. ground arith;
        keeps = λ k u f sh al. al;
        aims = λ sh. absurd (sh refl);
        shows = λ sh. absurd (sh refl);
        ahead = λ k v f sh. absurd (sh refl);
        behind = behind;
        apart = λ sh. absurd (sh refl);
      })

  pub IsProtected-IsSound : {s' : System} → IsProtected s j t s' → IsSound s'
  IsProtected-IsSound (IsProtected.finds a kept top k rest u e f same) =
      idle-IsSound s j t here i (at t (sweeping (kept ++ a ∷ []) rest)) refl refl refl
        (λ b ne. ground arith) (λ b ne. ground (arith, tally-append (λ c. c == b) kept (a ∷ [])))
  IsProtected-IsSound (IsProtected.passes a kept top k rest u e f other) =
      looks-IsSound a kept top (suc k) k rest e
        (λ l v g sh h. elim (==-cases l k) [
          | inl here_now ↦
              let same : v ≡ u = ground (arith, here_now.0) in
              let aim = aimed_of_shown v.pc sh in
              absurd (
                other (
                  ap (λ (x : Thread). x.hazard) (sym same)
                  ∙ i.aims l v g (λ z. sh (sym aim ∙ z))
                  ∙ aim
                  ∙ sym h))
          | inr elsewhere ↦
              let low = i.ahead l j v t g here sh (ap sought e ∙ h) in
              omega (arith, low, ap unread e, elsewhere.0)
        ])
        top
  IsProtected-IsSound (IsProtected.restarts a kept top rest e f) =
      looks-IsSound a kept top 0 (length s.threads) rest e
        (λ l v g sh h. get_elem?-lt s.threads l v g) (length s.threads)
  IsProtected-IsSound (IsProtected.destroys a kept top rest e f) =
      go-IsSound s _ j t (at t (sweeping kept rest)) refl here i (record {
        counts = λ b nb. ground arith;
        wastes = λ b nb. ground (arith, i.wasted b nb, le-total (doomed b) s.threads j t here);
        keeps = λ k u g sh al. elim (set_at-cases s.alive a false (shown u.pc)) [
          | inl hit ↦
              let low = i.ahead k j u t g here sh (ap sought e ∙ sym hit.0) in
              absurd (omega (arith, low, ap unread e))
          | inr miss ↦ miss.1 ∙ al
        ];
        aims = λ sh. absurd (sh refl);
        shows = λ sh. absurd (sh refl);
        ahead = λ k v f sh. absurd (sh refl);
        behind = λ k u f sh g. absurd (sh (sym g));
        apart = λ sh. absurd (sh refl);
      })

-- A new mutator relies on nothing and looks for nothing.
pub GetMutator-IsSound : {s s' : System} → IsSound s → GetMutator s s' → IsSound s'
GetMutator-IsSound {s} i GetMutator.pushes = record {
  counted = λ a ne. omega (arith, i.counted a ne, total-append (refs a) s.threads (mutator ∷ []));
  wasted = λ a ne. omega (arith, i.wasted a ne, total-append (doomed a) s.threads (mutator ∷ []));
  aims = λ k u f ne. elim (get_elem?-append_cases s.threads mutator k u f) [
    | inl m ↦ absurd (ne (ap (λ (x : Thread). aimed x.pc) m.1))
    | inr m ↦ i.aims k u m ne
  ];
  shows = λ k u f ne. elim (get_elem?-append_cases s.threads mutator k u f) [
    | inl m ↦ absurd (ne (ap (λ (x : Thread). shown x.pc) m.1))
    | inr m ↦ i.shows k u m ne
  ];
  ahead = λ k l u v f h ne same. elim (get_elem?-append_cases s.threads mutator k u f) [
    | inl m ↦ absurd (ne (ap (λ (x : Thread). shown x.pc) m.1))
    | inr m ↦ elim (get_elem?-append_cases s.threads mutator l v h) [
      | inl n ↦ absurd (ne (sym same ∙ ap (λ (x : Thread). sought x.pc) n.1))
      | inr n ↦ i.ahead k l u v m n ne same
    ]
  ];
}
