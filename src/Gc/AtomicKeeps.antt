-- ===== src/Gc/AtomicKeeps.antt =====
-- The operations of `AtomicSharedPtr` of source/gc/atomic_shared_ptr.hpp keep the invariant.
use cpp_concurrency.Base.{ℕ, ◌≡◌, refl, sym, ap, [], ◌∷◌, some, get_elem?, arith}
use cpp_concurrency.Gc.{
  System, Thread, Ptr, null, Job, loading, exchanging, drop, clear, give, again, storing, swapping,
  announcing, reading, protected, trying, ending, go, at,
}
use cpp_concurrency.Gc.Invariant.{
  IsSound, aimed, shown, plain-IsSound, idle-IsSound, refs-le-counter, shows-IsSound,
}
use cpp_concurrency.Gc.Atomic.{Store, Load, CompareExchangeWeak}

module _ (s : System) (j : ℕ) (t : Thread) (here : get_elem? s.threads j ≡ some t)
    (i : IsSound s) where
  -- From a protected pointer to the loop of `TryAddRef`.
  tries_to_add :
      (job : Job) (p : Ptr) → t.pc ≡ protected job p → IsSound (go s j (at t (trying job p)))
  tries_to_add job p e =
      shows-IsSound s j t here i (at t (trying job p)) (sym (ap aimed e)) (sym (ap shown e)) refl
        refl (λ b ne. ground arith) (λ b ne. ground arith)

  pub Store-IsSound : {s' : System} → Store s j t s' → IsSound s'
  Store-IsSound (Store.begins a e has) =
      plain-IsSound s j t here i _ (at t (storing a)) refl refl refl refl refl
        (λ b ne. ground arith) (λ b ne. ground arith)
  Store-IsSound (Store.skips_null e) =
      idle-IsSound s j t here i (at t (swapping null)) refl refl refl (λ b ne. ground arith)
        (λ b ne. ground arith)
  Store-IsSound (Store.adds a e ne) =
      plain-IsSound s j t here i _ (at t (swapping a)) refl refl refl refl refl
        (λ b ne. ground arith) (λ b ne. ground (arith, refs-le-counter s j t here i b ne))
  Store-IsSound (Store.exchanges a e) =
      plain-IsSound s j t here i _ (at t (ending (drop s.cell ∷ drop a ∷ []))) refl refl refl refl
        refl (λ b ne. ground arith) (λ b ne. ground arith)

  pub Load-IsSound : {s' : System} → Load s j t s' → IsSound s'
  Load-IsSound (Load.begins e) =
      idle-IsSound s j t here i (at t (reading loading)) refl refl refl (λ b ne. ground arith)
        (λ b ne. ground arith)
  Load-IsSound (Load.finds_null e) =
      idle-IsSound s j t here i (at t (ending (clear ∷ []))) refl refl refl (λ b ne. ground arith)
        (λ b ne. ground arith)
  Load-IsSound (Load.tries p e ne) = tries_to_add loading p e

  pub CompareExchangeWeak-IsSound : {s' : System} → CompareExchangeWeak s j t s' → IsSound s'
  CompareExchangeWeak-IsSound (CompareExchangeWeak.begins x d e hx hd) =
      plain-IsSound s j t here i _ (at t (announcing x d)) refl refl refl refl refl
        (λ b ne. ground arith) (λ b ne. ground arith)
  CompareExchangeWeak-IsSound (CompareExchangeWeak.skips_null x e) =
      idle-IsSound s j t here i (at t (reading (exchanging x null))) refl refl refl
        (λ b ne. ground arith) (λ b ne. ground arith)
  CompareExchangeWeak-IsSound (CompareExchangeWeak.adds x d e ne) =
      plain-IsSound s j t here i _ (at t (reading (exchanging x d))) refl refl refl refl refl
        (λ b ne. ground arith) (λ b ne. ground (arith, refs-le-counter s j t here i b ne))
  CompareExchangeWeak-IsSound (CompareExchangeWeak.exchanges x d e same) =
      plain-IsSound s j t here i _ (at t (ending (drop x ∷ clear ∷ drop d ∷ give x ∷ []))) refl refl
        refl refl refl (λ b ne. ground arith) (λ b ne. ground arith)
  CompareExchangeWeak-IsSound (CompareExchangeWeak.fails x d e) =
      idle-IsSound s j t here i (at t (ending (clear ∷ again (exchanging x d) ∷ []))) refl refl refl
        (λ b ne. ground arith) (λ b ne. ground arith)
  CompareExchangeWeak-IsSound (CompareExchangeWeak.finds_null x d e ne) =
      idle-IsSound s j t here i (at t (ending (drop d ∷ drop x ∷ clear ∷ drop d ∷ []))) refl refl
        refl (λ b ne. ground arith) (λ b ne. ground arith)
  CompareExchangeWeak-IsSound (CompareExchangeWeak.tries x d p e other _) =
      tries_to_add (exchanging x d) p e
