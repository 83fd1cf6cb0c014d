-- ===== src/Gc/SharedKeeps.antt =====
-- The operations of `SharedState` and `SharedPtr` of source/gc/atomic_shared_ptr.hpp keep the invariant.
use cpp_concurrency.Base.{
  ℕ, ◌+◌, ◌≡◌, refl, sym, ap, ◌∙◌, [], ◌∷◌, some, get_elem?, bit, ◌==◌, set_self, arith,
}
use cpp_concurrency.Gc.{
  System, Thread, Ptr, Job, loading, exchanging, drop, clear, again, reading, adding, ending,
  retiring, go, at, taken, Has,
}
use cpp_concurrency.Gc.References.{todo_refs, job_refs}
use cpp_concurrency.Gc.Invariant.{
  IsSound, aimed, shown, sought, go-IsSound, plain-IsSound, idle-IsSound, refs-le-counter,
  shows-IsSound,
}
use cpp_concurrency.Gc.Shared.{
  Reset, TryAddRef, MakeShared, Copy, Destroy, CopyAssign, MoveAssign, Return,
}
use cpp_concurrency.Gc.Atomic.{taker}

-- The new reference is accounted for.
refs-taker :
    (a : Ptr) (job : Job) (p : Ptr) → todo_refs a (taker job p) ≡ job_refs a job + bit (p == a)
refs-taker a loading p = omega arith
refs-taker a (exchanging e d) p = omega arith

module _ (s : System) (j : ℕ) (t : Thread) (here : get_elem? s.threads j ≡ some t)
    (i : IsSound s) where
  pub Reset-IsSound : {s' : System} → Reset s j t s' → IsSound s'
  Reset-IsSound (Reset.skips rest e) =
      idle-IsSound s j t here i (at t (ending rest)) refl refl refl (λ b ne. ground arith)
        (λ b ne. ground arith)
  Reset-IsSound (Reset.unlinks a rest e some_ptr many) =
      plain-IsSound s j t here i _ (at t (ending rest)) refl refl refl refl refl
        (λ b ne. ground (arith, refs-le-counter s j t here i b ne))
        (λ b ne. ground (arith, refs-le-counter s j t here i b ne))
  Reset-IsSound (Reset.unlinks_last a rest e some_ptr one) =
      plain-IsSound s j t here i _ (at t (retiring a rest)) refl refl refl refl refl
        (λ b ne. ground arith) (λ b ne. ground arith)

  pub TryAddRef-IsSound : {s' : System} → TryAddRef s j t taker s' → IsSound s'
  TryAddRef-IsSound (TryAddRef.reads job p e) =
      shows-IsSound s j t here i (at t (adding job p (s.counter p))) (sym (ap aimed e))
        (sym (ap shown e)) refl refl (λ b ne. ground arith) (λ b ne. ground arith)
  TryAddRef-IsSound (TryAddRef.gives_up job p e) =
      idle-IsSound s j t here i (at t (ending (clear ∷ again job ∷ []))) refl refl refl
        (λ b ne. ground arith) (λ b ne. ground arith)
  TryAddRef-IsSound (TryAddRef.adds job p old e some_old same) =
      plain-IsSound s j t here i _ (at t (ending (taker job p))) refl refl refl refl refl
        (λ b ne. ground (arith, refs-taker b job p)) (λ b ne. ground arith)
  TryAddRef-IsSound (TryAddRef.fails job p old e ne) =
      shows-IsSound s j t here i (at t (adding job p (s.counter p))) (sym (ap aimed e))
        (sym (ap shown e)) refl refl (λ b ne. ground arith) (λ b ne. ground arith)

  pub MakeShared-IsSound : {s' : System} → MakeShared s j t s' → IsSound s'
  MakeShared-IsSound (MakeShared.makes a e ne new) =
      go-IsSound s _ j t t (set_self s.threads j t here) here i (record {
        counts = λ b nb. ground (arith, i.wasted b nb);
        wastes = λ b nb. ground (arith, i.wasted b nb);
        keeps = λ k u f sh al. ground arith;
        aims = λ sh. absurd (sh (ap aimed e));
        shows = λ sh. absurd (sh (ap shown e));
        ahead = λ k v f sh. absurd (sh (ap shown e));
        behind = λ k u f sh g. absurd (sh (sym g ∙ ap sought e));
        apart = λ sh. absurd (sh (ap shown e));
      })

  pub Copy-IsSound : {s' : System} → Copy s j t s' → IsSound s'
  Copy-IsSound (Copy.copies a e ne some_held) =
      plain-IsSound s j t here i _ t (set_self s.threads j t here) (ap aimed e) (ap shown e)
        (ap sought e) refl (λ b nb. ground arith) (λ b nb. ground (arith, i.counted b nb))

  -- The caller gives a pointer up, and the thread goes on to drop it.
  gives_up-IsSound :
      (a : Ptr)
      → t.pc ≡ ending []
      → Has s.held a
      → IsSound (go (record s { held = taken s.held a }) j (at t (ending (drop a ∷ []))))
  gives_up-IsSound a e has =
      plain-IsSound s j t here i _ (at t (ending (drop a ∷ []))) refl refl refl refl refl
        (λ b nb. ground arith) (λ b nb. ground arith)

  pub Destroy-IsSound : {s' : System} → Destroy s j t s' → IsSound s'
  Destroy-IsSound (Destroy.resets a e has) = gives_up-IsSound a e has

  pub CopyAssign-IsSound : {s' : System} → CopyAssign s j t s' → IsSound s'
  CopyAssign-IsSound (CopyAssign.takes_null a e has) = gives_up-IsSound a e has
  CopyAssign-IsSound (CopyAssign.assigns a b e has ne some_held) =
      plain-IsSound s j t here i _ (at t (ending (drop a ∷ []))) refl refl refl refl refl
        (λ c nc. ground arith) (λ c nc. ground (arith, i.counted c nc))

  pub MoveAssign-IsSound : {s' : System} → MoveAssign s j t s' → IsSound s'
  MoveAssign-IsSound (MoveAssign.moves a e has) = gives_up-IsSound a e has

  pub Return-IsSound : {s' : System} → Return s j t s' → IsSound s'
  Return-IsSound (Return.gives a rest e) =
      plain-IsSound s j t here i _ (at t (ending rest)) refl refl refl refl refl
        (λ b nb. ground arith) (λ b nb. ground arith)
  Return-IsSound (Return.repeats job e) =
      idle-IsSound s j t here i (at t (reading job)) refl refl refl (λ b ne. ground arith)
        (λ b ne. ground arith)
