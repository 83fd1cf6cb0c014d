-- ===== src/Gc/Safety.antt =====
-- What the reclamation of source/gc promises in every state that threads can reach.
use cpp_concurrency.Base.{
  ℕ, ◌+◌, ◌<◌, ◌≡◌, ◌≢◌, refl, sym, ap, ◌∙◌, ◌⊎◌, inl, inr, true, ◌∷◌, some, get_elem?, bit, ltb,
  le-total, arith,
}
use cpp_concurrency.Gc.{
  System, Thread, Pc, Ptr, null, drop, storing, announcing, trying, adding, ending, retiring,
  scanning,
}
use cpp_concurrency.Gc.References.{doomed, references, doomed_by, pc_refs, pc_doomed}
use cpp_concurrency.Gc.Steps.{Act, acts, enters, Step, Reach, start, later}
use cpp_concurrency.Gc.Invariant.{IsSound, init-IsSound, refs-le-counter, shown}
use cpp_concurrency.Gc.HazardKeeps.{
  Protect-IsSound, ScopedReset-IsSound, Retire-IsSound, Gc-IsSound, IsProtected-IsSound,
  GetMutator-IsSound,
}
use cpp_concurrency.Gc.SharedKeeps.{
  Reset-IsSound, TryAddRef-IsSound, MakeShared-IsSound, Copy-IsSound, Destroy-IsSound,
  CopyAssign-IsSound, MoveAssign-IsSound, Return-IsSound,
}
use cpp_concurrency.Gc.AtomicKeeps.{Store-IsSound, Load-IsSound, CompareExchangeWeak-IsSound}

Act-IsSound :
    (s : System) (j : ℕ) (t : Thread) {s' : System}
    → get_elem? s.threads j ≡ some t
    → IsSound s
    → Act s j t s'
    → IsSound s'
Act-IsSound s j t h i (Act.protects m) = Protect-IsSound s j t h i m
Act-IsSound s j t h i (Act.unprotects m) = ScopedReset-IsSound s j t h i m
Act-IsSound s j t h i (Act.retires m) = Retire-IsSound s j t h i m
Act-IsSound s j t h i (Act.collects m) = Gc-IsSound s j t h i m
Act-IsSound s j t h i (Act.scans m) = IsProtected-IsSound s j t h i m
Act-IsSound s j t h i (Act.resets m) = Reset-IsSound s j t h i m
Act-IsSound s j t h i (Act.tries m) = TryAddRef-IsSound s j t h i m
Act-IsSound s j t h i (Act.makes m) = MakeShared-IsSound s j t h i m
Act-IsSound s j t h i (Act.copies m) = Copy-IsSound s j t h i m
Act-IsSound s j t h i (Act.destroys m) = Destroy-IsSound s j t h i m
Act-IsSound s j t h i (Act.copy_assigns m) = CopyAssign-IsSound s j t h i m
Act-IsSound s j t h i (Act.move_assigns m) = MoveAssign-IsSound s j t h i m
Act-IsSound s j t h i (Act.returns m) = Return-IsSound s j t h i m
Act-IsSound s j t h i (Act.stores m) = Store-IsSound s j t h i m
Act-IsSound s j t h i (Act.loads m) = Load-IsSound s j t h i m
Act-IsSound s j t h i (Act.exchanges m) = CompareExchangeWeak-IsSound s j t h i m

Step-IsSound : {s s' : System} → IsSound s → Step s s' → IsSound s'
Step-IsSound {s} i (acts j t h a) = Act-IsSound s j t h i a
Step-IsSound i (enters m) = GetMutator-IsSound i m

pub Reach-IsSound : {s : System} → Reach s → IsSound s
Reach-IsSound start = init-IsSound
Reach-IsSound (later r st) = Step-IsSound (Reach-IsSound r) st

-- The object whose memory the next step of a thread accesses: its counter, in `AddRef`, `Unlink` and
-- `TryAddRef`; its links, in `Retire`; all of it where `Gc` destroys it or keeps it.
abbrev pub touched : Pc → Ptr
touched (storing a) = a
touched (announcing e d) = d
touched (trying job p) = p
touched (adding job p old) = p
touched (ending (drop a ∷ rest)) = a
touched (retiring a rest) = a
touched (scanning a kept top k rest) = a
touched other = null

-- Such an object has a reference, is relied on, or is to be destroyed.
Claim : Ptr → Pc → Type 0
Claim a pc = (0 < pc_refs a pc) ⊎ ((0 < pc_doomed a pc) ⊎ (shown pc ≡ a))

touched-Claim : (pc : Pc) → touched pc ≢ null → Claim (touched pc) pc
unfolding Claim
touched-Claim (storing a) ne = inl (ground arith)
touched-Claim (announcing e d) ne = inl (ground arith)
touched-Claim (trying job p) ne = inr (inr refl)
touched-Claim (adding job p old) ne = inr (inr refl)
touched-Claim (ending (drop a ∷ rest)) ne = inl (ground arith)
touched-Claim (retiring a rest) ne = inr (inl (ground arith))
touched-Claim (scanning a kept top k rest) ne = inr (inl (ground arith))
touched-Claim other ne = absurd (ne refl)

claimed-alive :
    (s : System) (j : ℕ) (t : Thread) (a : Ptr)
    → IsSound s
    → get_elem? s.threads j ≡ some t
    → a ≢ null
    → Claim a t.pc
    → s.alive a ≡ true
unfolding Claim
claimed-alive s j t a i h ne (inl some_ref) =
    ground (arith, i.wasted a ne, refs-le-counter s j t h i a ne)
claimed-alive s j t a i h ne (inr (inl waste)) =
    ground (arith, i.wasted a ne, le-total (doomed a) s.threads j t h)
claimed-alive s j t a i h ne (inr (inr e)) =
    ap s.alive (sym e) ∙ i.shows j t h (λ z. ne (sym e ∙ z))

-- In any state that any number of threads can reach with an `AtomicSharedPtr`: an object whose
-- memory the next step of a thread accesses, to change its counter in the `AddRef` of `Store` and
-- `CompareExchangeWeak`, in `Unlink` or in `TryAddRef`, to retire it, or to destroy or keep it in
-- `Gc`, has not been destroyed.
pub Reach-alive :
    {s : System} (j : ℕ) (t : Thread)
    → Reach s
    → get_elem? s.threads j ≡ some t
    → touched t.pc ≢ null
    → s.alive (touched t.pc) ≡ true
Reach-alive {s} j t r h ne =
    claimed-alive s j t (touched t.pc) (Reach-IsSound r) h ne (touched-Claim t.pc ne)

-- In any such state, for any address that is not null: the counter is the number of shared pointers
-- to it, of callers, in the cell, and in hand inside of operations; and an object is there exactly
-- if it has such a reference or is to be destroyed, which is then due exactly once, so nothing
-- leaks or is destroyed twice.
pub Reach-counted :
    {s : System} (a : Ptr)
    → Reach s
    → a ≢ null
    → (s.counter a ≡ references s a)
      × (doomed_by s a + bit (ltb 0 (references s a)) ≡ bit (s.alive a))
Reach-counted {s} a r ne =
    let i = Reach-IsSound r in (i.counted a ne, ground (arith, i.counted a ne, i.wasted a ne))
