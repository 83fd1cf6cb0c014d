-- ===== src/Sync/WaitGroup/Laws.antt =====
-- Histories of calls of the group of source/fiber/sync/wait_group.hpp: who is woken, and when.
use cpp_concurrency.Base.{
  ℕ, suc, ◌+◌, ◌-◌, ◌%◌, ◌^◌, ◌<◌, ◌≡◌, refl, sym, ap, ◌∙◌, inl, inr, Bool, true, false, List, [],
  ◌∷◌, ◌++◌, arith, ==-cases, append_assoc, append-nil,
}
use cpp_concurrency.Sync.WaitQueue.{wake_all_lem}
use cpp_concurrency.Sync.WaitGroup.{WaitGroup, add, done, wait}

pub data Call : Type 0 where
  adds : (n : ℕ) → Call
  dones : Call
  waits : (fiber : ℕ) → Call

-- A group, the fibers woken so far, in order, and those that had to wait, in order.
pub record Trace : Type 0 where
  pub group : WaitGroup
  pub woken : List ℕ
  pub waited : List ℕ

-- `fiber` is noted if it had to wait.
abbrev pub note : Bool → ℕ → List ℕ → List ℕ
note true fiber fibers = fibers
note false fiber fibers = fibers ++ fiber ∷ []

abbrev pub call : Call → Trace → Trace
call (adds n) t = record t { group = add n t.group }
call dones t = record t { group = (done t.group).1; woken = t.woken ++ (done t.group).0 }
call (waits f) t = record t {
  group = (wait f t.group).1;
  waited = note (wait f t.group).0 f t.waited;
}

abbrev pub calls : List Call → Trace → Trace
calls [] t = t
calls (k ∷ ks) t = calls ks (call k t)

-- From a count of `c`, no `Done` comes at 0, and no `Add` goes beyond a `size_t`. The count is then `d`.
pub data IsUse : ℕ → List Call → ℕ → Type 0 where
  ends : {c : ℕ} → IsUse c [] c
  added :
      {c d n : ℕ} {ks : List Call} → c + n < 2 ^ 64 → IsUse (c + n) ks d → IsUse c (adds n ∷ ks) d
  finished :
      {c d : ℕ} {ks : List Call} → suc c < 2 ^ 64 → IsUse c ks d → IsUse (suc c) (dones ∷ ks) d
  asked : {c d f : ℕ} {ks : List Call} → IsUse c ks d → IsUse c (waits f ∷ ks) d

-- The count is `c`, the fibers that had to wait have been woken or wait still, in order, and none
-- waits at a count of 0.
pub record IsTracked (c : ℕ) (t : Trace) : Type 0 where
  pub counted : t.group.count ≡ c
  pub in_order : t.woken ++ t.group.fibers ≡ t.waited
  pub released : c ≡ 0 → t.group.fibers ≡ []

done-last : (w : WaitGroup) → w.count ≡ 1 → done w ≡ (w.fibers, record { count = 0; fibers = [] })
done-last w e = rw (e, wake_all_lem w.fibers) refl

done-other :
    (w : WaitGroup) (c : ℕ)
    → w.count ≡ suc (suc c)
    → suc (suc c) < 2 ^ 64
    → done w ≡ ([], record w { count = suc c })
done-other w c e fit =
    let less : (w.count + 2 ^ 64 - 1) % 2 ^ 64 ≡ suc c = omega arith in rw less (ground arith)

call-done : (c : ℕ) (t : Trace) → suc c < 2 ^ 64 → IsTracked (suc c) t → IsTracked c (call dones t)
call-done ℕ.zero t fit i = rw (done-last t.group i.counted) (record {
  counted = refl;
  in_order = append-nil (t.woken ++ t.group.fibers) ∙ i.in_order;
  released = λ e. refl;
})
call-done (suc c) t fit i = rw (done-other t.group c i.counted fit) (record {
  counted = refl;
  in_order = ap (λ ws. ws ++ t.group.fibers) (append-nil t.woken) ∙ i.in_order;
  released = λ e. absurd (omega arith);
})

call-wait : (f c : ℕ) (t : Trace) → IsTracked c t → IsTracked c (call (waits f) t)
call-wait f c t i = elim (==-cases t.group.count 0) [
  | inl e ↦ rw e.1 (record { counted = i.counted; in_order = i.in_order; released = i.released })
  | inr e ↦ rw e.1 (record {
    counted = i.counted;
    in_order =
        sym (append_assoc t.woken t.group.fibers (f ∷ [])) ∙ ap (λ ws. ws ++ f ∷ []) i.in_order;
    released = λ z. absurd (e.0 (i.counted ∙ z));
  })
]

-- Through any calls of a wait group where no `Done` comes at a count of 0 and no `Add` overflows:
-- the count is what was added less what was done, the fibers that had to wait are woken in their
-- order, and none of them still waits when the count is 0.
pub calls-IsTracked :
    (ks : List Call) (c d : ℕ) (t : Trace) → IsUse c ks d → IsTracked c t → IsTracked d (calls ks t)
calls-IsTracked [] c d t ends i = i
calls-IsTracked (adds n ∷ ks) c d t (added fit u) i =
    calls-IsTracked ks (c + n) d (call (adds n) t) u (record {
      counted = omega (arith, i.counted);
      in_order = i.in_order;
      released = λ e. i.released (omega arith);
    })
calls-IsTracked (dones ∷ ks) ℕ.zero d t u i = elim u [ ]
calls-IsTracked (dones ∷ ks) (suc c) d t (finished fit u) i =
    calls-IsTracked ks c d (call dones t) u (call-done c t fit i)
calls-IsTracked (waits f ∷ ks) c d t (asked u) i =
    calls-IsTracked ks c d (call (waits f) t) u (call-wait f c t i)
