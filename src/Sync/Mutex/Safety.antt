-- ===== src/Sync/Mutex/Safety.antt =====
-- Mutual exclusion, and that no fiber waits for ever for want of a wake-up, in
-- source/fiber/sync/mutex.cpp.
use cpp_concurrency.Base.{
  ℕ, ◌≡◌, ◌≢◌, refl, sym, ◌∙◌, subst, ◌⊎◌, inl, inr, false, List, [], ◌∷◌, Bool-cases, List-cases,
  set_at, set_at-cases,
}
use cpp_concurrency.Sync.Mutex.{
  System, Pc, outside, trying, parked, inside, Step, enters, attempts, tries, unlocks, Reach, start,
  later,
}
use cpp_concurrency.Sync.Mutex.Invariant.{IsIn, Someone, IsSound, init-IsSound, moves, takes, parks}

-- `Unlock` where no fiber waits.
leaves :
    (s : System) (j : ℕ)
    → IsSound s
    → s.pcs j ≡ inside
    → s.mutex.fibers ≡ []
    → IsSound
        (record { mutex = record { is_locked = false; fibers = [] }; pcs = set_at s.pcs j outside })
leaves s j i at empty = record {
  free = λ e k f. elim (set_at-cases s.pcs j outside k) [
    | inl a ↦ cc (sym a.1 ∙ f)
    | inr a ↦ a.0 (i.alone k j (sym a.1 ∙ f) at)
  ];
  held = λ e. cc e;
  alone = λ k l e f. elim (set_at-cases s.pcs j outside k) [
    | inl a ↦ absurd (cc (sym a.1 ∙ e))
    | inr a ↦ absurd (a.0 (i.alone k j (sym a.1 ∙ e) at))
  ];
  queued = λ k e. elim (set_at-cases s.pcs j outside k) [
    | inl a ↦ absurd (cc (sym a.1 ∙ e))
    | inr a ↦ subst (IsIn k) empty (i.queued k (sym a.1 ∙ e))
  ];
  awake = λ ne. absurd (ne refl);
}

-- `Unlock` where the fiber `r` has waited longest.
hands_over :
    (s : System) (j r : ℕ) (rest : List ℕ)
    → IsSound s
    → s.pcs j ≡ inside
    → s.mutex.fibers ≡ r ∷ rest
    → IsSound (record {
      mutex = record { is_locked = false; fibers = rest };
      pcs = set_at (set_at s.pcs j outside) r trying;
    })
hands_over s j r rest i at full = record {
  free = λ e k. nobody k;
  held = λ e. cc e;
  alone = λ k l e f. absurd (nobody k e);
  queued = queued;
  awake = λ ne. inr (record { who = r; at = here });
}
  where
    pcs : ℕ → Pc
    pcs = set_at (set_at s.pcs j outside) r trying

    nobody : (k : ℕ) → pcs k ≢ inside
    nobody k f = elim (set_at-cases (set_at s.pcs j outside) r trying k) [
      | inl a ↦ cc (sym a.1 ∙ f)
      | inr a ↦ elim (set_at-cases s.pcs j outside k) [
        | inl b ↦ cc (sym b.1 ∙ sym a.1 ∙ f)
        | inr b ↦ b.0 (i.alone k j (sym b.1 ∙ sym a.1 ∙ f) at)
      ]
    ]

    here : pcs r ≡ trying
    here = elim (set_at-cases (set_at s.pcs j outside) r trying r) [
      | inl a ↦ a.1
      | inr a ↦ absurd (a.0 refl)
    ]

    behind : (k : ℕ) → k ≢ r → IsIn k (r ∷ rest) → IsIn k rest
    behind k ne (inl e) = absurd (ne e)
    behind k ne (inr h) = h

    queued : (k : ℕ) → pcs k ≡ parked → IsIn k rest
    queued k e = elim (set_at-cases (set_at s.pcs j outside) r trying k) [
      | inl a ↦ absurd (cc (sym a.1 ∙ e))
      | inr a ↦ elim (set_at-cases s.pcs j outside k) [
        | inl b ↦ absurd (cc (sym b.1 ∙ sym a.1 ∙ e))
        | inr b ↦ behind k a.0 (subst (IsIn k) full (i.queued k (sym b.1 ∙ sym a.1 ∙ e)))
      ]
    ]

Step-IsSound : {s t : System} → IsSound s → Step s t → IsSound t
Step-IsSound {s} i (enters j e) =
    moves s j trying i (λ f. cc (sym e ∙ f)) (λ f. cc (sym e ∙ f)) (λ f. cc f) (λ f. cc f)
Step-IsSound {s} i (attempts j e) = elim (Bool-cases s.mutex.is_locked) [
  | inl locked ↦ rw locked (parks s j i locked (λ f. cc (sym e ∙ f)))
  | inr vacant ↦ rw vacant (takes s j i vacant (λ f. cc (sym e ∙ f)))
]
Step-IsSound {s} i (tries j e) = elim (Bool-cases s.mutex.is_locked) [
  | inl locked ↦ rw locked (
      subst
        (λ b. IsSound (record {
          mutex = record { is_locked = b; fibers = s.mutex.fibers };
          pcs = set_at s.pcs j outside;
        }))
        locked
        (moves s j outside i (λ f. cc (sym e ∙ f)) (λ f. cc (sym e ∙ f)) (λ f. cc f) (λ f. cc f)))
  | inr vacant ↦ rw vacant (takes s j i vacant (λ f. cc (sym e ∙ f)))
]
Step-IsSound {s} i (unlocks j e) = elim (List-cases s.mutex.fibers) [
  | inl empty ↦ rw empty (leaves s j i e empty)
  | inr more ↦ rw more.split (hands_over s j more.head more.tail i e more.split)
]

Reach-IsSound : {s : System} → Reach s → IsSound s
Reach-IsSound start = init-IsSound
Reach-IsSound (later r step) = Step-IsSound (Reach-IsSound r) step

-- However the calls of any number of fibers interleave, at most one fiber has the mutex of the
-- fibers.
pub Reach-exclusive : (s : System) (j k : ℕ) → Reach s → s.pcs j ≡ inside → s.pcs k ≡ inside → j ≡ k
Reach-exclusive s j k r e f = (Reach-IsSound r).alone j k e f

-- However the calls of any number of fibers interleave, while a fiber is suspended in `Lock`,
-- another has the mutex, or one is able to run on its way to take it: no wake-up is lost.
pub Reach-awake :
    (s : System) (j : ℕ) → Reach s → s.pcs j ≡ parked → Someone s inside ⊎ Someone s trying
Reach-awake s j r e =
    let i = Reach-IsSound r in
    elim (i.awake (λ empty. subst (IsIn j) empty (i.queued j e))) [
      | inl locked ↦ inl (i.held locked)
      | inr w ↦ inr w
    ]
