-- ===== src/Sync/Mutex/Invariant.antt =====
-- What holds between the mutex of source/fiber/sync/mutex.cpp and the fibers that use it.
use cpp_concurrency.Base.{
  ℕ, ◌≡◌, ◌≢◌, refl, sym, ◌∙◌, subst, ◌⊎◌, inl, inr, true, false, List, [], ◌∷◌, ◌++◌, set_at,
  set_at-cases,
}
use cpp_concurrency.Sync.Mutex.{System, Pc, trying, parked, inside, init}

-- A fiber is in a list.
abbrev pub IsIn : ℕ → List ℕ → Type 0
IsIn j [] = ⊥
IsIn j (x ∷ xs) = (j ≡ x) ⊎ IsIn j xs

IsIn-append : (j k : ℕ) (xs : List ℕ) → IsIn j xs → IsIn j (xs ++ k ∷ [])
IsIn-append j k [] h = elim h [ ]
IsIn-append j k (x ∷ xs) (inl e) = inl e
IsIn-append j k (x ∷ xs) (inr h) = inr (IsIn-append j k xs h)

IsIn-last : (j : ℕ) (xs : List ℕ) → IsIn j (xs ++ j ∷ [])
IsIn-last j [] = inl refl
IsIn-last j (x ∷ xs) = inr (IsIn-last j xs)

-- The fiber `j` stands at `pc`.
pub record Someone (s : System) (pc : Pc) : Type 0 where
  pub who : ℕ
  pub at : s.pcs who ≡ pc

-- The flag says whether a fiber is inside, at most one is, the suspended fibers are in the queue, and
-- if the queue is not empty, then some fiber is inside or on its way.
pub record IsSound (s : System) : Type 0 where
  pub free : s.mutex.is_locked ≡ false → (j : ℕ) → s.pcs j ≢ inside
  pub held : s.mutex.is_locked ≡ true → Someone s inside
  pub alone : (j k : ℕ) → s.pcs j ≡ inside → s.pcs k ≡ inside → j ≡ k
  pub queued : (j : ℕ) → s.pcs j ≡ parked → IsIn j s.mutex.fibers
  pub awake : s.mutex.fibers ≢ [] → (s.mutex.is_locked ≡ true) ⊎ Someone s trying

pub init-IsSound : IsSound init
init-IsSound = record {
  free = λ e j f. cc f;
  held = λ e. cc e;
  alone = λ j k e f. cc e;
  queued = λ j e. cc e;
  awake = λ ne. absurd (ne refl);
}

-- A change of where one fiber stands, from a place that is not inside, to one that is neither inside
-- nor suspended.
pub moves :
    (s : System) (j : ℕ) (pc : Pc)
    → IsSound s
    → s.pcs j ≢ inside
    → s.pcs j ≢ trying
    → pc ≢ inside
    → pc ≢ parked
    → IsSound (record s { pcs = set_at s.pcs j pc })
moves s j pc i out still to not_parked = record {
  free = λ e k f. elim (set_at-cases s.pcs j pc k) [
    | inl a ↦ to (sym a.1 ∙ f)
    | inr a ↦ i.free e k (sym a.1 ∙ f)
  ];
  held = λ e.
      let h = i.held e in
      elim (set_at-cases s.pcs j pc h.who) [
        | inl a ↦ absurd (out (subst (λ k. s.pcs k ≡ inside) a.0 h.at))
        | inr a ↦ record { who = h.who; at = a.1 ∙ h.at }
      ];
  alone = λ k l e f. elim (set_at-cases s.pcs j pc k) [
    | inl a ↦ absurd (to (sym a.1 ∙ e))
    | inr a ↦ elim (set_at-cases s.pcs j pc l) [
      | inl b ↦ absurd (to (sym b.1 ∙ f))
      | inr b ↦ i.alone k l (sym a.1 ∙ e) (sym b.1 ∙ f)
    ]
  ];
  queued = λ k e. elim (set_at-cases s.pcs j pc k) [
    | inl a ↦ absurd (not_parked (sym a.1 ∙ e))
    | inr a ↦ i.queued k (sym a.1 ∙ e)
  ];
  awake = λ ne. elim (i.awake ne) [
    | inl e ↦ inl e
    | inr w ↦ elim (set_at-cases s.pcs j pc w.who) [
      | inl a ↦ absurd (still (subst (λ k. s.pcs k ≡ trying) a.0 w.at))
      | inr a ↦ inr (record { who = w.who; at = a.1 ∙ w.at })
    ]
  ];
}

-- A fiber that is not inside takes the mutex while it is free.
pub takes :
    (s : System) (j : ℕ)
    → IsSound s
    → s.mutex.is_locked ≡ false
    → s.pcs j ≢ parked
    → IsSound (record { mutex = record s.mutex { is_locked = true }; pcs = set_at s.pcs j inside })
takes s j i vacant not_parked = record {
  free = λ e. cc e;
  held = λ e. elim (set_at-cases s.pcs j inside j) [
    | inl a ↦ record { who = j; at = a.1 }
    | inr a ↦ absurd (a.0 refl)
  ];
  alone = λ k l e f. elim (set_at-cases s.pcs j inside k) [
    | inl a ↦ elim (set_at-cases s.pcs j inside l) [
      | inl b ↦ a.0 ∙ sym b.0
      | inr b ↦ absurd (i.free vacant l (sym b.1 ∙ f))
    ]
    | inr a ↦ absurd (i.free vacant k (sym a.1 ∙ e))
  ];
  queued = λ k e. elim (set_at-cases s.pcs j inside k) [
    | inl a ↦ absurd (cc (sym a.1 ∙ e))
    | inr a ↦ i.queued k (sym a.1 ∙ e)
  ];
  awake = λ ne. inl refl;
}

-- A fiber that finds the mutex locked is suspended.
pub parks :
    (s : System) (j : ℕ)
    → IsSound s
    → s.mutex.is_locked ≡ true
    → s.pcs j ≢ inside
    → IsSound (record {
      mutex = record { is_locked = true; fibers = s.mutex.fibers ++ j ∷ [] };
      pcs = set_at s.pcs j parked;
    })
parks s j i locked out = record {
  free = λ e. cc e;
  held = λ e.
      let h = i.held locked in
      elim (set_at-cases s.pcs j parked h.who) [
        | inl a ↦ absurd (out (subst (λ k. s.pcs k ≡ inside) a.0 h.at))
        | inr a ↦ record { who = h.who; at = a.1 ∙ h.at }
      ];
  alone = λ k l e f. elim (set_at-cases s.pcs j parked k) [
    | inl a ↦ absurd (cc (sym a.1 ∙ e))
    | inr a ↦ elim (set_at-cases s.pcs j parked l) [
      | inl b ↦ absurd (cc (sym b.1 ∙ f))
      | inr b ↦ i.alone k l (sym a.1 ∙ e) (sym b.1 ∙ f)
    ]
  ];
  queued = λ k e. elim (set_at-cases s.pcs j parked k) [
    | inl a ↦ subst (λ n. IsIn n (s.mutex.fibers ++ j ∷ [])) (sym a.0) (IsIn-last j s.mutex.fibers)
    | inr a ↦ IsIn-append k j s.mutex.fibers (i.queued k (sym a.1 ∙ e))
  ];
  awake = λ ne. inl refl;
}
