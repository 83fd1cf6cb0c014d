-- ===== src/Thread/Mutex/Invariant.antt =====
-- What holds between the word of the mutex of source/thread/mutex.hpp and the threads that use it.
use cpp_concurrency.Base.{ℕ, ◌≡◌, ◌≢◌, refl, sym, ◌∙◌, subst, ◌⊎◌, inl, inr, set_at-cases}
use cpp_concurrency.Thread.Mutex.{System, Pc, swapping, sleeping, inside, waking, go, init}

-- The thread `who` stands at `pc`.
pub record Someone (s : System) (pc : Pc) : Type 0 where
  pub who : ℕ
  pub at : s.pcs who ≡ pc

-- Somebody will see to it that a sleeping thread is woken: the owner, who finds 2 in the word, a thread
-- before its exchange, or one about to wake another.
abbrev pub Helped : System → Type 0
Helped s = (s.is_vacant ≡ 2) ⊎ (Someone s swapping ⊎ Someone s waking)

-- The word is 0 exactly if nobody is inside, at most one thread is, and sleeping threads are helped.
pub record IsSound (s : System) : Type 0 where
  pub free : s.is_vacant ≡ 0 → (j : ℕ) → s.pcs j ≢ inside
  pub held : s.is_vacant ≢ 0 → Someone s inside
  pub alone : (j k : ℕ) → s.pcs j ≡ inside → s.pcs k ≡ inside → j ≡ k
  pub helped : (j : ℕ) → s.pcs j ≡ sleeping → Helped s

pub init-IsSound : IsSound init
init-IsSound = record {
  free = λ e j f. cc f;
  held = λ ne. absurd (ne refl);
  alone = λ j k e f. cc e;
  helped = λ j e. cc e;
}

pub go-here : (s : System) (v j : ℕ) (pc : Pc) → (go s v j pc).pcs j ≡ pc
go-here s v j pc = elim (set_at-cases s.pcs j pc j) [ inl a ↦ a.1 | inr a ↦ absurd (a.0 refl) ]

-- Somebody stays where another thread moves.
pub Someone-go :
    (s : System) (v j : ℕ) (pc at : Pc) → s.pcs j ≢ at → Someone s at → Someone (go s v j pc) at
Someone-go s v j pc at off w = elim (set_at-cases s.pcs j pc w.who) [
  | inl a ↦ absurd (off (subst (λ k. s.pcs k ≡ at) a.0 w.at))
  | inr a ↦ record { who = w.who; at = a.1 ∙ w.at }
]

-- Who stands at a place after a move elsewhere was there before.
pub before_go :
    (s : System) (v j : ℕ) (pc at : Pc) (k : ℕ)
    → pc ≢ at
    → (go s v j pc).pcs k ≡ at
    → (k ≢ j) × (s.pcs k ≡ at)
before_go s v j pc at k off e = elim (set_at-cases s.pcs j pc k) [
  | inl a ↦ absurd (off (sym a.1 ∙ e))
  | inr a ↦ (a.0, sym a.1 ∙ e)
]

-- A thread that is not inside moves to a place that is not inside, and the word stays 0 or stays another
-- number. Whoever sleeps then must be helped.
pub moves :
    (s : System) (v j : ℕ) (pc : Pc)
    → IsSound s
    → s.pcs j ≢ inside
    → pc ≢ inside
    → (v ≡ 0 → s.is_vacant ≡ 0)
    → (v ≢ 0 → s.is_vacant ≢ 0)
    → ((k : ℕ) → (go s v j pc).pcs k ≡ sleeping → Helped (go s v j pc))
    → IsSound (go s v j pc)
moves s v j pc i out off zero_back other_back help = record {
  free = λ e k f. i.free (zero_back e) k (before_go s v j pc inside k off f).1;
  held = λ ne. Someone-go s v j pc inside out (i.held (other_back ne));
  alone = λ k l e f.
      i.alone k l (before_go s v j pc inside k off e).1 (before_go s v j pc inside l off f).1;
  helped = help;
}

-- A thread takes the free mutex, and the word becomes `v`.
pub takes :
    (s : System) (v j : ℕ)
    → IsSound s
    → s.is_vacant ≡ 0
    → v ≢ 0
    → ((k : ℕ) → (go s v j inside).pcs k ≡ sleeping → Helped (go s v j inside))
    → IsSound (go s v j inside)
takes s v j i vacant some help = record {
  free = λ e. absurd (some e);
  held = λ ne. record { who = j; at = go-here s v j inside };
  alone = λ k l e f. elim (set_at-cases s.pcs j inside k) [
    | inl a ↦ elim (set_at-cases s.pcs j inside l) [
      | inl b ↦ a.0 ∙ sym b.0
      | inr b ↦ absurd (i.free vacant l (sym b.1 ∙ f))
    ]
    | inr a ↦ absurd (i.free vacant k (sym a.1 ∙ e))
  ];
  helped = help;
}

-- The owner gives the mutex back.
pub leaves :
    (s : System) (j : ℕ) (pc : Pc)
    → IsSound s
    → s.pcs j ≡ inside
    → pc ≢ inside
    → ((k : ℕ) → (go s 0 j pc).pcs k ≡ sleeping → Helped (go s 0 j pc))
    → IsSound (go s 0 j pc)
leaves s j pc i at off help = record {
  free = λ e k f. nobody k f;
  held = λ ne. absurd (ne refl);
  alone = λ k l e f. absurd (nobody k e);
  helped = help;
}
  where
    nobody : (k : ℕ) → (go s 0 j pc).pcs k ≢ inside
    nobody k f = let (ne, e) = before_go s 0 j pc inside k off f in ne (i.alone k j e at)
