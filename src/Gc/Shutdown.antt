-- ===== src/Gc/Shutdown.antt =====
-- The end of the program, in source/gc/hazard: `~Collector`, when no thread is left, with `Gc` of each
-- mutator as a function.
use cpp_concurrency.Base.{
  ◌+◌, ◌≡◌, ◌≢◌, refl, sym, ap, subst, ◌∙◌, Bool, true, false, List, [], ◌∷◌, ◌++◌, append-nil,
  append_assoc, ◌==◌, if◌then◌else◌, All, arith, tally, bit, tally-append, SameItems,
}
use cpp_concurrency.Gc.{Ptr, null, Thread}

-- `IsProtected`, while nothing changes.
pub is_protected : List Thread → Ptr → Bool
is_protected [] a = false
is_protected (t ∷ ts) a = if t.hazard == a then true else is_protected ts a

-- What has been destroyed so far, in order, and what is kept.
pub record Sweep : Type 0 where
  pub destroyed : List Ptr
  pub kept : List Ptr

unfoldable pub sweep_one : List Thread → Sweep → Ptr → Sweep
sweep_one ts w a =
    if is_protected ts a
    then record w { kept = w.kept ++ a ∷ [] }
    else record w { destroyed = w.destroyed ++ a ∷ [] }

-- `Mutator::Gc`, on the list `retired_`.
unfoldable pub gc : List Thread → Sweep → List Ptr → Sweep
gc ts w [] = w
gc ts w (a ∷ retired) = gc ts (sweep_one ts w a) retired

-- `Collector::~Collector`: a `Gc` for each mutator from the head on, and what its list still holds. The
-- mutators are deleted, with their lists.
unfoldable pub collect : List Thread → Sweep → List Thread → Sweep
collect all w [] = w
collect all w (t ∷ ts) = collect all (gc all w t.retired) ts

abbrev pub retired_by : List Thread → List Ptr
retired_by [] = []
retired_by (t ∷ ts) = t.retired ++ retired_by ts

sweep_one-tally :
    (p : Ptr → Bool) (ts : List Thread) (w : Sweep) (a : Ptr)
    → tally p (sweep_one ts w a).destroyed + tally p (sweep_one ts w a).kept
      ≡ tally p w.destroyed + tally p w.kept + bit (p a)
unfolding sweep_one
sweep_one-tally p ts w a =
    ground (arith, tally-append p w.kept (a ∷ []), tally-append p w.destroyed (a ∷ []))

gc-tally :
    (p : Ptr → Bool) (ts : List Thread) (w : Sweep) (retired : List Ptr)
    → tally p (gc ts w retired).destroyed + tally p (gc ts w retired).kept
      ≡ tally p w.destroyed + tally p w.kept + tally p retired
unfolding gc
gc-tally p ts w [] = omega arith
gc-tally p ts w (a ∷ retired) =
    omega (arith, gc-tally p ts (sweep_one ts w a) retired, sweep_one-tally p ts w a)

collect-tally :
    (p : Ptr → Bool) (all : List Thread) (w : Sweep) (ts : List Thread)
    → tally p (collect all w ts).destroyed + tally p (collect all w ts).kept
      ≡ tally p w.destroyed + tally p w.kept + tally p (retired_by ts)
unfolding collect
collect-tally p all w [] = omega arith
collect-tally p all w (t ∷ ts) = omega (
  arith,
  collect-tally p all (gc all w t.retired) ts,
  gc-tally p all w t.retired,
  tally-append p t.retired (retired_by ts),
)

-- Where no hazard pointer is left, nothing that was retired is protected.
unprotected :
    (ts : List Thread) (a : Ptr)
    → All (λ t. t.hazard ≡ null) ts
    → a ≢ null
    → is_protected ts a ≡ false
unfolding is_protected
unprotected [] a h ne = refl
unprotected (t ∷ ts) a h ne = ground (arith, unprotected ts a h.1 ne)

sweep_one-free :
    (ts : List Thread) (w : Sweep) (a : Ptr)
    → is_protected ts a ≡ false
    → sweep_one ts w a ≡ record w { destroyed = w.destroyed ++ a ∷ [] }
unfolding sweep_one
sweep_one-free ts w a e = rw e

-- The sweep destroys the objects in order and keeps none.
abbrev IsSwept : Sweep → List Ptr → Sweep → Type 0
IsSwept w retired w' = (w'.destroyed ≡ w.destroyed ++ retired) × (w'.kept ≡ w.kept)

gc-IsSwept :
    (ts : List Thread) (w : Sweep) (retired : List Ptr)
    → All (λ t. t.hazard ≡ null) ts
    → All (λ a. a ≢ null) retired
    → IsSwept w retired (gc ts w retired)
unfolding gc
gc-IsSwept ts w [] h ne = (sym (append-nil w.destroyed), refl)
gc-IsSwept ts w (a ∷ retired) h ne =
    let w' : Sweep = record w { destroyed = w.destroyed ++ a ∷ [] } in
    let rest = gc-IsSwept ts w' retired h ne.1 in
    subst (λ (v : Sweep). IsSwept w (a ∷ retired) (gc ts v retired))
      (sym (sweep_one-free ts w a (unprotected ts a h ne.0)))
      (rest.0 ∙ append_assoc w.destroyed (a ∷ []) retired, rest.1)

collect-IsSwept :
    (all : List Thread) (w : Sweep) (ts : List Thread)
    → All (λ t. t.hazard ≡ null) all
    → All (λ t. All (λ a. a ≢ null) t.retired) ts
    → IsSwept w (retired_by ts) (collect all w ts)
unfolding collect
collect-IsSwept all w [] h ne = (sym (append-nil w.destroyed), refl)
collect-IsSwept all w (t ∷ ts) h ne =
    let one = gc-IsSwept all w t.retired h ne.0 in
    let rest = collect-IsSwept all (gc all w t.retired) ts h ne.1 in
    (
      rest.0
          ∙ ap (λ (l : List Ptr). l ++ retired_by ts) one.0
          ∙ append_assoc w.destroyed t.retired (retired_by ts),
      rest.1 ∙ one.1,
    )

abbrev pub nothing : Sweep
nothing = record { destroyed = []; kept = [] }

-- If no hazard pointer is set and no retired object is null, `~Collector` destroys all that the
-- mutators have retired, in the order of the mutators and of their lists.
pub collect-destroys :
    (ts : List Thread)
    → All (λ t. t.hazard ≡ null) ts
    → All (λ t. All (λ a. a ≢ null) t.retired) ts
    → (collect ts nothing ts).destroyed ≡ retired_by ts
collect-destroys ts h ne = (collect-IsSwept ts nothing ts h ne).0

-- Whatever hazard pointers are set, `~Collector` destroys or keeps each retired object as often as
-- it was retired.
pub collect-accounts :
    (ts : List Thread)
    → SameItems ((collect ts nothing ts).destroyed ++ (collect ts nothing ts).kept) (retired_by ts)
collect-accounts ts p = omega (
  arith,
  collect-tally p ts nothing ts,
  tally-append p (collect ts nothing ts).destroyed (collect ts nothing ts).kept,
)
