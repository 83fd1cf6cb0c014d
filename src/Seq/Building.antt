-- ===== src/Seq/Building.antt =====
-- Futures are built, of source/future/make and of the combinators.
use cpp_concurrency.Base.{ℕ, ◌<◌, refl, Bool, List, [], ◌∷◌, ◌++◌, length, get_elem?-lt, arith}
use cpp_concurrency.Seq.{
  Data, View, Expr, ready, spawn, piped, via, flattened, Nested, wrapped, mapped,
}
use cpp_concurrency.Seq.Meaning.{denote, denote_nested}
use cpp_concurrency.Seq.Machine.{
  datum, future, sets, build, build_nested, attach, attach_nest, attach_join, set_runtime, produce,
  submits, Contract, fresh, goes_on, make, make_nested,
}
use cpp_concurrency.Seq.Goals.{Goal, leaf, nest, Gives, Gives-append, Fits, FitsStore}
use cpp_concurrency.Seq.Cost.{cost, cost_nested}
use cpp_concurrency.Seq.Store.{append-Gives}
use cpp_concurrency.Seq.Effects.{Sound, keeps, news}

module _ (inline : View) (at_once : View → Bool) (answer : Data) (gs : List Goal)
    (cs : List Contract) (fit : FitsStore answer gs cs) where
  -- What was there stays.
  old : (c : ℕ) (g more : Goal) → Gives gs c g → Gives (gs ++ more ∷ []) c g
  old c g more h = Gives-append gs (more ∷ []) c g h

  -- A goal is of a contract that is older than a new one.
  older : (c : ℕ) (g : Goal) → Gives gs c g → c < length cs
  older c g h = omega (arith, fit.as_many, get_elem?-lt gs c g h)

  pub make-Sound :
      (e : Expr) (c : ℕ)
      → Fits answer gs (build e c)
      → Sound answer gs cs (build e c) (make inline at_once cs c e)
  unfolding make denote cost
  make-Sound (ready d) c h =
      keeps answer gs cs fit (build (ready d) c) (goes_on cs (produce c (datum d) ∷ [])) refl
        (h, tt) tt tt (λ b. omega arith) (λ b. refl) refl refl
  make-Sound (spawn rt d) c h =
      keeps answer gs cs fit (build (spawn rt d) c)
        (goes_on cs (set_runtime c rt ∷ submits rt (sets c d) ∷ [])) refl ((leaf d, h), (h, tt)) tt
        tt (λ b. omega arith) (λ b. refl) refl refl
  make-Sound (piped e pipe) c h =
      let new = append-Gives answer gs cs fit (leaf (denote e)) in
      news answer gs cs fit (build (piped e pipe) c) (leaf (denote e)) (fresh inline at_once)
        (build e (length cs) ∷ attach (length cs) pipe c ∷ []) refl
        (new, ((denote e, new, old c _ _ h, older c _ h), tt)) (λ b. omega arith) (λ b. omega arith)
        refl (rw new (omega arith))
  make-Sound (via e rt) c h =
      keeps answer gs cs fit (build (via e rt) c) (goes_on cs (build e c ∷ set_runtime c rt ∷ []))
        refl (h, ((leaf (denote e), h), tt)) tt tt (λ b. omega arith) (λ b. refl) refl (omega arith)
  make-Sound (flattened n) c h =
      let new = append-Gives answer gs cs fit (nest (denote_nested n)) in
      news answer gs cs fit (build (flattened n) c) (nest (denote_nested n)) (fresh inline at_once)
        (build_nested n (length cs) ∷ attach_join (length cs) c ∷ []) refl
        (new, ((denote_nested n, new, old c _ _ h, older c _ h), tt)) (λ b. omega arith)
        (λ b. omega arith) refl (omega arith)

  pub make_nested-Sound :
      (n : Nested) (c : ℕ)
      → Fits answer gs (build_nested n c)
      → Sound answer gs cs (build_nested n c) (make_nested inline at_once cs c n)
  unfolding make_nested denote_nested cost_nested
  make_nested-Sound (wrapped e) c h =
      let new = append-Gives answer gs cs fit (leaf (denote e)) in
      news answer gs cs fit (build_nested (wrapped e) c) (leaf (denote e)) (fresh inline at_once)
        (build e (length cs) ∷ produce c (future (length cs)) ∷ []) refl
        (new, ((denote e, old c _ _ h, new, older c _ h), tt)) (λ b. omega arith) (λ b. omega arith)
        refl (omega arith)
  make_nested-Sound (mapped e user) c h =
      let new = append-Gives answer gs cs fit (leaf (denote e)) in
      news answer gs cs fit (build_nested (mapped e user) c) (leaf (denote e))
        (fresh inline at_once) (build e (length cs) ∷ attach_nest (length cs) user c ∷ []) refl
        (new, ((denote e, new, old c _ _ h, older c _ h), tt)) (λ b. omega arith) (λ b. omega arith)
        refl (rw new (omega arith))
