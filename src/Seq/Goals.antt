-- ===== src/Seq/Goals.antt =====
-- What each contract of a program of source/future is to give, and that instructions, callbacks and values
-- fit this.
use cpp_concurrency.Base.{ℕ, ◌<◌, ◌≡◌, List, [], ◌∷◌, ◌++◌, length, some, get_elem?}
use cpp_concurrency.Seq.{Data}
use cpp_concurrency.Seq.Meaning.{denote, denote_pipe, denote_nested}
use cpp_concurrency.Seq.Machine.{
  Callback, pipes, nests, joins, forwards, finishes, Value, datum, future, Task, sets, sets_future,
  passes_on, Instr, build, build_nested, attach, attach_nest, attach_join, set_runtime, produce,
  consume, call, submits, run, Phase, empty, produced, waiting, finished, Contract,
}

-- A value, or a future of a value.
pub data Goal : Type 0 where
  leaf : Data → Goal
  nest : Data → Goal

abbrev pub Gives : List Goal → ℕ → Goal → Type 0
Gives gs c g = get_elem? gs c ≡ some g

pub Gives-append : (gs more : List Goal) (c : ℕ) (g : Goal) → Gives gs c g → Gives (gs ++ more) c g
Gives-append [] more c g h = cc
Gives-append (x ∷ gs) more ℕ.zero g h = h
Gives-append (x ∷ gs) more (ℕ.suc c) g h = Gives-append gs more c g h

-- The callback, waiting at the contract `c`. Its promise is of an older contract. The end of the chain is to
-- get `answer`.
abbrev pub TakesAt : Data → List Goal → ℕ → Callback → Type 0
TakesAt answer gs c (pipes rt pipe p) =
    (d : Data) × Gives gs c (leaf d) × Gives gs p (leaf (denote_pipe pipe d)) × (p < c)
TakesAt answer gs c (nests rt user p) =
    (d : Data) × Gives gs c (leaf d) × Gives gs p (nest (denote (user d))) × (p < c)
TakesAt answer gs c (joins p) = (d : Data) × Gives gs c (nest d) × Gives gs p (leaf d) × (p < c)
TakesAt answer gs c (forwards p) = (d : Data) × Gives gs c (leaf d) × Gives gs p (leaf d) × (p < c)
TakesAt answer gs c finishes = Gives gs c (leaf answer)

-- The value, for the contract `c`. A future in it is of a newer contract.
abbrev pub SuitsAt : List Goal → ℕ → Value → Type 0
SuitsAt gs c (datum d) = Gives gs c (leaf d)
SuitsAt gs c (future k) = (d : Data) × Gives gs c (nest d) × Gives gs k (leaf d) × (c < k)

abbrev pub FitsTask : List Goal → Task → Type 0
FitsTask gs (sets p d) = Gives gs p (leaf d)
FitsTask gs (sets_future p user d) = Gives gs p (nest (denote (user d)))
FitsTask gs (passes_on p user v) = Gives gs p (leaf (denote (user v)))

abbrev pub Fits : Data → List Goal → Instr → Type 0
Fits answer gs (build e c) = Gives gs c (leaf (denote e))
Fits answer gs (build_nested n c) = Gives gs c (nest (denote_nested n))
Fits answer gs (attach from pipe to) =
    (d : Data) × Gives gs from (leaf d) × Gives gs to (leaf (denote_pipe pipe d)) × (to < from)
Fits answer gs (attach_nest from user to) =
    (d : Data) × Gives gs from (leaf d) × Gives gs to (nest (denote (user d))) × (to < from)
Fits answer gs (attach_join from to) =
    (d : Data) × Gives gs from (nest d) × Gives gs to (leaf d) × (to < from)
Fits answer gs (set_runtime c rt) = (g : Goal) × Gives gs c g
Fits answer gs (produce c v) = SuitsAt gs c v
Fits answer gs (consume c cb) = TakesAt answer gs c cb
Fits answer gs (call cb v) = (c : ℕ) × TakesAt answer gs c cb × SuitsAt gs c v
Fits answer gs (submits rt t) = FitsTask gs t
Fits answer gs (run t) = FitsTask gs t

abbrev pub FitsPhase : Data → List Goal → ℕ → Phase → Type 0
FitsPhase answer gs c empty = Unit
FitsPhase answer gs c (produced v) = SuitsAt gs c v
FitsPhase answer gs c (waiting cb) = TakesAt answer gs c cb
FitsPhase answer gs c finished = Unit

-- New contracts change nothing about the old.
abbrev pub Grows : List Goal → List Goal → Type 0
Grows gs gs' = (c : ℕ) (g : Goal) → Gives gs c g → Gives gs' c g

module _ (answer : Data) (gs gs' : List Goal) (grow : Grows gs gs') where
  pub TakesAt-grow : (c : ℕ) (cb : Callback) → TakesAt answer gs c cb → TakesAt answer gs' c cb
  TakesAt-grow c (pipes rt pipe p) h = (h.0, grow _ _ h.1, grow _ _ h.2, h.3)
  TakesAt-grow c (nests rt user p) h = (h.0, grow _ _ h.1, grow _ _ h.2, h.3)
  TakesAt-grow c (joins p) h = (h.0, grow _ _ h.1, grow _ _ h.2, h.3)
  TakesAt-grow c (forwards p) h = (h.0, grow _ _ h.1, grow _ _ h.2, h.3)
  TakesAt-grow c finishes h = grow _ _ h

  pub SuitsAt-grow : (c : ℕ) (v : Value) → SuitsAt gs c v → SuitsAt gs' c v
  SuitsAt-grow c (datum d) h = grow _ _ h
  SuitsAt-grow c (future k) h = (h.0, grow _ _ h.1, grow _ _ h.2, h.3)

  pub FitsTask-grow : (t : Task) → FitsTask gs t → FitsTask gs' t
  FitsTask-grow (sets p d) h = grow _ _ h
  FitsTask-grow (sets_future p user d) h = grow _ _ h
  FitsTask-grow (passes_on p user v) h = grow _ _ h

  pub Fits-grow : (i : Instr) → Fits answer gs i → Fits answer gs' i
  Fits-grow (build e c) h = grow _ _ h
  Fits-grow (build_nested n c) h = grow _ _ h
  Fits-grow (attach from pipe to) h = (h.0, grow _ _ h.1, grow _ _ h.2, h.3)
  Fits-grow (attach_nest from user to) h = (h.0, grow _ _ h.1, grow _ _ h.2, h.3)
  Fits-grow (attach_join from to) h = (h.0, grow _ _ h.1, grow _ _ h.2, h.3)
  Fits-grow (set_runtime c rt) h = (h.0, grow _ _ h.1)
  Fits-grow (produce c v) h = SuitsAt-grow c v h
  Fits-grow (consume c cb) h = TakesAt-grow c cb h
  Fits-grow (call cb v) h = (h.0, TakesAt-grow h.0 cb h.1, SuitsAt-grow h.0 v h.2)
  Fits-grow (submits rt t) h = FitsTask-grow t h
  Fits-grow (run t) h = FitsTask-grow t h

  pub FitsPhase-grow : (c : ℕ) (p : Phase) → FitsPhase answer gs c p → FitsPhase answer gs' c p
  FitsPhase-grow c empty h = h
  FitsPhase-grow c (produced v) h = SuitsAt-grow c v h
  FitsPhase-grow c (waiting cb) h = TakesAt-grow c cb h
  FitsPhase-grow c finished h = h

-- Every contract has a goal, and what it holds fits.
pub record FitsStore (answer : Data) (gs : List Goal) (cs : List Contract) : Type 0 where
  pub as_many : length cs ≡ length gs
  pub phases : (c : ℕ) (k : Contract) → get_elem? cs c ≡ some k → FitsPhase answer gs c k.phase
