-- ===== src/Gc/References.antt =====
-- The references that the threads of source/gc/atomic_shared_ptr.hpp have in hand inside of an operation,
-- and the objects that they are about to destroy.
use cpp_concurrency.Base.{ℕ, ◌+◌, List, [], ◌∷◌, ◌==◌, bit, tally, total}
use cpp_concurrency.Gc.{
  System, Thread, Ptr, Job, loading, exchanging, Todo, drop, clear, give, again, Pc, storing,
  swapping, announcing, reading, setting, checking, protected, trying, adding, ending, retiring,
  sweeping, scanning,
}

-- How many of the references to `a` are in hand: of an attempt to exchange, the one of `expected`, the one
-- of `desired`, and the one that the cell is to get.
abbrev pub job_refs : Ptr → Job → ℕ
job_refs a loading = 0
job_refs a (exchanging e d) = bit (e == a) + (bit (d == a) + bit (d == a))

abbrev pub todo_refs : Ptr → List Todo → ℕ
todo_refs a [] = 0
todo_refs a (drop b ∷ rest) = bit (b == a) + todo_refs a rest
todo_refs a (clear ∷ rest) = todo_refs a rest
todo_refs a (give b ∷ rest) = bit (b == a) + todo_refs a rest
todo_refs a (again job ∷ rest) = job_refs a job + todo_refs a rest

abbrev pub pc_refs : Ptr → Pc → ℕ
pc_refs a (storing b) = bit (b == a)
pc_refs a (swapping b) = bit (b == a) + bit (b == a)
pc_refs a (announcing e d) = bit (e == a) + bit (d == a)
pc_refs a (reading job) = job_refs a job
pc_refs a (setting job p) = job_refs a job
pc_refs a (checking job p) = job_refs a job
pc_refs a (protected job p) = job_refs a job
pc_refs a (trying job p) = job_refs a job
pc_refs a (adding job p old) = job_refs a job
pc_refs a (ending rest) = todo_refs a rest
pc_refs a (retiring b rest) = todo_refs a rest
pc_refs a (sweeping kept rest) = todo_refs a rest
pc_refs a (scanning b kept top k rest) = todo_refs a rest

abbrev pub refs : Ptr → Thread → ℕ
refs a t = pc_refs a t.pc

abbrev pub count : Ptr → List Ptr → ℕ
count a = tally (λ b. b == a)

-- How often a thread means to destroy `a`.
abbrev pub pc_doomed : Ptr → Pc → ℕ
pc_doomed a (storing b) = 0
pc_doomed a (swapping b) = 0
pc_doomed a (announcing e d) = 0
pc_doomed a (reading job) = 0
pc_doomed a (setting job p) = 0
pc_doomed a (checking job p) = 0
pc_doomed a (protected job p) = 0
pc_doomed a (trying job p) = 0
pc_doomed a (adding job p old) = 0
pc_doomed a (ending rest) = 0
pc_doomed a (retiring b rest) = bit (b == a)
pc_doomed a (sweeping kept rest) = count a kept
pc_doomed a (scanning b kept top k rest) = bit (b == a) + count a kept

abbrev pub doomed : Ptr → Thread → ℕ
doomed a t = count a t.retired + pc_doomed a t.pc

-- All references to `a`: of the callers, of the cell, and in hand.
abbrev pub references : System → Ptr → ℕ
references s a = s.held a + (bit (s.cell == a) + total (refs a) s.threads)

abbrev pub doomed_by : System → Ptr → ℕ
doomed_by s a = total (doomed a) s.threads
