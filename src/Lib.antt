-- ===== src/Lib.antt =====
-- A concurrency library: executors, fibers, channels, futures, and memory reclamation. This development models its parts
-- that keep state of their own, and proves what each promises to the others.
--
-- The parts, and the files that model them (paths from the root of the repository):
--
-- - LeftistHeap: source/detail/intrusive_leftist_heap.hpp, the heap of timers that every timer queue stands on.
--   `merge`, `push`, `top`, `pop` are its operations; intrusive links are subtrees. The recursion of
--   `merge` has fuel, one more than the number of timers; that this is enough is LeftistHeap/Merge. Sorted has
--   the heap as a priority queue.
-- - Sandbox: source/runtime/sandbox, a single-threaded executor with virtual time. `TimerQueue`, `Runtime` and
--   one function per method. Its timer queue holds a heap of LeftistHeap. What a task does when it runs is
--   a parameter of `run` and of all that calls it. The fuel of `pop_ready` is the size of the heap and
--   one, that of `run_at_most` is its limit and one.
-- - Chan: source/fiber/chan, channels between fibers. CircularBuffer is the storage, with Destroy for its destructor; Buffered and Rendezvous
--   are the two channels, with `send` and `receive`; Spec is the pipe that both implement, and Fifo is
--   about histories of calls. A call runs under the spin lock of the channel until its fiber is suspended,
--   so it is one step. Resuming a fiber is the work of the executors: an outcome names the fiber.
-- - Result: source/result, values and errors.
-- - Future: source/future, one-shot contracts between threads. Interleave has schedules of two sides; Contract
--   is detail/contract_state.hpp with detail/rendezvous.hpp, Promise is make/contract.hpp, and Both,
--   BothOk, First, FirstOk are the combinators of combine/concur, each a state with `step` of a side, one
--   access to shared memory at a time. Memory without an object, a deleted contract and a null pointer
--   are `none`.
-- - Ws: source/runtime/multi_thread/v2/ws, the work-stealing thread pool. StealingQueue is the local queue, a
--   step relation of one pushing thread and any number of taking threads, where each access to an atomic
--   is a step and the orders are sequentially consistent. GlobalQueue and Coordinator are the parts that
--   a spin lock guards. Worker is how tasks go in and how a worker picks the next one, a call at a time,
--   on the bounded list that the local queue implements.
-- - Seq: source/future/make, combine/seq and terminate. `Expr` is a program that builds a future; Meaning is the
--   value that it is to give, by the combinators of Result. Machine has the contracts and one instruction for
--   each thing that a thread does, with a function for each C++ function; Run has the runs, in which the
--   threads and the submitted tasks take turns in any order. Rights counts promises and futures, Goals says
--   what fits, Cost counts steps, and Effects to Keeps show that each instruction keeps these.
-- - Gc: source/gc, shared pointers with counted references and hazard pointers. Gc has the state; Hazard, Shared
--   and Atomic have one relation for each C++ function, and Steps joins them, for any number of threads.
--   References counts the references in hand, Invariant says what holds, HazardKeeps, SharedKeeps and
--   AtomicKeeps that each step keeps it. Shutdown is the destructor of the collector as a function.
-- - Sync: source/fiber/sync. WaitQueue is the queue of suspended fibers; Mutex has the calls of the mutex and a
--   step relation of any number of fibers, each call under the spin lock a step; WaitGroup and Event.
-- - Blocking: source/detail/queue.hpp, a monitor; its child Timers is detail/timer_queue.hpp. Threads that
--   wait for its condition variable are counted as blocked or notified; a wake-up for no reason is a step.
-- - Thread: source/thread. SpinLock and Mutex are step relations of any number of threads, each access to an
--   atomic and each call of the futex a step, and so is Event; CondVar is the count of notifications;
--   UniqueLock lists what a lock calls of its mutex, and WaitGroup is a monitor.
-- - Pool: source/runtime/multi_thread/v1, a step relation of workers, of the thread for timers, and of `Stop`, on
--   the queues of Blocking. Workers is what holds of the workers and their queue, Ran which tasks have run,
--   Deadlines what the thread for timers knows of its heap, and Lost a timer that `Stop` loses.
-- - Fibers: source/fiber/core and source/fiber/sched, a step relation of threads that resume fibers and of what
--   the routines call. Count has the pointers to a fiber by address, Keeps the invariant, Cost a bound on
--   the steps, Safety and Rest what follows.
-- - RunLoop: source/runtime/run_loop, on the queue of Blocking and the heap of LeftistHeap, a turn of the loop
--   of `GetTask` at a time, with the clock as an argument; Stopped is about the loop of `Run`, Blocked
--   about what wakes it.
-- Base has the names that all share. The modules called Tests apply the theorems to small inputs.
--
-- Not modelled: the switch between stacks, which is a library that is not in the repository; how threads are
-- started. Machine integers are natural numbers with
-- their wrap-around written out where it can happen: `size_t` in Sandbox and Ws, the counters of the
-- coordinator. Instants are microseconds that do not overflow.
pub mod Base
pub mod LeftistHeap
pub mod Sandbox
pub mod Chan
pub mod Result
pub mod Future
pub mod Ws
pub mod Sync
pub mod Blocking
pub mod RunLoop
pub mod Thread
pub mod Fibers
pub mod Gc
pub mod Seq
pub mod Pool
