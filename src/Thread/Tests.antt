-- ===== src/Thread/Tests.antt =====
-- Two threads at the locks of source/thread, and a condition variable at its last count.
use cpp_concurrency.Base.{
  ℕ, ◌+◌, ◌^◌, ◌≡◌, ◌⊎◌, refl, arith, set_at, ltb, true, [], ◌∷◌, some, get_elem?,
}
use cpp_concurrency.Thread.Event as Event
use cpp_concurrency.Thread.Event.{Event, asleep-helped}
use cpp_concurrency.Thread.WaitGroup as WaitGroup
use cpp_concurrency.Thread.WaitGroup.{WaitGroup, zero-releases}
use cpp_concurrency.Thread.SpinLock as SpinLock
use cpp_concurrency.Thread.SpinLock.Safety.{Reach-sole}
use cpp_concurrency.Thread.CondVar.{CondVar, my_order, passes, notified, passes-notified}
use cpp_concurrency.Thread.Mutex.{
  System, outside, swapping, checking, sleeping, inside, waking, locks, misses, swaps_in_vain,
  sleeps, Reach, start, later,
}
use cpp_concurrency.Thread.Mutex.Invariant.{Someone}
use cpp_concurrency.Thread.Mutex.Safety.{Reach-helped}

-- The thread 1 has the mutex, and the thread 2 sleeps.
abbrev one_sleeps : System
one_sleeps = record {
  is_vacant = 2;
  pcs = set_at (set_at (set_at (set_at (λ _. outside) 1 inside) 2 swapping) 2 checking) 2 sleeping;
}

reached : Reach one_sleeps
reached =
    later
      (later (later (later start (locks 1 refl refl)) (misses 2 refl (omega arith)))
        (swaps_in_vain 2 refl (omega arith)))
      (sleeps 2 refl refl)

abbrev owner : ℕ
owner = 1

Reach-helped_example :
    Someone one_sleeps inside ⊎ (Someone one_sleeps swapping ⊎ Someone one_sleeps waking)
Reach-helped_example = Reach-helped one_sleeps 2 reached refl

-- The thread 1 has the spin lock, and the thread 2 is in the inner loop.
abbrev one_spins : SpinLock.System
one_spins = record {
  locked = 1;
  pcs =
      set_at
        (set_at (set_at (set_at (λ _. SpinLock.outside) 1 SpinLock.exchanging) 1 SpinLock.inside) 2
          SpinLock.exchanging)
        2 SpinLock.loading;
}

spin_reached : SpinLock.Reach one_spins
spin_reached =
    SpinLock.later
      (SpinLock.later
        (SpinLock.later (SpinLock.later SpinLock.start (SpinLock.enters 1 refl))
          (SpinLock.exchanges 1 refl))
        (SpinLock.enters 2 refl))
      (SpinLock.exchanges 2 refl)

Reach-sole_example : owner ≡ owner
Reach-sole_example = Reach-sole one_spins owner owner spin_reached refl refl

abbrev last_count : CondVar
last_count = record { atom = 4294967295 }

passes-notified_example :
    passes (my_order last_count) (notified 3 last_count) ≡ ltb (4294967295 + 3) (2 ^ 32)
passes-notified_example = passes-notified 3 last_count (omega arith) (omega arith) (omega arith)

-- The thread 0 sleeps, and the thread 1 has fired the event and is about to wake it.
abbrev half_fired : Event
half_fired = record { fired = true; threads = Event.asleep ∷ Event.waking ∷ [] }

half_fired_reached : Event.Reach (Event.init 2) half_fired
half_fired_reached =
    Event.later
      (Event.later
        (Event.later
          (Event.later (Event.later Event.here (Event.calls_wait 0 refl)) (Event.is_loaded 0 refl))
          (Event.is_slept 0 refl))
        (Event.calls_fire 1 refl))
      (Event.is_stored 1 refl)

asleep-helped_example : (k : ℕ) × (get_elem? half_fired.threads k ≡ some Event.waking)
asleep-helped_example = asleep-helped 2 half_fired 0 half_fired_reached refl refl

-- A thread that waited for one task was woken.
abbrev released : WaitGroup
released = record { waiting = 1; count = 0; blocked = 0; notified = 1 }

released_reached : WaitGroup.Reach WaitGroup.init released
unfolding WaitGroup.add WaitGroup.wait WaitGroup.test WaitGroup.done
released_reached =
    WaitGroup.later
      (WaitGroup.later (WaitGroup.later WaitGroup.here (WaitGroup.adds 1 (omega arith)))
        WaitGroup.waits)
      (WaitGroup.is_done (omega arith))

zero-releases_example :
    (released.notified ≡ released.waiting)
    × ((WaitGroup.wait released).0 ≡ true)
    × ((WaitGroup.resume released).0 ≡ true)
zero-releases_example = zero-releases released released_reached refl
