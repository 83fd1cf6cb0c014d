-- ===== src/Chan/Tests.antt =====
-- Short histories of the channels of source/fiber/chan.
use cpp_concurrency.Base.{
  ℕ, ◌+◌, ◌*◌, ◌%◌, ◌<◌, get_elem?, ◌≡◌, refl, inr, Option, none, some, List, [], ◌∷◌, arith,
}
use cpp_concurrency.Chan.CircularBuffer.{CircularBuffer, allocated, destroy}
use cpp_concurrency.Chan.CircularBuffer.Destroy.{destroy-frees}
use cpp_concurrency.Chan.CircularBuffer.Laws.{Holds}
use cpp_concurrency.Chan.Waiter.{senders, sender_node}
use cpp_concurrency.Chan.Buffered as Buffered
use cpp_concurrency.Chan.Buffered.{Channel}
use cpp_concurrency.Chan.Buffered.Laws.{Sending}
use cpp_concurrency.Chan.Buffered.Pipe as BufferedPipe
use cpp_concurrency.Chan.Rendezvous as Rendezvous
use cpp_concurrency.Chan.Rendezvous.Pipe as RendezvousPipe
use cpp_concurrency.Chan.Spec.{Pipe}
use cpp_concurrency.Chan.Fifo.{
  Call, sends, receives, sent, asked, run, IsFifo, buffered-IsFifo, rendezvous-IsFifo,
}

-- Room for one item, at which two fibers send and two receive.
abbrev history : List (Call ℕ)
history = sends 1 10 ∷ sends 2 20 ∷ receives 3 ∷ receives 4 ∷ receives 5 ∷ sends 6 60 ∷ []

buffered-IsFifo_example :
    (c : Buffered.Channel ℕ) × (ds : List (ℕ × ℕ)) × (c' : Buffered.Channel ℕ) × (p : Pipe ℕ)
    × (Buffered.make 1 ≡ some c)
    × (allocated 8 c.buffer ≡ (1 + 1) * 8)
    × (run BufferedPipe.send_step BufferedPipe.receive_step history c ≡ some (ds, c'))
    × BufferedPipe.Shows c' p
    × IsFifo (sent history) (asked history) ds p
buffered-IsFifo_example = buffered-IsFifo 1 8 history (omega arith) (omega arith) (omega arith)

rendezvous-IsFifo_example :
    (ds : List (ℕ × ℕ)) × (c' : Rendezvous.Channel ℕ) × (p : Pipe ℕ) × (run RendezvousPipe.send_step
        RendezvousPipe.receive_step history Rendezvous.make
      ≡ some (ds, c'))
    × RendezvousPipe.Shows c' p
    × IsFifo (sent history) (asked history) ds p
rendezvous-IsFifo_example = rendezvous-IsFifo history

-- A buffer that has gone round: the item 5 in the last of two slots.
abbrev one_item : CircularBuffer ℕ
one_item = record {
  capacity = 2;
  tail = 0;
  head = 1;
  slots =
      λ (i : ℕ). elim i [ ℕ.zero ↦ none | ℕ.suc k ↦ elim k [ ℕ.zero ↦ some 5 | ℕ.suc j ↦ none ] ];
}

one_item-Holds : Holds one_item (5 ∷ [])
one_item-Holds = record {
  room = omega arith;
  fits = omega arith;
  head_in = omega arith;
  tail_at = refl;
  items = items;
}
  where
    items : (k : ℕ) → k < 2 → one_item.slots ((1 + k) % 2) ≡ get_elem? (5 ∷ []) k
    items ℕ.zero h = refl
    items (ℕ.suc ℕ.zero) h = refl
    items (ℕ.suc (ℕ.suc k)) h = absurd (omega arith)

destroy-frees_example :
    (slots : ℕ → Option ℕ) × (destroy one_item ≡ some slots) × ((j : ℕ) → j < 2 → slots j ≡ none)
destroy-frees_example = destroy-frees one_item (5 ∷ []) one_item-Holds

abbrev full_channel : Channel ℕ
full_channel = record { buffer = one_item; waiters = sender_node (1, 6) ∷ []; state = senders }

full_channel-Sending : Sending full_channel (5 ∷ []) ((1, 6) ∷ [])
full_channel-Sending = record {
  holds = one_item-Holds;
  queue = refl;
  status = refl;
  full = inr refl;
  roomy = omega arith;
}
