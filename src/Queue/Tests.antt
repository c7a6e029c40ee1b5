-- ===== src/Queue/Tests.antt =====
-- The theorems on queues, at a kernel queue of ten messages.
use synchronome.Base.{◌≡◌, refl, true, [], ◌∷◌, ◌++◌, none, some, arith}
use synchronome.Base.Int.{pos, ◌+ℤ◌, ◌-ℤ◌}
use synchronome.Queue.{
  ok, err, Setup, QueueContainer, init_queue, flush_queue, enqueue_p, dequeue_p,
}
use synchronome.Queue.Kernel.{kernel}
use synchronome.Queue.Fifo.{
  put, get, run, held, IsCounted, Flushed, run-fifo, init_queue-flush_queue, enqueue_p-IsCounted,
}
use synchronome.Queue.Race.{Shared, resting, waiting, Reach, misdelivery}

abbrev frame_q : QueueContainer kernel
frame_q = record { q = 4 ∷ 5 ∷ []; num_elems = 90; b = 0; count = pos 2 }

abbrev all_ok : Setup
all_ok = record {
  mq_open_ok = true;
  malloc_ok = true;
  mq_getattr_ok = true;
  mq_setattr_ok = true;
  mq_restore_ok = true;
}

script_run :
    run kernel (put (some 6) ∷ get ∷ put none ∷ get ∷ []) frame_q
    ≡ (6 ∷ [], 4 ∷ 5 ∷ [], record frame_q { q = 6 ∷ []; b = 5; count = pos 2 })
unfolding run enqueue_p dequeue_p ◌+ℤ◌ ◌-ℤ◌
script_run = refl

run-fifo_example :
    (4 ∷ 5 ∷ []) ++ (run kernel (put (some 6) ∷ get ∷ []) frame_q).0
    ≡ (run kernel (put (some 6) ∷ get ∷ []) frame_q).1
      ++ held kernel (run kernel (put (some 6) ∷ get ∷ []) frame_q).2
run-fifo_example = run-fifo kernel (put (some 6) ∷ get ∷ []) frame_q

init_queue-flush_queue_example :
    Flushed kernel (flush_queue kernel 3 all_ok (record frame_q { q = 7 ∷ 8 ∷ []; count = pos 0 }))
unfolding init_queue
init_queue-flush_queue_example =
    init_queue-flush_queue kernel 3 all_ok (7 ∷ 8 ∷ []) frame_q
      (record frame_q { q = 7 ∷ 8 ∷ []; count = pos 0 }) refl (omega arith)

-- Ten messages fill the kernel's queue while the counter still shows room for eighty more.
abbrev crowded : QueueContainer kernel
crowded = record {
  q = 0 ∷ 1 ∷ 2 ∷ 3 ∷ 4 ∷ 5 ∷ 6 ∷ 7 ∷ 8 ∷ 9 ∷ [];
  num_elems = 90;
  b = 0;
  count = pos 10;
}

enqueue_p-IsCounted_example :
    ((enqueue_p kernel crowded (some 6)).0 ≡ ok
      → IsCounted kernel (enqueue_p kernel crowded (some 6)).1)
    × ((enqueue_p kernel crowded (some 6)).0 ≡ err
        → (held kernel (enqueue_p kernel crowded (some 6)).1 ≡ held kernel crowded)
          × ((enqueue_p kernel crowded (some 6)).1.count ≡ pos 11))
enqueue_p-IsCounted_example = enqueue_p-IsCounted kernel crowded 6 refl refl

abbrev one_frame : Shared
one_frame = record {
  b = 0;
  kernel = 3 ∷ [];
  producer = resting;
  consumer = waiting;
  delivered = [];
}

misdelivery_example :
    Reach one_frame (record one_frame { b = 4; kernel = 4 ∷ []; delivered = 4 ∷ [] })
misdelivery_example = misdelivery one_frame 3 4 [] refl refl refl
