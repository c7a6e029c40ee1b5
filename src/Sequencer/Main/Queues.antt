-- ===== src/Sequencer/Main/Queues.antt =====
-- The queues, opened and flushed.
use synchronome.Base.{◌<◌, ◌≡◌, inl, refl, Option, none, some, length}
use synchronome.Queue
use synchronome.Queue.{Mqueue, Setup, QueueContainer, init_queue, flush_queue}
use synchronome.Queue.Fifo.{Flushed, init_queue-flush_queue}
use synchronome.Realtime.{Pthreads}
use synchronome.Pipeline.Outcome.{checked, ◌>>=◌, Safely, Safely->>=}
use synchronome.Sequencer.Main.{
  Replies, MainState, exit, with_frame_q, with_writeout_q, set_up_queues,
}
use synchronome.Sequencer.Main.Stages.{Fresh, IsEmpty, Exits, Queued}

module _ (os : Mqueue) (pt : Pthreads) where
  -- A reply of `flush_queue`, stored.
  Flushed-writeout :
      (o : Option (Queue.Ret × QueueContainer os)) (s : MainState os pt)
      → Fresh os pt s
      → IsEmpty os pt s.frame_q
      → Flushed os o
      → Safely (Queued os pt) (Exits os pt) (checked o >>= λ out. with_writeout_q os pt out s)
  unfolding with_writeout_q exit
  Flushed-writeout none s f e h = h
  Flushed-writeout (some (Queue.ok, q)) s f e h = record {
    fresh = record { threads = f.threads; scans = f.scans; wos = f.wos; camera = f.camera };
    frame_q = e;
    writeout_q = h;
  }
  Flushed-writeout (some (Queue.err, q)) s f e h = inl f.threads

  -- A queue just opened can be flushed.
  abbrev Flushable : Replies os pt → Setup → QueueContainer os → Type 0
  Flushable r setup q = Flushed os (flush_queue os r.fuel setup q)

  opened_frame :
      (r : Replies os pt) (s : MainState os pt) (out : Queue.Ret × QueueContainer os)
      → init_queue os r.frame_setup r.frame_opened s.frame_q ≡ out
      → length (os.contents r.frame_opened) < r.fuel
      → Fresh os pt s
      → Safely
          (λ t. Fresh os pt t × Flushable r r.frame_setup t.frame_q)
          (Exits os pt)
          (with_frame_q os pt out s)
  unfolding with_frame_q exit
  opened_frame r s (Queue.ok, q) e h f = (
    record { threads = f.threads; scans = f.scans; wos = f.wos; camera = f.camera },
    init_queue-flush_queue os r.fuel r.frame_setup r.frame_opened s.frame_q q e h,
  )
  opened_frame r s (Queue.err, q) e h f = inl f.threads

  opened_writeout :
      (r : Replies os pt) (s : MainState os pt) (out : Queue.Ret × QueueContainer os)
      → init_queue os r.writeout_setup r.writeout_opened s.writeout_q ≡ out
      → length (os.contents r.writeout_opened) < r.fuel
      → Fresh os pt s × Flushable r r.frame_setup s.frame_q
      → Safely
          (λ t.
            Fresh os pt t
            × Flushable r r.frame_setup t.frame_q
            × Flushable r r.writeout_setup t.writeout_q)
          (Exits os pt)
          (with_writeout_q os pt out s)
  unfolding with_writeout_q exit
  opened_writeout r s (Queue.ok, q) e h (f, g) = (
    record { threads = f.threads; scans = f.scans; wos = f.wos; camera = f.camera },
    g,
    init_queue-flush_queue os r.fuel r.writeout_setup r.writeout_opened s.writeout_q q e h,
  )
  opened_writeout r s (Queue.err, q) e h (f, g) = inl f.threads

  Flushed-both :
      (r : Replies os pt) (s : MainState os pt) (o : Option (Queue.Ret × QueueContainer os))
      → Fresh os pt s
      → Flushed os o
      → Flushable r r.writeout_setup s.writeout_q
      → Safely (Queued os pt) (Exits os pt) (
          checked o >>= λ out. with_frame_q os pt out s >>= λ s3.
          checked (flush_queue os r.fuel r.writeout_setup s3.writeout_q) >>= λ out'.
          with_writeout_q os pt out' s3)
  unfolding with_frame_q exit
  Flushed-both r s none f h g = h
  Flushed-both r s (some (Queue.ok, q)) f h g =
      Flushed-writeout _ (record s { frame_q = q })
        (record { threads = f.threads; scans = f.scans; wos = f.wos; camera = f.camera }) h g
  Flushed-both r s (some (Queue.err, q)) f h g = inl f.threads

  pub set_up_queues-Queued :
      (r : Replies os pt) (s : MainState os pt)
      → Fresh os pt s
      → length (os.contents r.frame_opened) < r.fuel
      → length (os.contents r.writeout_opened) < r.fuel
      → Safely (Queued os pt) (Exits os pt) (set_up_queues os pt r s)
  unfolding set_up_queues
  set_up_queues-Queued r s f h k =
      Safely->>= _ (Queued os pt) (Exits os pt)
        (with_frame_q os pt (init_queue os r.frame_setup r.frame_opened s.frame_q) s) _
        (opened_frame r s _ refl h f)
        λ s1 f1.
          Safely->>= _ (Queued os pt) (Exits os pt)
            (with_writeout_q os pt (init_queue os r.writeout_setup r.writeout_opened s1.writeout_q)
              s1)
            _ (opened_writeout r s1 _ refl k f1) λ s2 f2. Flushed-both r s2 _ f2.0 f2.1 f2.2
