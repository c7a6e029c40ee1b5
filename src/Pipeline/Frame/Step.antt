-- ===== src/Pipeline/Frame/Step.antt =====
-- One round of the frame thread: its invariant, and where a camera frame goes.
use synchronome.Base.{
  ℕ, ◌<◌, ◌≡◌, refl, sym, subst, ◌∙◌, inl, inr, Bool, true, false, Option, none, some, length,
  get_elem?, length-set, get_elem?-set_self, get_elem?-set_ne, Bool-cases, if◌then◌else◌,
}
use synchronome.Base.Int.{ℤ, pos, ◌-ℤ◌, eqb_ℤ}
use synchronome.Memlog.{Memlog}
use synchronome.Memlog.Event
use synchronome.Memlog.Ring.{IsValid}
use synchronome.Buffer.{Buffer, scan_buf_size, buffer_set_timestamp}
use synchronome.Buffer.Arrays.{IsFrame, All-set}
use synchronome.Queue
use synchronome.Queue.{Mqueue, QueueContainer, enqueue_p}
use synchronome.Queue.Fifo.{Enqueued, enqueue_p-Enqueued}
use synchronome.Pipeline.Outcome.{Outcome, leave, ◌>>=◌}
use synchronome.Pipeline.Frame.{
  Wait, posted, interrupted, failed, Round, FrameState, log, camera_dequeue_buf, scan, passed,
  pass_on, requeue, waited, grabbed, loop_body, frame_round,
}
use synchronome.Pipeline.Frame.Scan.{
  Ready, Ends, log_lem, scanned, after_scan, scan_lem, ring_index,
}

module _ (os : Mqueue) where
  -- The end of a round, from the reply of the queue.
  passed-Ends :
      (r : Round) (i : ℕ) (s : FrameState os) (src dst : Buffer) (qbuf_ok : Bool)
      (out : Queue.Ret × QueueContainer os)
      → Ready os s
      → r.dqbuf ≡ some i
      → get_elem? s.frame_buffers i ≡ some src
      → IsFrame src
      → IsFrame dst
      → Enqueued os s.frame_q (some s.scan_buffer_index) out
      → Ends os r s (
          passed os out (after_scan os (scanned os dst src.start r.timestamp s) s) >>= λ s7.
          requeue os qbuf_ok s7)
  unfolding passed requeue after_scan scanned buffer_set_timestamp
  passed-Ends r i s src dst true (Queue.ok, q) v d e fs fd h = (
    i,
    d,
    record {
      ready = record {
        logging = v.logging;
        cameras = v.cameras;
        scans = All-set IsFrame s.scan_buffer s.scan_buffer_index _ v.scans (fs.0, fd.1);
        size = length-set s.scan_buffer s.scan_buffer_index _ ∙ v.size;
        within = ring_index os s.scan_buffer_index scan_buf_size v.within;
      };
      source = src;
      target = _;
      from = e;
      to = get_elem?-set_self s.scan_buffer s.scan_buffer_index _ (rw v.size v.within);
      bytes = refl;
      stamped = refl;
      named = refl;
      others = λ k ne. get_elem?-set_ne s.scan_buffer _ (λ x. ne (sym x));
      handed = h.0;
      moved = refl;
      counted = refl;
    },
  )
  passed-Ends r i s src dst false (Queue.ok, q) v d e fs fd h = refl
  passed-Ends r i s src dst qbuf_ok (Queue.err, q) v d e fs fd h = refl

  -- What the kernel hands over is one of the camera's buffers.
  abbrev pub InRange : Round → FrameState os → Type 0
  InRange r s = (i : ℕ) → r.dqbuf ≡ some i → i < length s.frame_buffers

  -- From the hand-over on, and from the dequeue on.
  copied : Round → FrameState os → Outcome (FrameState os) (FrameState os)
  copied r s6 = do s7 ← pass_on os s6; requeue os r.qbuf_ok s7

  copying-Ends :
      (r : Round) (i : ℕ) (s : FrameState os)
      → Ready os s
      → r.dqbuf ≡ some i
      → i < length s.frame_buffers
      → Ends os r s (scan os i r.timestamp s >>= copied r)
  unfolding pass_on after_scan copied
  copying-Ends r i s v d h =
      let (src, dst, e, fs, fd, eq) = scan_lem os i r.timestamp s v h in
      rw eq (
        passed-Ends r i s src dst r.qbuf_ok _ v d e fs fd
          (enqueue_p-Enqueued os s.frame_q (some s.scan_buffer_index)))

  rest : Round → ℕ × FrameState os → Outcome (FrameState os) (FrameState os)
  unfolding copied
  rest r (i, s) = do
    s5 ← log os Event.wcet_start r.start_time s
    s6 ← scan os i r.timestamp s5
    copied r s6

  relog :
      (s : FrameState os) (l : Memlog)
      → IsValid l
      → Ready os s
      → Ready os (record s { frame_log = l })
  relog s l h v = record {
    logging = h;
    cameras = v.cameras;
    scans = v.scans;
    size = v.size;
    within = v.within;
  }

  recount :
      (s : FrameState os) (c : ℤ) → Ready os s → Ready os (record s { camera_enqueue_count = c })
  recount s c v = record {
    logging = v.logging;
    cameras = v.cameras;
    scans = v.scans;
    size = v.size;
    within = v.within;
  }

  rest-Ends :
      (r : Round) (i : ℕ) (s : FrameState os)
      → Ready os s
      → r.dqbuf ≡ some i
      → i < length s.frame_buffers
      → Ends os r s (rest r (i, s))
  unfolding rest
  rest-Ends r i s v d h =
      let (l, w, e) = log_lem os Event.wcet_start r.start_time s v.logging in
      rw e (copying-Ends r i (record s { frame_log = l }) (relog s l w v) d h)

  -- The dequeue, from its test and its reply.
  dequeued-Ends :
      (r : Round) (reply : Option ℕ) (s : FrameState os)
      → Ready os s
      → r.dqbuf ≡ reply
      → InRange r s
      → Ends os r s (grabbed os (camera_dequeue_buf os reply s) >>= rest r)
  unfolding grabbed camera_dequeue_buf
  dequeued-Ends r reply s v d h = elim (Bool-cases (eqb_ℤ s.camera_enqueue_count (pos 0))) [
    | inl none_out ↦ rw none_out refl
    | inr out ↦ rw out (replied reply d)
  ]
    where
      replied :
          (reply : Option ℕ)
          → r.dqbuf ≡ reply
          → Ends os r s (
              grabbed os
                (reply, record s { camera_enqueue_count = s.camera_enqueue_count -ℤ pos 1 })
              >>= rest r)
      replied none d = refl
      replied (some i) d = rest-Ends r i _ (recount s _ v) d (h i d)

  waited-Ends :
      (r : Round) (w : Wait) (s : FrameState os)
      → Ready os s
      → InRange r s
      → Ends os r s
          (waited os w s >>= λ s'. grabbed os (camera_dequeue_buf os r.dqbuf s') >>= rest r)
  unfolding waited
  waited-Ends r posted s v h = dequeued-Ends r r.dqbuf s v refl h
  waited-Ends r interrupted s v h = refl
  waited-Ends r failed s v h = refl

  loop_body-Ends :
      (r : Round) (s : FrameState os) → Ready os s → InRange r s → Ends os r s (loop_body os r s)
  unfolding loop_body rest
  loop_body-Ends r s v h =
      let (l1, w1, e1) = log_lem os Event.s1_done r.done_time s v.logging in
      let s1 = record s { frame_log = l1 } in
      let (l2, w2, e2) = log_lem os Event.s1_run r.run_time s1 w1 in
      let s2 = record s { frame_log = l2 } in
      rw (e1, e2) (waited-Ends r r.sem_wait s2 (relog s l2 w2 v) h)

  -- From arrays of frames, with the index and the log's index in range, a round of the running frame
  -- thread makes no fault, if the kernel hands over one of the camera's buffers. Either it stops the
  -- system, or the state is as good as before and the buffer handed over is copied to the next scan
  -- buffer with its time and the next id, no other scan buffer changes, and that buffer's index is
  -- queued behind those queued before.
  pub frame_round-Ends :
      (r : Round) (s : FrameState os)
      → s.running ≡ true
      → Ready os s
      → InRange r s
      → Ends os r s (frame_round os r s)
  unfolding frame_round
  frame_round-Ends r s run v h =
      subst (λ b. Ends os r s (if b then loop_body os r s else leave (pos 0) s)) (sym run)
        (loop_body-Ends r s v h)
