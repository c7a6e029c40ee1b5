-- ===== src/Pipeline/Frame/Effects.antt =====
-- What each part of a round of the frame thread changes of the state it shares.
use synchronome.Base.{
  ℕ, ◌+◌, ◌≡◌, refl, sym, Bool, true, false, [], ◌∷◌, ◌++◌, Option, none, some, set, get_elem?,
  if◌then◌else◌, ◌==◌, Bool-cases, inl, inr,
}
use synchronome.Base.Int.{pos, ◌+ℤ◌, ◌-ℤ◌, eqb_ℤ}
use synchronome.Timetools.{Timespec}
use synchronome.Memlog.{Memlog, memlog_log}
use synchronome.Memlog.Event
use synchronome.Memlog.Ring.{IsValid}
use synchronome.Buffer.{Buffer, scan_buf_size, copy_buffer}
use synchronome.Queue
use synchronome.Queue.{Mqueue, QueueContainer, enqueue_p}
use synchronome.Queue.Fifo.{held, Enqueued, enqueue_p-Enqueued}
use synchronome.Pipeline.Outcome.{
  Outcome, next, checked, ◌>>=◌, Every, Always, Always-mono, Always->>=, Always-checked, Every->>=,
  Every-checked, >>=-assoc, >>=-split,
}
use synchronome.Pipeline.Frame.{
  Wait, posted, interrupted, failed, Round, FrameState, log, camera_dequeue_buf, scan, passed,
  pass_on, requeue, waited, grabbed, opening, loop_body,
}
use synchronome.Pipeline.Frame.Scan.{log_lem}

module _ (os : Mqueue) where
  -- The ring, its index, the ids and the queue stay.
  pub record Same (s s' : FrameState os) : Type 0 where
    pub ring : s'.scan_buffer ≡ s.scan_buffer
    pub index : s'.scan_buffer_index ≡ s.scan_buffer_index
    pub ids : s'.frame_id ≡ s.frame_id
    pub queue : s'.frame_q ≡ s.frame_q

  -- One more buffer of the ring is written, with the next id.
  pub record Wrote (s s' : FrameState os) : Type 0 where
    pub target : Buffer
    pub named : target.id ≡ s.frame_id
    pub ring : s'.scan_buffer ≡ set s.scan_buffer s.scan_buffer_index target
    pub index : s'.scan_buffer_index ≡ s.scan_buffer_index
    pub ids : s'.frame_id ≡ s.frame_id +ℤ pos 1
    pub queue : s'.frame_q ≡ s.frame_q

  -- The index is queued and moves on.
  pub record Handed (s s' : FrameState os) : Type 0 where
    pub ring : s'.scan_buffer ≡ s.scan_buffer
    pub index :
        s'.scan_buffer_index
        ≡ (if s.scan_buffer_index + 1 == scan_buf_size then 0 else s.scan_buffer_index + 1)
    pub ids : s'.frame_id ≡ s.frame_id
    pub queue : held os s'.frame_q ≡ held os s.frame_q ++ (s.scan_buffer_index ∷ [])

  Same-trans : (s t u : FrameState os) → Same s t → Same t u → Same s u
  Same-trans s t u h k = record {
    ring = rw (k.ring, h.ring);
    index = rw (k.index, h.index);
    ids = rw (k.ids, h.ids);
    queue = rw (k.queue, h.queue);
  }

  same : (s : FrameState os) → Same s s
  same s = record { ring = refl; index = refl; ids = refl; queue = refl }

  log-Same :
      (event : ℕ) (now : Timespec) (s : FrameState os)
      → Always (Same s) (Same s) (log os event now s)
  unfolding log
  log-Same event now s =
      Always->>= _ (Same s) (Same s) (checked (memlog_log event now s.frame_log)) _
        (Always-checked (Same s) _)
        λ l e. record { ring = refl; index = refl; ids = refl; queue = refl }

  later :
      (s t : FrameState os) (m : Outcome (FrameState os) (FrameState os))
      → Same s t
      → Always (Same t) (Same t) m
      → Always (Same s) (Same s) m
  later s t m h k =
      Always-mono (Same t) (Same s) (Same t) (Same s) m k (λ u. Same-trans s t u h)
        (λ u. Same-trans s t u h)

  waited-Same : (w : Wait) (s : FrameState os) → Always (Same s) (Same s) (waited os w s)
  unfolding waited
  waited-Same posted s = same s
  waited-Same interrupted s = record { ring = refl; index = refl; ids = refl; queue = refl }
  waited-Same failed s = record { ring = refl; index = refl; ids = refl; queue = refl }

  abbrev Grabbed : FrameState os → Outcome (ℕ × FrameState os) (FrameState os) → Type 0
  Grabbed s m = Always (λ x. Same s x.1) (Same s) m

  grabbed-Same :
      (reply : Option ℕ) (s : FrameState os)
      → Grabbed s (grabbed os (camera_dequeue_buf os reply s))
  unfolding grabbed camera_dequeue_buf
  grabbed-Same reply s = elim (Bool-cases (eqb_ℤ s.camera_enqueue_count (pos 0))) [
    | inl e ↦ rw e (record { ring = refl; index = refl; ids = refl; queue = refl })
    | inr e ↦ rw e (replied reply)
  ]
    where
      replied :
          (reply : Option ℕ)
          → Grabbed s (
              grabbed os
                (reply, record s { camera_enqueue_count = s.camera_enqueue_count -ℤ pos 1 }))
      replied none = record { ring = refl; index = refl; ids = refl; queue = refl }
      replied (some i) = record { ring = refl; index = refl; ids = refl; queue = refl }

  -- Up to the copy a round keeps the shared state, also where it ends the thread.
  pub opening-Same : (r : Round) (s : FrameState os) → Grabbed s (opening os r s)
  unfolding opening
  opening-Same r s =
      let Q : ℕ × FrameState os → Type 0 = λ x. Same s x.1 in
      let R = Same s in
      Always->>= R Q R (log os Event.s1_done r.done_time s) _ (log-Same _ _ s) λ s1 h1.
        Always->>= R Q R (log os Event.s1_run r.run_time s1) _ (later s s1 _ h1 (log-Same _ _ s1))
          λ s2 h2.
            Always->>= R Q R (waited os r.sem_wait s2) _ (later s s2 _ h2 (waited-Same _ s2))
              λ s3 h3.
                Always->>= Q Q R (grabbed os (camera_dequeue_buf os r.dqbuf s3)) _
                  (Always-mono (λ x. Same s3 x.1) Q (Same s3) R _ (grabbed-Same r.dqbuf s3)
                    (λ x. Same-trans s s3 x.1 h3) (λ u. Same-trans s s3 u h3))
                  λ x h4.
                    Always->>= R Q R (log os Event.wcet_start r.start_time x.1) _
                      (later s x.1 _ h4 (log-Same _ _ x.1)) λ s5 h5. h5

  -- The parts make up the round.
  pub loop_body-parts :
      (r : Round) (s : FrameState os)
      → loop_body os r s ≡ (
          opening os r s >>= λ (i, s5).
          scan os i r.timestamp s5 >>= pass_on os >>= requeue os r.qbuf_ok)
  unfolding loop_body opening
  loop_body-parts r s = >>=-split (log os Event.s1_done r.done_time s) _ _ _ λ s1.
      >>=-split (log os Event.s1_run r.run_time s1) _ _ _ λ s2.
        >>=-split (waited os r.sem_wait s2) _ _ _ λ s3.
          >>=-split (grabbed os (camera_dequeue_buf os r.dqbuf s3)) _ _ _ λ x.
            >>=-split (log os Event.wcet_start r.start_time x.1) _ _ _
              λ s5. sym (>>=-assoc (scan os x.0 r.timestamp s5) (pass_on os) (requeue os r.qbuf_ok))

  pub requeue-Same : (b : Bool) (s : FrameState os) → Always (Same s) (Same s) (requeue os b s)
  unfolding requeue
  requeue-Same true s = record { ring = refl; index = refl; ids = refl; queue = refl }
  requeue-Same false s = record { ring = refl; index = refl; ids = refl; queue = refl }

  pub scan-Wrote : (i : ℕ) (now : Timespec) (s : FrameState os) → Every (Wrote s) (scan os i now s)
  unfolding scan
  scan-Wrote i now s =
      Every->>= _ (Wrote s) (checked (get_elem? s.frame_buffers i)) _ (Every-checked _ _) λ src e.
        Every->>= _ (Wrote s) (checked (get_elem? s.scan_buffer s.scan_buffer_index)) _
          (Every-checked _ _)
          λ dst f.
            Every->>= _ (Wrote s) (checked (copy_buffer dst src)) _ (Every-checked _ _) λ b g.
              record {
                target = _;
                named = refl;
                ring = refl;
                index = refl;
                ids = refl;
                queue = refl;
              }

  -- What the frame thread leaves when the queue refuses the index.
  pub record Refused (s s' : FrameState os) : Type 0 where
    pub ring : s'.scan_buffer ≡ s.scan_buffer
    pub index : s'.scan_buffer_index ≡ s.scan_buffer_index
    pub ids : s'.frame_id ≡ s.frame_id
    pub queue : held os s'.frame_q ≡ held os s.frame_q

  passed-Handed :
      (s : FrameState os) (out : Queue.Ret × QueueContainer os)
      → Enqueued os s.frame_q (some s.scan_buffer_index) out
      → Always (Handed s) (Refused s) (passed os out s)
  unfolding passed
  passed-Handed s (Queue.ok, q) h = record { ring = refl; index = refl; ids = refl; queue = h.0 }
  passed-Handed s (Queue.err, q) h = record { ring = refl; index = refl; ids = refl; queue = h }

  pub pass_on-Handed : (s : FrameState os) → Always (Handed s) (Refused s) (pass_on os s)
  unfolding pass_on
  pass_on-Handed s = passed-Handed s _ (enqueue_p-Enqueued os s.frame_q (some s.scan_buffer_index))

  -- A round whose wait and dequeue succeed comes to the copy.
  pub opening_lem :
      (r : Round) (i : ℕ) (s : FrameState os)
      → r.sem_wait ≡ posted
      → r.dqbuf ≡ some i
      → eqb_ℤ s.camera_enqueue_count (pos 0) ≡ false
      → IsValid s.frame_log
      → (l : Memlog) × IsValid l
        × (opening os r s
            ≡ next (
              i,
              record s { frame_log = l; camera_enqueue_count = s.camera_enqueue_count -ℤ pos 1 },
            ))
  unfolding opening waited grabbed camera_dequeue_buf
  opening_lem r i s w d c v =
      let (l1, v1, e1) = log_lem os Event.s1_done r.done_time s v in
      let (l2, v2, e2) = log_lem os Event.s1_run r.run_time (record s { frame_log = l1 }) v1 in
      let s4 : FrameState os = record s {
        frame_log = l2;
        camera_enqueue_count = s.camera_enqueue_count -ℤ pos 1;
      } in
      let (l3, v3, e3) = log_lem os Event.wcet_start r.start_time s4 v2 in
      (l3, v3, rw (e1, e2, w, c, d, e3))

  pub pass_on_lem :
      (s : FrameState os) (q : QueueContainer os)
      → enqueue_p os s.frame_q (some s.scan_buffer_index) ≡ (Queue.ok, q)
      → pass_on os s
        ≡ next (record s {
          frame_q = q;
          scan_buffer_index =
              (if s.scan_buffer_index + 1 == scan_buf_size then 0 else s.scan_buffer_index + 1);
        })
  unfolding pass_on passed
  pass_on_lem s q e = rw e
