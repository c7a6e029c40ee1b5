-- ===== src/Pipeline/System/Window.antt =====
-- Where the frames in flight lie in the ring of scan buffers, while the two threads stay apart on the
-- receive buffer of their queue.
use mathlib.Core.List.{append_assoc}
use synchronome.Base.{◌≡◌, refl, sym, ap, subst, ◌∙◌, false, [], ◌∷◌, ◌++◌, arith}
use synchronome.Queue.{Mqueue}
use synchronome.Queue.Fifo.{held}
use synchronome.Pipeline.Outcome.{Every-next, Always-next, Always-leave}
use synchronome.Pipeline.Frame.{Round, FrameState}
use synchronome.Pipeline.Frame.Effects.{
  Same, Wrote, Handed, Refused, opening-Same, requeue-Same, scan-Wrote,
}
use synchronome.Pipeline.Processing.{ProcState}
use synchronome.Pipeline.Processing.Effects.{
  Kept, Judged, examine-Judged, after_inner-Kept, enter-Kept,
}
use synchronome.Pipeline.System.Ring.{IsRun, after, IsRun-after, IsRun-suffix}
use synchronome.Pipeline.System.{
  FrameAt, waiting, grabbed, copied, sending, handed, frame_gone, ProcAt, idle, receiving, received,
  holding, judged, proc_gone, Quiet, Apart, Label, System, frame_moves, proc_moves, stored,
  FrameStops, ended, no_frame, no_room, refused, not_requeued, Step, grab, copy, store, hand,
  finish, stop, begin, end, await, receive, take, take_none, judge, settle, halt, Reach, start,
  more,
}
use synchronome.Pipeline.System.InFlight.{
  as_list, in_use, coming, coming-append, Filled, Message, Quiet-Message, Apart-Filled, window,
  InRing, sending-Quiet, sending_filled, received_message, full-Same, send_on-Handed, got_message,
  got_none,
}

module _ (os : Mqueue) where
  -- A step of the frame thread that leaves its index and the queue.
  frame-InRing :
      (pc : FrameAt) (f : FrameState os) (s : System os)
      → InRing os s
      → Apart pc s.proc_at
      → f.scan_buffer_index ≡ s.frame.scan_buffer_index
      → f.frame_q ≡ s.frame.frame_q
      → Filled pc f.frame_q.b f.scan_buffer_index
      → InRing os (frame_moves os pc f s)
  unfolding frame_moves
  frame-InRing pc f s v a e q l = record {
    ring = refl;
    queue = refl;
    within = rw e v.within;
    run = rw (e, ap (held os) q) v.run;
    apart = a;
    filled = l;
    message = subst (λ c. Message s.proc_at c.b) (sym q) v.message;
  }

  -- One that changes the receive buffer or the queue, while the other thread does not read there.
  Quiet-InRing :
      (pc : FrameAt) (f : FrameState os) (s : System os)
      → InRing os s
      → Quiet s.proc_at
      → Apart pc s.proc_at
      → f.scan_buffer_index ≡ s.frame.scan_buffer_index
      → held os f.frame_q ≡ held os s.frame.frame_q
      → Filled pc f.frame_q.b f.scan_buffer_index
      → InRing os (frame_moves os pc f s)
  unfolding frame_moves
  Quiet-InRing pc f s v k a e q l = record {
    ring = refl;
    queue = refl;
    within = rw e v.within;
    run = rw (e, q) v.run;
    apart = a;
    filled = l;
    message = Quiet-Message s.proc_at f.frame_q.b k;
  }

  proc-InRing :
      (pc : ProcAt) (p : ProcState os) (s : System os)
      → InRing os s
      → Apart s.frame_at pc
      → IsRun
          (in_use pc p.last_buffer_index ++ coming pc (held os p.frame_q))
          s.frame.scan_buffer_index
      → Filled s.frame_at p.frame_q.b s.frame.scan_buffer_index
      → Message pc p.frame_q.b
      → InRing os (proc_moves os pc p s)
  unfolding proc_moves
  proc-InRing pc p s v a r l m = record {
    ring = refl;
    queue = refl;
    within = v.within;
    run = r;
    apart = a;
    filled = l;
    message = m;
  }

  -- The receive buffer as the processing thread left it.
  kept_filled :
      (p : ProcState os) (s : System os)
      → p.frame_q ≡ s.proc.frame_q
      → InRing os s
      → Filled s.frame_at p.frame_q.b s.frame.scan_buffer_index
  kept_filled p s q v =
      subst (λ c. Filled s.frame_at c.b s.frame.scan_buffer_index) (sym (q ∙ v.queue)) v.filled

  stop-InRing :
      (f : FrameState os) (s : System os)
      → FrameStops os s f
      → InRing os s
      → InRing os (frame_moves os frame_gone f s)
  stop-InRing _ s (ended e run) v = frame-InRing frame_gone s.frame s v tt refl refl tt
  stop-InRing f s (no_frame r code e h) v =
      let k = Always-leave _ (Same os s.frame) _ code f (opening-Same os r s.frame) h in
      frame-InRing frame_gone f s v tt k.index k.queue tt
  stop-InRing f s (no_room r code e g h) v =
      let k = Always-leave _ (Same os s.frame) _ code f (full-Same os s.frame) h in
      frame-InRing frame_gone f s v tt k.index k.queue tt
  stop-InRing f s (refused r code e h) v =
      let k =
        Always-leave (Handed os s.frame) (Refused os s.frame) _ code f
          (send_on-Handed os s.frame (sending_filled os r s e v)) h in
      Quiet-InRing frame_gone f s v (sending-Quiet os r s e v) tt k.index k.queue tt
  stop-InRing f s (not_requeued r code e h) v =
      let k =
        Always-leave (Same os s.frame) (Same os s.frame) _ code f
          (requeue-Same os r.qbuf_ok s.frame) h in
      frame-InRing frame_gone f s v tt k.index k.queue tt

  hand-InRing :
      (r : Round) (f : FrameState os) (s : System os)
      → Handed os s.frame f
      → Quiet s.proc_at
      → InRing os s
      → InRing os (frame_moves os (handed r) f s)
  unfolding frame_moves
  hand-InRing r f s h k v =
      let used = in_use s.proc_at s.proc.last_buffer_index in
      let n = s.frame.scan_buffer_index in
      let l = held os s.frame.frame_q in
      record {
        ring = refl;
        queue = refl;
        within = rw h.index (ground (arith, v.within));
        run =
            rw (h.index, h.queue, coming-append s.proc_at l (n ∷ []))
              (subst (λ l. IsRun l (after n)) (append_assoc used (coming s.proc_at l) (n ∷ []))
                (IsRun-after (window os s) n v.within v.run));
        apart = tt;
        filled = tt;
        message = Quiet-Message s.proc_at f.frame_q.b k;
      }

  -- The window os, from where the processing thread stands.
  proc_run :
      (pc : ProcAt) (s : System os)
      → s.proc_at ≡ pc
      → InRing os s
      → IsRun
          (in_use pc s.proc.last_buffer_index ++ coming pc (held os s.proc.frame_q))
          s.frame.scan_buffer_index
  proc_run pc s e v = rw v.queue (
      subst
        (λ at.
          IsRun (in_use at s.proc.last_buffer_index ++ coming at (held os s.frame.frame_q))
            s.frame.scan_buffer_index)
        e v.run)

  pub step-InRing :
      (s t : System os) (l : Label)
      → Step os s l t
      → Apart t.frame_at t.proc_at
      → InRing os s
      → InRing os t
  unfolding frame_moves proc_moves
  step-InRing s _ _ (grab {i} {f} r e run h) a v =
      let k =
        Always-next (λ x. Same os s.frame x.1) (Same os s.frame) _ (i, f)
          (opening-Same os r s.frame) h in
      frame-InRing (grabbed r i) f s v tt k.index k.queue tt
  step-InRing s _ _ (copy {f} r i e h) a v =
      let k = Every-next (Wrote os s.frame) _ f (scan-Wrote os i r.timestamp s.frame) h in
      frame-InRing (copied r) f s v tt k.index k.queue tt
  step-InRing s _ _ (store r n e room) a v =
      Quiet-InRing (sending r) (stored os n s.frame) s v a a (unfold stored in refl)
        (unfold stored in refl) (unfold stored in refl)
  step-InRing s _ _ (hand {f} {b} r e g h) a v =
      hand-InRing r f s
        (Always-next (Handed os s.frame) (Refused os s.frame) _ f
          (send_on-Handed os s.frame (sending_filled os r s e v)) h)
        (sending-Quiet os r s e v) v
  step-InRing s _ _ (finish {f} r e h) a v =
      let k =
        Always-next (Same os s.frame) (Same os s.frame) _ f (requeue-Same os r.qbuf_ok s.frame) h in
      frame-InRing waiting f s v tt k.index k.queue tt
  step-InRing s _ _ (stop {f} h) a v = stop-InRing f s h v
  step-InRing s _ _ (begin {p} c e o run h) a v =
      let k = Every-next (Kept os s.proc) _ p (enter-Kept os c s.proc) h in
      proc-InRing idle p s v a (rw (k.last, k.queue) (proc_run idle s e v))
        (kept_filled p s k.queue v) tt
  step-InRing s _ _ (end e o run) a v =
      proc-InRing proc_gone s.proc s v a (proc_run idle s e v) (kept_filled s.proc s refl v) tt
  step-InRing s _ _ (await n e o) a v =
      proc-InRing receiving (record s.proc { frame_q = record s.proc.frame_q { count = n } }) s v a
        (proc_run idle s e v) (kept_filled s.proc s refl v) tt
  step-InRing s _ _ (receive w mq e h) a v =
      proc-InRing (received w) (record s.proc { frame_q = record s.proc.frame_q { q = mq; b = w } })
        s v a
        (subst (λ l. IsRun (as_list s.proc.last_buffer_index ++ l) s.frame.scan_buffer_index)
          (got_message os s.proc.frame_q w mq h) (proc_run receiving s e v))
        (Apart-Filled s.frame_at w w s.frame.scan_buffer_index a) refl
  step-InRing s _ _ (take {b} w e g) a v =
      let n = s.proc.frame_q.b in
      proc-InRing (holding n) s.proc s v a
        (subst (λ l. IsRun l s.frame.scan_buffer_index)
          (ap (λ k. as_list s.proc.last_buffer_index ++ (k ∷ held os s.proc.frame_q))
              (sym (received_message os w s e v))
            ∙ sym
                (append_assoc (as_list s.proc.last_buffer_index) (n ∷ []) (held os s.proc.frame_q)))
          (proc_run (received w) s e v))
        (kept_filled s.proc s refl v) tt
  step-InRing s _ _ (take_none reply mq e h m) a v =
      proc-InRing proc_gone
        (record s.proc { frame_q = record s.proc.frame_q { q = mq }; running = false }) s v a
        (subst (λ l. IsRun (as_list s.proc.last_buffer_index ++ l) s.frame.scan_buffer_index)
          (sym (got_none os s.proc.frame_q reply mq h m)) (proc_run receiving s e v))
        (kept_filled s.proc s refl v) tt
  step-InRing s _ _ (judge {turn} {p} current e h) a v =
      let k =
        Every-next (λ x. Judged os current s.proc x.1) _ (turn, p)
          (examine-Judged os s.proc.last_buffer_index current s.proc) h in
      proc-InRing (judged turn) p s v a
        (rw (k.last, k.queue)
          (IsRun-suffix (as_list s.proc.last_buffer_index) (current ∷ held os s.proc.frame_q) _ (
            subst (λ l. IsRun l s.frame.scan_buffer_index)
              (append_assoc (as_list s.proc.last_buffer_index) (current ∷ [])
                (held os s.proc.frame_q))
              (proc_run (holding current) s e v))))
        (kept_filled p s k.queue v) tt
  step-InRing s _ _ (settle {p} c turn e h) a v =
      let k = Every-next (Kept os s.proc) _ p (after_inner-Kept os c turn s.proc) h in
      proc-InRing idle p s v a (rw (k.last, k.queue) (proc_run (judged turn) s e v))
        (kept_filled p s k.queue v) tt
  step-InRing s _ _ halt a v =
      frame-InRing s.frame_at (record s.frame { running = false }) s v v.apart refl refl v.filled

  -- In whatever order the two threads step, as long as they stay apart on the receive buffer of their
  -- queue (no store of the frame thread falls between a receive of the processing thread and its read
  -- of the buffer, and no receive between a store and its send), the buffers that the processing
  -- thread may read (the last frame and the one in hand), followed by the one whose index it has
  -- received and by those whose indices are queued, are successive slots of the ring, and they end
  -- just before the slot that the next frame is copied to.
  pub Reach-InRing : (s t : System os) → InRing os s → Reach os s t → InRing os t
  Reach-InRing s _ v start = v
  Reach-InRing s _ v (more {t} {u} {l} r h a) = step-InRing t u l h a (Reach-InRing s t v r)
