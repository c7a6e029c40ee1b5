-- ===== src/Pipeline/System/Delivery.antt =====
-- Every step of the two threads keeps the frames in order.
use mathlib.Core.List.{append_assoc}
use synchronome.Base.{
  ℕ, ◌≡◌, refl, sym, ap, subst, ◌∙◌, false, List, [], ◌∷◌, ◌++◌, none, some, get_elem?,
}
use synchronome.Buffer.{Buffer}
use synchronome.Queue.{Mqueue}
use synchronome.Queue.Fifo.{held}
use synchronome.Pipeline.Outcome.{Every-next, Always-next, Always-leave}
use synchronome.Pipeline.Frame.{FrameState}
use synchronome.Pipeline.Frame.Effects.{
  Same, Wrote, Handed, Refused, opening-Same, requeue-Same, scan-Wrote,
}
use synchronome.Pipeline.Processing.{ProcState}
use synchronome.Pipeline.Processing.Effects.{
  Kept, Judged, examine-Judged, after_inner-Kept, enter-Kept,
}
use synchronome.Pipeline.System.{
  sending, frame_gone, ProcAt, idle, receiving, received, holding, judged, proc_gone, Label, System,
  frame_moves, proc_moves, stored, FrameStops, ended, no_frame, no_room, refused, not_requeued,
  Step, grab, copy, store, hand, finish, stop, begin, end, await, receive, take, take_none, judge,
  settle, halt,
}
use synchronome.Pipeline.System.Ring.{Holds, Holds-append, Holds-split, Holds-first}
use synchronome.Pipeline.System.InFlight.{
  as_list, in_use, coming, InRing, full-Same, send_on-Handed, sending_filled, received_message,
  got_message, got_none,
}
use synchronome.Pipeline.System.Window.{step-InRing}
use synchronome.Pipeline.System.Channel.{
  put, got, Keeps, Run, opens, moves, InOrder, frame-InOrder, copy-InOrder, hand-InOrder,
}

module _ (os : Mqueue) where
  stop-InOrder :
      (f : FrameState os) (ins outs : List Buffer) (s : System os)
      → FrameStops os s f
      → InRing os s
      → InOrder os ins outs s
      → InOrder os ins outs (frame_moves os frame_gone f s)
  stop-InOrder _ ins outs s (ended e run) a v =
      frame-InOrder os frame_gone s.frame ins outs s v refl refl
  stop-InOrder f ins outs s (no_frame r code e h) a v =
      let k = Always-leave _ (Same os s.frame) _ code f (opening-Same os r s.frame) h in
      frame-InOrder os frame_gone f ins outs s v k.ring (ap (held os) k.queue)
  stop-InOrder f ins outs s (no_room r code e g h) a v =
      let k = Always-leave _ (Same os s.frame) _ code f (full-Same os s.frame) h in
      frame-InOrder os frame_gone f ins outs s v k.ring (ap (held os) k.queue)
  stop-InOrder f ins outs s (refused r code e h) a v =
      let k =
        Always-leave (Handed os s.frame) (Refused os s.frame) _ code f
          (send_on-Handed os s.frame (sending_filled os r s e a)) h in
      frame-InOrder os frame_gone f ins outs s v k.ring k.queue
  stop-InOrder f ins outs s (not_requeued r code e h) a v =
      let k =
        Always-leave (Same os s.frame) (Same os s.frame) _ code f
          (requeue-Same os r.qbuf_ok s.frame) h in
      frame-InOrder os frame_gone f ins outs s v k.ring (ap (held os) k.queue)

  -- A step of the processing thread from `pc` that keeps the indices on their way and, but for those
  -- in front, the frames it may read.
  proc-InOrder :
      (pc pc' : ProcAt) (p : ProcState os) (ins outs : List Buffer) (s : System os) (front : List ℕ)
      → s.proc_at ≡ pc
      → in_use pc s.proc.last_buffer_index ≡ front ++ in_use pc' p.last_buffer_index
      → p.scan_buffer ≡ s.proc.scan_buffer
      → coming pc' (held os p.frame_q) ≡ coming pc (held os s.proc.frame_q)
      → InRing os s
      → InOrder os ins outs s
      → InOrder os ins outs (proc_moves os pc' p s)
  unfolding proc_moves
  proc-InOrder pc pc' p ins outs s front e u ring q r v =
      let used =
        subst (λ at. Holds s.frame.scan_buffer (in_use at s.proc.last_buffer_index) v.recent) e
          v.reads in
      let (before, behind, split, reads) =
        Holds-split s.frame.scan_buffer front (in_use pc' p.last_buffer_index) v.recent
          (subst (λ l. Holds s.frame.scan_buffer l v.recent) u used) in
      record {
        earlier = v.earlier ++ before;
        recent = behind;
        flight = v.flight;
        taken =
            v.taken ∙ ap (λ l. v.earlier ++ l) split ∙ sym (append_assoc v.earlier before behind);
        sent = v.sent;
        reads = rw (ring, r.ring) reads;
        queued =
            rw (ring, r.ring, q, r.queue)
              (subst
                (λ at. Holds s.frame.scan_buffer (coming at (held os s.frame.frame_q)) v.flight) e
                v.queued);
      }

  Kept-InOrder :
      (pc pc' : ProcAt) (p : ProcState os) (ins outs : List Buffer) (s : System os)
      → s.proc_at ≡ pc
      → in_use pc s.proc.last_buffer_index ≡ in_use pc' s.proc.last_buffer_index
      → ((l : List ℕ) → coming pc' l ≡ coming pc l)
      → Kept os s.proc p
      → InRing os s
      → InOrder os ins outs s
      → InOrder os ins outs (proc_moves os pc' p s)
  Kept-InOrder pc pc' p ins outs s e u c k r v =
      proc-InOrder pc pc' p ins outs s [] e (u ∙ ap (in_use pc') (sym k.last)) k.ring
        (c (held os p.frame_q) ∙ ap (λ q. coming pc (held os q)) k.queue) r v

  taken-InOrder :
      (w : ℕ) (b : Buffer) (ins outs : List Buffer) (s : System os)
      → s.proc_at ≡ received w
      → get_elem? s.proc.scan_buffer s.proc.frame_q.b ≡ some b
      → InRing os s
      → InOrder os ins outs s
      → InOrder os ins (outs ++ (b ∷ [])) (proc_moves os (holding s.proc.frame_q.b) s.proc s)
  unfolding proc_moves
  taken-InOrder w b ins outs s e g r v =
      let ring = s.frame.scan_buffer in
      let n = s.proc.frame_q.b in
      let here = received_message os w s e r in
      let used = subst (λ at. Holds ring (in_use at s.proc.last_buffer_index) v.recent) e v.reads in
      let found = subst (λ l. get_elem? l n ≡ some b) r.ring g in
      let (rest, f, queued) =
        Holds-first ring n (held os s.proc.frame_q) v.flight b
          (subst (λ l. Holds ring l v.flight)
            (ap (λ q. w ∷ held os q) (sym r.queue)
              ∙ ap (λ k. k ∷ held os s.proc.frame_q) (sym here))
            (subst (λ at. Holds ring (coming at (held os s.frame.frame_q)) v.flight) e v.queued))
          found in
      record {
        earlier = v.earlier;
        recent = v.recent ++ (b ∷ []);
        flight = rest;
        taken = ap (λ l. l ++ (b ∷ [])) v.taken ∙ append_assoc v.earlier v.recent (b ∷ []);
        sent = v.sent ∙ ap (λ l. outs ++ l) f ∙ sym (append_assoc outs (b ∷ []) rest);
        reads = rw r.ring (
            Holds-append ring (as_list s.proc.last_buffer_index) (n ∷ []) v.recent (b ∷ []) used
              (found, tt));
        queued = rw r.ring queued;
      }

  pub step-InOrder :
      (ins outs : List Buffer) (s t : System os) (l : Label)
      → Step os s l t
      → Keeps os l s
      → InRing os s
      → InOrder os ins outs s
      → InOrder os (put l ins) (got l outs) t
  step-InOrder ins outs s _ _ (grab {i} {f} r e run h) k v w =
      let m =
        Always-next (λ x. Same os s.frame x.1) (Same os s.frame) _ (i, f)
          (opening-Same os r s.frame) h in
      frame-InOrder os _ f ins outs s w m.ring (ap (held os) m.queue)
  step-InOrder ins outs s _ _ (copy {f} r i e h) k v w =
      copy-InOrder os _ f ins outs s
        (Every-next (Wrote os s.frame) _ f (scan-Wrote os i r.timestamp s.frame) h) v k w
  step-InOrder ins outs s _ _ (store r n e room) k v w =
      frame-InOrder os (sending r) (stored os n s.frame) ins outs s w (unfold stored in refl)
        (unfold stored in refl)
  step-InOrder ins outs s _ _ (hand {f} {b} r e g h) k v w =
      let filled = sending_filled os r s e v in
      hand-InOrder os _ f b ins outs s
        (subst (λ n. get_elem? s.frame.scan_buffer n ≡ some b) filled g)
        (Always-next (Handed os s.frame) (Refused os s.frame) _ f (send_on-Handed os s.frame filled)
          h)
        w
  step-InOrder ins outs s _ _ (finish {f} r e h) k v w =
      let m =
        Always-next (Same os s.frame) (Same os s.frame) _ f (requeue-Same os r.qbuf_ok s.frame) h in
      frame-InOrder os _ f ins outs s w m.ring (ap (held os) m.queue)
  step-InOrder ins outs s _ _ (stop {f} h) k v w = stop-InOrder f ins outs s h v w
  step-InOrder ins outs s _ _ (begin {p} c e o run h) k v w =
      Kept-InOrder idle idle p ins outs s e refl (λ l. refl)
        (Every-next (Kept os s.proc) _ p (enter-Kept os c s.proc) h) v w
  step-InOrder ins outs s _ _ (end e o run) k v w =
      proc-InOrder idle proc_gone s.proc ins outs s [] e refl refl refl v w
  step-InOrder ins outs s _ _ (await n e o) k v w =
      proc-InOrder idle receiving (record s.proc { frame_q = record s.proc.frame_q { count = n } })
        ins outs s [] e refl refl refl v w
  step-InOrder ins outs s _ _ (receive x mq e h) k v w =
      proc-InOrder receiving (received x)
        (record s.proc { frame_q = record s.proc.frame_q { q = mq; b = x } }) ins outs s [] e refl
        refl (sym (got_message os s.proc.frame_q x mq h)) v w
  step-InOrder ins outs s _ _ (take {b} x e g) k v w = taken-InOrder x b ins outs s e g v w
  step-InOrder ins outs s _ _ (take_none reply mq e h m) k v w =
      proc-InOrder receiving proc_gone
        (record s.proc { frame_q = record s.proc.frame_q { q = mq }; running = false }) ins outs s
        [] e refl refl (got_none os s.proc.frame_q reply mq h m) v w
  step-InOrder ins outs s _ _ (judge {turn} {p} current e h) k v w =
      let m =
        Every-next (λ x. Judged os current s.proc x.1) _ (turn, p)
          (examine-Judged os s.proc.last_buffer_index current s.proc) h in
      proc-InOrder (holding current) (judged turn) p ins outs s (as_list s.proc.last_buffer_index) e
        (ap (λ o. as_list s.proc.last_buffer_index ++ as_list o) (sym m.last)) m.ring
        (ap (held os) m.queue) v w
  step-InOrder ins outs s _ _ (settle {p} c turn e h) k v w =
      Kept-InOrder (judged turn) idle p ins outs s e refl (λ l. refl)
        (Every-next (Kept os s.proc) _ p (after_inner-Kept os c turn s.proc) h) v w
  step-InOrder ins outs s _ _ halt k v w = frame-InOrder os _ _ ins outs s w refl refl

  -- Both threads before their first frame, with nothing queued.
  pub record IsFresh (s : System os) : Type 0 where
    pub in_ring : InRing os s
    pub at : s.proc_at ≡ idle
    pub no_last : s.proc.last_buffer_index ≡ none
    pub nothing : held os s.frame.frame_q ≡ []

  fresh-InOrder : (s : System os) → IsFresh s → InOrder os [] [] s
  fresh-InOrder s v = record {
    earlier = [];
    recent = [];
    flight = [];
    taken = refl;
    sent = refl;
    reads = rw (v.at, v.no_last) tt;
    queued = rw (v.at, v.nothing) tt;
  }

  Run-both :
      (s t : System os) (ins outs : List Buffer)
      → IsFresh s
      → Run os s ins outs t
      → InRing os t × InOrder os ins outs t
  Run-both s _ _ _ v opens = (v.in_ring, fresh-InOrder s v)
  Run-both s _ _ _ v (moves {ins} {outs} {t} {u} {l} r h k a) =
      let (ring, order) = Run-both s t ins outs v r in
      (step-InRing os t u l h a ring, step-InOrder ins outs t u l h k ring order)

  pub Run-InRing :
      (s t : System os) (ins outs : List Buffer) → IsFresh s → Run os s ins outs t → InRing os t
  Run-InRing s t ins outs v r = (Run-both s t ins outs v r).0

  -- From the start, in whatever order the two threads step, as long as they stay apart on the receive
  -- buffer of their queue (no store of the frame thread falls between a receive of the processing
  -- thread and its read of the buffer, and no receive between a store and its send) and fewer than 88
  -- frames wait at each copy, the processing thread takes the frames that the frame thread handed over, each once
  -- and in order, as they were handed over; those not yet taken lie in the ring where the index
  -- received and the queued indices say; and the last taken still lie in the slots that the thread may read.
  pub Run-InOrder :
      (s t : System os) (ins outs : List Buffer)
      → IsFresh s
      → Run os s ins outs t
      → InOrder os ins outs t
  Run-InOrder s t ins outs v r = (Run-both s t ins outs v r).1
