-- ===== src/Pipeline/System/Overwrite.antt =====
-- The copy of a camera frame into the ring, and the frames that the processing thread may still read.
use synchronome.Base.{
  ℕ, suc, ◌+◌, ◌<◌, ◌≡◌, ◌≢◌, refl, sym, ap, subst, ◌∙◌, List, ◌∷◌, length, get_elem?, set,
  get_elem?-set_ne,
}
use synchronome.Buffer.{Buffer, scan_buf_size}
use synchronome.Queue.{Mqueue}
use synchronome.Queue.Fifo.{held}
use synchronome.Pipeline.Outcome.{Every-next}
use synchronome.Pipeline.Frame.{FrameState}
use synchronome.Pipeline.Frame.Effects.{Wrote, scan-Wrote}
use synchronome.Pipeline.System.{
  FrameAt, copied, Label, copies, System, frame_moves, Step, grab, copy, store, hand, finish, stop,
  begin, end, await, receive, take, take_none, judge, settle, halt, Reach,
}
use synchronome.Pipeline.System.Ring.{IsRun, IsIn, IsRun-full}
use synchronome.Pipeline.System.InFlight.{window, InRing}
use synchronome.Pipeline.System.Window.{Reach-InRing}
use synchronome.Pipeline.System.Channel.{window-free}

module _ (os : Mqueue) where
  untouched :
      (s : System os) (f : FrameState os) (k : ℕ)
      → Wrote os s.frame f
      → k ≢ s.frame.scan_buffer_index
      → get_elem? f.scan_buffer k ≡ get_elem? s.frame.scan_buffer k
  untouched s f k w ne = rw w.ring (get_elem?-set_ne s.frame.scan_buffer w.target (λ e. ne (sym e)))

  -- What a copy does to the buffers in use and those queued.
  pub record Copy (s t : System os) : Type 0 where
    pub safe :
        length (held os s.frame.frame_q) + 2 < scan_buf_size
        → (k : ℕ) → IsIn k (window os s)
        → get_elem? t.frame.scan_buffer k ≡ get_elem? s.frame.scan_buffer k
    pub full :
        (x : ℕ) (l : List ℕ)
        → window os s ≡ x ∷ l
        → suc (length l) ≡ scan_buf_size
        → (b : Buffer) × (t.frame.scan_buffer ≡ set s.frame.scan_buffer x b)
          × (b.id ≡ s.frame.frame_id)

  copied-Copy :
      (pc : FrameAt) (s : System os) (f : FrameState os)
      → InRing os s
      → Wrote os s.frame f
      → Copy s (frame_moves os pc f s)
  unfolding frame_moves
  copied-Copy pc s f v w = record {
    safe = λ h k i. untouched s f k w (window-free os s v h k i);
    full = λ x l e h.
        let at =
          IsRun-full x l s.frame.scan_buffer_index h
            (subst (λ l. IsRun l s.frame.scan_buffer_index) e v.run) in
        (w.target, w.ring ∙ ap (λ i. set s.frame.scan_buffer i w.target) (sym at), w.named);
  }

  step-Copy : (s t : System os) (l : Label) → Step os s l t → l ≡ copies → InRing os s → Copy s t
  step-Copy s _ _ (copy {f} r i e h) _ v =
      copied-Copy (copied r) s f v
        (Every-next (Wrote os s.frame) _ f (scan-Wrote os i r.timestamp s.frame) h)
  step-Copy s _ _ (grab r e run h) x v = cc
  step-Copy s _ _ (store r n e room) x v = cc
  step-Copy s _ _ (hand r e g h) x v = cc
  step-Copy s _ _ (finish r e h) x v = cc
  step-Copy s _ _ (stop h) x v = cc
  step-Copy s _ _ (begin c e o run h) x v = cc
  step-Copy s _ _ (end e o run) x v = cc
  step-Copy s _ _ (await n e o) x v = cc
  step-Copy s _ _ (receive w mq e h) x v = cc
  step-Copy s _ _ (take w e g) x v = cc
  step-Copy s _ _ (take_none reply mq e h m) x v = cc
  step-Copy s _ _ (judge current e h) x v = cc
  step-Copy s _ _ (settle c turn e h) x v = cc
  step-Copy s _ _ halt x v = cc

  -- In any state the two threads can reach while they stay apart on the receive buffer of their queue
  -- (no store of the frame thread falls between a receive of the processing thread and its read of the
  -- buffer, and no receive between a store and its send), a copy of a camera frame into the ring leaves
  -- the last frame, the frame in hand, the frame whose index is received and the queued frames as they
  -- are while fewer than 88 frames are queued.
  -- When these fill the ring it overwrites the first of them.
  pub Reach-Copy : (s t u : System os) → InRing os s → Reach os s t → Step os t copies u → Copy t u
  Reach-Copy s t u v r h = step-Copy t u copies h refl (Reach-InRing os s t v r)
