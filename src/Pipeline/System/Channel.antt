-- ===== src/Pipeline/System/Channel.antt =====
-- What the two threads together promise: the ring, its index and the queue of indices carry frames
-- from the camera to the selection as a channel that is first in, first out.
use mathlib.Core.List.{append_assoc}
use synchronome.Base.{
  ℕ, ◌+◌, ◌<◌, ◌≤◌, ◌≡◌, ◌≢◌, ap, ◌∙◌, List, [], ◌∷◌, ◌++◌, Option, none, some, length,
  length-append, get_elem?, arith,
}
use synchronome.Buffer.{Buffer, scan_buf_size}
use synchronome.Queue.{Mqueue}
use synchronome.Queue.Fifo.{held}
use synchronome.Pipeline.Frame.{FrameState}
use synchronome.Pipeline.Frame.Effects.{Wrote, Handed}
use synchronome.Pipeline.System.{
  FrameAt, ProcAt, idle, receiving, received, holding, judged, proc_gone, Apart, Label, copies,
  hands, takes, silent, System, frame_moves, Step,
}
use synchronome.Pipeline.System.Ring.{
  Holds, Holds-append, Holds-set, IsIn, IsIn-left, IsIn-right, IsRun-free,
}
use synchronome.Pipeline.System.InFlight.{as_list, in_use, coming, coming-append, window, InRing}

-- The frames that a step puts into the channel, and those that it takes out.
abbrev pub put : Label → List Buffer → List Buffer
put (hands b) ins = ins ++ (b ∷ [])
put copies ins = ins
put (takes b) ins = ins
put silent ins = ins

abbrev pub got : Label → List Buffer → List Buffer
got (takes b) outs = outs ++ (b ∷ [])
got copies outs = outs
got (hands b) outs = outs
got silent outs = outs

module _ (os : Mqueue) where
  -- At a copy the processing thread lags by fewer frames than the ring has slots, less the two that
  -- it may read.
  abbrev pub Keeps : Label → System os → Type 0
  Keeps copies s = length (held os s.frame.frame_q) + 2 < scan_buf_size
  Keeps (hands b) s = Unit
  Keeps (takes b) s = Unit
  Keeps silent s = Unit

  -- The steps of the two threads in any order in which they stay apart on the receive buffer, with the
  -- frames handed over and those taken.
  pub data Run (s : System os) : List Buffer → List Buffer → System os → Type 0 where
    opens : Run s [] [] s
    moves :
        {ins outs : List Buffer} {t u : System os} {l : Label}
        → Run s ins outs t
        → Step os t l u
        → Keeps l t
        → Apart u.frame_at u.proc_at
        → Run s (put l ins) (got l outs) u

  -- Of the frames handed over, those taken come first, in order; the rest lie in the ring where the
  -- index received and not yet read and the queued indices say. The last of those taken still lie in the slots that the processing thread may
  -- read.
  pub record InOrder (ins outs : List Buffer) (s : System os) : Type 0 where
    pub earlier : List Buffer
    pub recent : List Buffer
    pub flight : List Buffer
    pub taken : outs ≡ earlier ++ recent
    pub sent : ins ≡ outs ++ flight
    pub reads : Holds s.frame.scan_buffer (in_use s.proc_at s.proc.last_buffer_index) recent
    pub queued : Holds s.frame.scan_buffer (coming s.proc_at (held os s.frame.frame_q)) flight

  pub frame-InOrder :
      (pc : FrameAt) (f : FrameState os) (ins outs : List Buffer) (s : System os)
      → InOrder ins outs s
      → f.scan_buffer ≡ s.frame.scan_buffer
      → held os f.frame_q ≡ held os s.frame.frame_q
      → InOrder ins outs (frame_moves os pc f s)
  unfolding frame_moves
  frame-InOrder pc f ins outs s v e q = record {
    earlier = v.earlier;
    recent = v.recent;
    flight = v.flight;
    taken = v.taken;
    sent = v.sent;
    reads = rw e v.reads;
    queued = rw (e, q) v.queued;
  }

  as_list-small : (o : Option ℕ) → length (as_list o) ≤ 1
  as_list-small none = omega arith
  as_list-small (some x) = omega arith

  -- The thread may read two frames, one of which may be on its way.
  ahead-small :
      (pc : ProcAt) (last : Option ℕ) (l : List ℕ)
      → length (in_use pc last ++ coming pc l) ≤ length l + 2
  ahead-small idle last l = omega (arith, as_list-small last, length-append (as_list last) l)
  ahead-small receiving last l = omega (arith, as_list-small last, length-append (as_list last) l)
  ahead-small (received v) last l =
      omega (arith, as_list-small last, length-append (as_list last) (v ∷ l))
  ahead-small (holding c) last l = omega (
    arith,
    as_list-small last,
    length-append (as_list last) (c ∷ []),
    length-append (as_list last ++ (c ∷ [])) l,
  )
  ahead-small (judged turn) last l =
      omega (arith, as_list-small last, length-append (as_list last) l)
  ahead-small proc_gone last l = omega (arith, as_list-small last, length-append (as_list last) l)

  -- No slot of the window is the one that the next frame goes to.
  pub window-free :
      (s : System os)
      → InRing os s
      → length (held os s.frame.frame_q) + 2 < scan_buf_size
      → (k : ℕ) → IsIn k (window os s)
      → k ≢ s.frame.scan_buffer_index
  window-free s v h k i =
      IsRun-free (window os s) s.frame.scan_buffer_index k
        (omega (arith, h, ahead-small s.proc_at s.proc.last_buffer_index (held os s.frame.frame_q)))
        v.run i

  pub copy-InOrder :
      (pc : FrameAt) (f : FrameState os) (ins outs : List Buffer) (s : System os)
      → Wrote os s.frame f
      → InRing os s
      → length (held os s.frame.frame_q) + 2 < scan_buf_size
      → InOrder ins outs s
      → InOrder ins outs (frame_moves os pc f s)
  unfolding frame_moves
  copy-InOrder pc f ins outs s w r h v =
      let used = in_use s.proc_at s.proc.last_buffer_index in
      let free = window-free s r h in
      record {
        earlier = v.earlier;
        recent = v.recent;
        flight = v.flight;
        taken = v.taken;
        sent = v.sent;
        reads = rw w.ring (
            Holds-set s.frame.scan_buffer s.frame.scan_buffer_index w.target used v.recent
              (λ k i. free k (IsIn-left k used (coming s.proc_at (held os s.frame.frame_q)) i))
              v.reads);
        queued =
            rw (w.ring, w.queue)
              (Holds-set s.frame.scan_buffer s.frame.scan_buffer_index w.target
                (coming s.proc_at (held os s.frame.frame_q)) v.flight
                (λ k i. free k (IsIn-right k used (coming s.proc_at (held os s.frame.frame_q)) i))
                v.queued);
      }

  pub hand-InOrder :
      (pc : FrameAt) (f : FrameState os) (b : Buffer) (ins outs : List Buffer) (s : System os)
      → get_elem? s.frame.scan_buffer s.frame.scan_buffer_index ≡ some b
      → Handed os s.frame f
      → InOrder ins outs s
      → InOrder (ins ++ (b ∷ [])) outs (frame_moves os pc f s)
  unfolding frame_moves
  hand-InOrder pc f b ins outs s e h v = record {
    earlier = v.earlier;
    recent = v.recent;
    flight = v.flight ++ (b ∷ []);
    taken = v.taken;
    sent = ap (λ l. l ++ (b ∷ [])) v.sent ∙ append_assoc outs v.flight (b ∷ []);
    reads = rw h.ring v.reads;
    queued =
        rw
          (
            h.ring,
            h.queue,
            coming-append s.proc_at (held os s.frame.frame_q) (s.frame.scan_buffer_index ∷ []),
          )
          (Holds-append s.frame.scan_buffer (coming s.proc_at (held os s.frame.frame_q))
            (s.frame.scan_buffer_index ∷ []) v.flight (b ∷ []) v.queued (e, tt));
  }
