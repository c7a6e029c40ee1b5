-- ===== src/Pipeline/System.antt =====
-- The frame thread of simple-capture/frame.c and the processing thread of simple-capture/processing.c
-- side by side, on the globals they share: the ring of scan buffers, the queue of indices and the
-- running flag. A step is the part of a round between two accesses to what is shared; so a call of
-- enqueue_P or dequeue_P is several steps, with the receive buffer and the counter of the container
-- shared between them.
pub mod Calls
pub mod Ring
pub mod InFlight
pub mod Window
pub mod Channel
pub mod Delivery
pub mod Numbers
pub mod Overwrite
mod Tests
use synchronome.Base.{
  ℕ, ◌≡◌, refl, Bool, true, false, if◌then◌else◌, Bool-cases, inl, inr, Option, none, some, List,
  [], ◌∷◌, ◌++◌, get_elem?,
}
use synchronome.Base.Int.{ℤ, pos, ◌+ℤ◌, eqb_ℤ}
use synchronome.Buffer.{Buffer}
use synchronome.Queue
use synchronome.Queue.{
  Mqueue, QueueContainer, Status, success, again, failure, Received, message, empty, broken,
  hand_on, enqueue_p,
}
use synchronome.Pipeline.Outcome.{Outcome, next, leave}
use synchronome.Pipeline.Frame.{Round, FrameState, opening, scan, passed, pass_on, requeue}
use synchronome.Pipeline.Processing.{
  ProcState, Clock, Turn, outer, inner, examine, after_inner, enter,
}

-- Where the frame thread stands in its round: before the wait, with camera buffer `i` dequeued, with
-- the frame copied, in `enqueue_P` between the store to the receive buffer and the send, or with the
-- index handed over. It is gone when its function has returned.
pub data FrameAt : Type 0 where
  waiting : FrameAt
  grabbed : Round → ℕ → FrameAt
  copied : Round → FrameAt
  sending : Round → FrameAt
  handed : Round → FrameAt
  frame_gone : FrameAt

-- Where the processing thread stands: before the dequeue, in `dequeue_P` with the counter decremented,
-- there with a message in the receive buffer but not yet read from it, with scan buffer `current` in
-- hand, with
-- its verdict on it, or returned.
pub data ProcAt : Type 0 where
  idle : ProcAt
  receiving : ProcAt
  received : ℕ → ProcAt
  holding : ℕ → ProcAt
  judged : Turn → ProcAt
  proc_gone : ProcAt

-- What an observer of the channel between the two sees of a step: a frame is copied to the ring, the
-- frame in the ring is handed over, a frame is taken, or none of these.
pub data Label : Type 0 where
  copies : Label
  hands : Buffer → Label
  takes : Buffer → Label
  silent : Label

-- The processing thread has no message in the receive buffer that it has yet to read.
abbrev pub Quiet : ProcAt → Type 0
Quiet (received v) = ⊥
Quiet idle = Unit
Quiet receiving = Unit
Quiet (holding current) = Unit
Quiet (judged turn) = Unit
Quiet proc_gone = Unit

-- The frame thread is not between its store to the receive buffer and the send while the processing
-- thread is between the receive and its read of that buffer.
abbrev pub Apart : FrameAt → ProcAt → Type 0
Apart (sending r) pc = Quiet pc
Apart waiting pc = Unit
Apart (grabbed r i) pc = Unit
Apart (copied r) pc = Unit
Apart (handed r) pc = Unit
Apart frame_gone pc = Unit

-- A receive that brings no message.
abbrev pub Missed : Received → Type 0
Missed (message v) = ⊥
Missed empty = Unit
Missed broken = Unit

module _ (os : Mqueue) where
  open os use {Mq, mq_timedsend, mq_receive}

  -- `enqueue_P` up to the send: the counter comes to `n`, and the index goes to the receive buffer.
  pub stored : ℤ → FrameState os → FrameState os
  stored n f = record f { frame_q = record f.frame_q { count = n; b = f.scan_buffer_index } }

  -- From the send on: what is sent is what the receive buffer holds.
  pub send_on : FrameState os → Outcome (FrameState os) (FrameState os)
  send_on f =
      let (status, mq) = mq_timedsend f.frame_q.q f.frame_q.b in
      passed os (hand_on os f.frame_q status mq) f

  -- The counter says that the queue is full.
  pub full : FrameState os → Outcome (FrameState os) (FrameState os)
  full f = passed os (Queue.err, f.frame_q) f

  pub record System : Type 0 where
    pub frame_at : FrameAt
    pub frame : FrameState os
    pub proc_at : ProcAt
    pub proc : ProcState os

  -- A step of one thread shows in the globals that the other reads.
  unfoldable pub frame_moves : FrameAt → FrameState os → System → System
  frame_moves pc f s = record s {
    frame_at = pc;
    frame = f;
    proc = record s.proc { running = f.running; scan_buffer = f.scan_buffer; frame_q = f.frame_q };
  }

  unfoldable pub proc_moves : ProcAt → ProcState os → System → System
  proc_moves pc p s = record s {
    proc_at = pc;
    proc = p;
    frame = record s.frame {
      running = p.running;
      scan_buffer = p.scan_buffer;
      frame_q = p.frame_q;
    };
  }

  -- The parts of a round that may end the frame thread.
  pub data FrameStops (s : System) : FrameState os → Type 0 where
    ended : s.frame_at ≡ waiting → s.frame.running ≡ false → FrameStops s s.frame
    no_frame :
        {f : FrameState os} (r : Round) (code : ℤ)
        → s.frame_at ≡ waiting
        → opening os r s.frame ≡ leave code f
        → FrameStops s f
    no_room :
        {f : FrameState os} (r : Round) (code : ℤ)
        → s.frame_at ≡ copied r
        → eqb_ℤ s.frame.frame_q.count (pos s.frame.frame_q.num_elems) ≡ true
        → full s.frame ≡ leave code f
        → FrameStops s f
    refused :
        {f : FrameState os} (r : Round) (code : ℤ)
        → s.frame_at ≡ sending r
        → send_on s.frame ≡ leave code f
        → FrameStops s f
    not_requeued :
        {f : FrameState os} (r : Round) (code : ℤ)
        → s.frame_at ≡ handed r
        → requeue os r.qbuf_ok s.frame ≡ leave code f
        → FrameStops s f

  pub data Step (s : System) : Label → System → Type 0 where
    grab :
        {i : ℕ} {f : FrameState os} (r : Round)
        → s.frame_at ≡ waiting
        → s.frame.running ≡ true
        → opening os r s.frame ≡ next (i, f)
        → Step s silent (frame_moves (grabbed r i) f s)
    copy :
        {f : FrameState os} (r : Round) (i : ℕ)
        → s.frame_at ≡ grabbed r i
        → scan os i r.timestamp s.frame ≡ next f
        → Step s copies (frame_moves (copied r) f s)
    -- The threads' `count++` and `count--` are not atomic, so the counter may come to any value.
    store :
        (r : Round) (n : ℤ)
        → s.frame_at ≡ copied r
        → eqb_ℤ s.frame.frame_q.count (pos s.frame.frame_q.num_elems) ≡ false
        → Step s silent (frame_moves (sending r) (stored n s.frame) s)
    hand :
        {f : FrameState os} {b : Buffer} (r : Round)
        → s.frame_at ≡ sending r
        → get_elem? s.frame.scan_buffer s.frame.frame_q.b ≡ some b
        → send_on s.frame ≡ next f
        → Step s (hands b) (frame_moves (handed r) f s)
    finish :
        {f : FrameState os} (r : Round)
        → s.frame_at ≡ handed r
        → requeue os r.qbuf_ok s.frame ≡ next f
        → Step s silent (frame_moves waiting f s)
    stop : {f : FrameState os} → FrameStops s f → Step s silent (frame_moves frame_gone f s)
    begin :
        {p : ProcState os} (c : Clock)
        → s.proc_at ≡ idle
        → s.proc.phase ≡ outer
        → s.proc.running ≡ true
        → enter os c s.proc ≡ next p
        → Step s silent (proc_moves idle p s)
    end :
        s.proc_at ≡ idle
        → s.proc.phase ≡ outer
        → s.proc.running ≡ false
        → Step s silent (proc_moves proc_gone s.proc s)
    await :
        (n : ℤ)
        → s.proc_at ≡ idle
        → s.proc.phase ≡ inner
        → Step s silent (
            proc_moves receiving
              (record s.proc { frame_q = record s.proc.frame_q { count = n } })
              s)
    receive :
        (v : ℕ) (mq : Mq)
        → s.proc_at ≡ receiving
        → mq_receive s.proc.frame_q.q ≡ (message v, mq)
        → Step s silent (
            proc_moves
              (received v)
              (record s.proc { frame_q = record s.proc.frame_q { q = mq; b = v } })
              s)
    take :
        {b : Buffer} (v : ℕ)
        → s.proc_at ≡ received v
        → get_elem? s.proc.scan_buffer s.proc.frame_q.b ≡ some b
        → Step s (takes b) (proc_moves (holding s.proc.frame_q.b) s.proc s)
    take_none :
        (reply : Received) (mq : Mq)
        → s.proc_at ≡ receiving
        → mq_receive s.proc.frame_q.q ≡ (reply, mq)
        → Missed reply
        → Step s silent (
            proc_moves proc_gone
              (record s.proc { frame_q = record s.proc.frame_q { q = mq }; running = false })
              s)
    judge :
        {turn : Turn} {p : ProcState os} (current : ℕ)
        → s.proc_at ≡ holding current
        → examine os s.proc.last_buffer_index current s.proc ≡ next (turn, p)
        → Step s silent (proc_moves (judged turn) p s)
    settle :
        {p : ProcState os} (c : Clock) (turn : Turn)
        → s.proc_at ≡ judged turn
        → after_inner os c (turn, s.proc) ≡ next p
        → Step s silent (proc_moves idle p s)
    -- The signal handler of sequencer.c clears the flag.
    halt : Step s silent (frame_moves s.frame_at (record s.frame { running = false }) s)

  -- The steps of the two threads in any order in which they stay apart on the receive buffer, which
  -- the code does not see to.
  pub data Reach (s : System) : System → Type 0 where
    start : Reach s s
    more :
        {t u : System} {l : Label} → Reach s t → Step t l u → Apart u.frame_at u.proc_at → Reach s u
