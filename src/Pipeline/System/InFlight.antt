-- ===== src/Pipeline/System/InFlight.antt =====
-- What holds of the ring and of the queue between two steps, and what the kernel's calls do to them.
use synchronome.Base.{
  ℕ, ◌<◌, ◌≡◌, refl, sym, ap, subst, ◌∙◌, List, [], ◌∷◌, ◌++◌, Option, none, some,
}
use synchronome.Buffer.{scan_buf_size}
use synchronome.Queue.{
  Mqueue, QueueContainer, Status, success, again, failure, Received, message, empty, broken,
  hand_on,
}
use synchronome.Queue.Fifo.{held}
use synchronome.Pipeline.Outcome.{Always}
use synchronome.Pipeline.Frame.{Round, FrameState, passed}
use synchronome.Pipeline.Frame.Effects.{Same, Handed, Refused}
use synchronome.Pipeline.System.Ring.{IsRun}
use synchronome.Pipeline.System.{
  FrameAt, waiting, grabbed, copied, sending, handed, frame_gone, ProcAt, idle, receiving, received,
  holding, judged, proc_gone, Quiet, Apart, Missed, System, send_on, full,
}

abbrev pub as_list : Option ℕ → List ℕ
as_list none = []
as_list (some x) = x ∷ []

-- The buffers that the processing thread may read: the last frame, and the one in hand.
abbrev pub in_use : ProcAt → Option ℕ → List ℕ
in_use receiving last = as_list last
in_use (received v) last = as_list last
in_use (holding current) last = as_list last ++ (current ∷ [])
in_use idle last = as_list last
in_use (judged turn) last = as_list last
in_use proc_gone last = as_list last

-- The indices on their way: one that is received and not yet read, and those queued.
abbrev pub coming : ProcAt → List ℕ → List ℕ
coming (received v) l = v ∷ l
coming idle l = l
coming receiving l = l
coming (holding current) l = l
coming (judged turn) l = l
coming proc_gone l = l

pub coming-append : (pc : ProcAt) (l m : List ℕ) → coming pc (l ++ m) ≡ coming pc l ++ m
coming-append (received v) l m = refl
coming-append idle l m = refl
coming-append receiving l m = refl
coming-append (holding current) l m = refl
coming-append (judged turn) l m = refl
coming-append proc_gone l m = refl

-- Between the store and the send the receive buffer holds the index to be sent.
abbrev pub Filled : FrameAt → ℕ → ℕ → Type 0
Filled (sending r) b n = b ≡ n
Filled waiting b n = Unit
Filled (grabbed r i) b n = Unit
Filled (copied r) b n = Unit
Filled (handed r) b n = Unit
Filled frame_gone b n = Unit

-- Between the receive and the read the receive buffer holds the message.
abbrev pub Message : ProcAt → ℕ → Type 0
Message (received v) b = b ≡ v
Message idle b = Unit
Message receiving b = Unit
Message (holding current) b = Unit
Message (judged turn) b = Unit
Message proc_gone b = Unit

pub Quiet-Message : (pc : ProcAt) (b : ℕ) → Quiet pc → Message pc b
Quiet-Message (received v) b q = absurd q
Quiet-Message idle b q = tt
Quiet-Message receiving b q = tt
Quiet-Message (holding current) b q = tt
Quiet-Message (judged turn) b q = tt
Quiet-Message proc_gone b q = tt

pub Apart-Filled : (at : FrameAt) (v b n : ℕ) → Apart at (received v) → Filled at b n
Apart-Filled (sending r) v b n a = absurd a
Apart-Filled waiting v b n a = tt
Apart-Filled (grabbed r i) v b n a = tt
Apart-Filled (copied r) v b n a = tt
Apart-Filled (handed r) v b n a = tt
Apart-Filled frame_gone v b n a = tt

module _ (os : Mqueue) where
  -- The buffers in use and those whose indices come behind them.
  abbrev pub window : System os → List ℕ
  window s = in_use s.proc_at s.proc.last_buffer_index ++ coming s.proc_at (held os s.frame.frame_q)

  -- Both threads see the same ring and queue, the window ends just before the slot that the next frame
  -- goes to, and the receive buffer holds what the thread that uses it put there.
  pub record InRing (s : System os) : Type 0 where
    pub ring : s.proc.scan_buffer ≡ s.frame.scan_buffer
    pub queue : s.proc.frame_q ≡ s.frame.frame_q
    pub within : s.frame.scan_buffer_index < scan_buf_size
    pub run : IsRun (window s) s.frame.scan_buffer_index
    pub apart : Apart s.frame_at s.proc_at
    pub filled : Filled s.frame_at s.frame.frame_q.b s.frame.scan_buffer_index
    pub message : Message s.proc_at s.frame.frame_q.b

  -- What is known in the state before a step, from where the threads stand.
  pub sending-Quiet :
      (r : Round) (s : System os) → s.frame_at ≡ sending r → InRing s → Quiet s.proc_at
  sending-Quiet r s e v = subst (λ at. Apart at s.proc_at) e v.apart

  pub sending_filled :
      (r : Round) (s : System os)
      → s.frame_at ≡ sending r
      → InRing s
      → s.frame.frame_q.b ≡ s.frame.scan_buffer_index
  sending_filled r s e v =
      subst (λ at. Filled at s.frame.frame_q.b s.frame.scan_buffer_index) e v.filled

  pub received_message :
      (n : ℕ) (s : System os) → s.proc_at ≡ received n → InRing s → s.proc.frame_q.b ≡ n
  received_message n s e v =
      ap (λ c. c.b) v.queue ∙ subst (λ at. Message at s.frame.frame_q.b) e v.message

  pub full-Same : (f : FrameState os) → Always (λ t. Unit {0}) (Same os f) (full os f)
  unfolding full passed
  full-Same f = record { ring = refl; index = refl; ids = refl; queue = refl }

  sent_on :
      (f : FrameState os) (status : Status)
      → (os.mq_timedsend f.frame_q.q f.frame_q.b).0 ≡ status
      → f.frame_q.b ≡ f.scan_buffer_index
      → Always
          (Handed os f)
          (Refused os f)
          (passed os (hand_on os f.frame_q status (os.mq_timedsend f.frame_q.q f.frame_q.b).1) f)
  unfolding passed hand_on
  sent_on f success e b = record {
    ring = refl;
    index = refl;
    ids = refl;
    queue = os.sent f.frame_q.q f.frame_q.b e ∙ ap (λ n. held os f.frame_q ++ (n ∷ [])) b;
  }
  sent_on f again e b = record {
    ring = refl;
    index = refl;
    ids = refl;
    queue = os.not_sent f.frame_q.q f.frame_q.b (rw e (λ f. cc));
  }
  sent_on f failure e b = record {
    ring = refl;
    index = refl;
    ids = refl;
    queue = os.not_sent f.frame_q.q f.frame_q.b (rw e (λ f. cc));
  }

  pub send_on-Handed :
      (f : FrameState os)
      → f.frame_q.b ≡ f.scan_buffer_index
      → Always (Handed os f) (Refused os f) (send_on os f)
  unfolding send_on
  send_on-Handed f b = sent_on f _ refl b

  -- A receive takes the first message, or leaves the queue.
  pub got_message :
      (c : QueueContainer os) (v : ℕ) (mq : os.Mq)
      → os.mq_receive c.q ≡ (message v, mq)
      → held os c ≡ v ∷ os.contents mq
  got_message c v mq e = os.received c.q v (ap (λ p. p.0) e) ∙ ap (λ p. v ∷ os.contents p.1) e

  pub got_none :
      (c : QueueContainer os) (reply : Received) (mq : os.Mq)
      → os.mq_receive c.q ≡ (reply, mq)
      → Missed reply
      → os.contents mq ≡ held os c
  got_none c (message v) mq e m = absurd m
  got_none c empty mq e m =
      ap (λ p. os.contents p.1) (sym e) ∙ os.not_received c.q (λ v. rw e (λ f. cc))
  got_none c broken mq e m =
      ap (λ p. os.contents p.1) (sym e) ∙ os.not_received c.q (λ v. rw e (λ f. cc))
