-- ===== src/Pipeline/System/Calls.antt =====
-- The steps that a call of enqueue_P or dequeue_P in queue.c takes make up the call.
use synchronome.Base.{ℕ, ◌≡◌, refl, if◌then◌else◌, Bool-cases, inl, inr, some}
use synchronome.Base.Int.{pos, ◌+ℤ◌, ◌-ℤ◌, eqb_ℤ}
use synchronome.Queue
use synchronome.Queue.{
  Mqueue, QueueContainer, Status, success, again, failure, message, hand_on, enqueue_p, dequeue_p,
}
use synchronome.Pipeline.Frame.{FrameState, passed, pass_on}
use synchronome.Pipeline.System.{stored, send_on, full}

module _ (os : Mqueue) where
  open os use {Mq, mq_timedsend, mq_receive}

  sent_same :
      (c : QueueContainer os) (status : Status) (mq : Mq) (f : FrameState os)
      → passed os (hand_on os c status mq) f
        ≡ passed os (hand_on os c status mq) (record f { frame_q = c })
  unfolding passed hand_on
  sent_same c success mq f = refl
  sent_same c again mq f = refl
  sent_same c failure mq f = refl

  -- Without a step of the other thread between them the parts make up the call.
  pass_on-parts :
      (f : FrameState os)
      → pass_on os f ≡ (
          if eqb_ℤ f.frame_q.count (pos f.frame_q.num_elems)
          then full os f
          else send_on os (stored os (f.frame_q.count +ℤ pos 1) f))
  unfolding pass_on full send_on stored enqueue_p
  pass_on-parts f = elim (Bool-cases (eqb_ℤ f.frame_q.count (pos f.frame_q.num_elems))) [
    | inl e ↦ rw e refl
    | inr e ↦
        let out = mq_timedsend f.frame_q.q f.scan_buffer_index in
        rw e (sent_same (stored os (f.frame_q.count +ℤ pos 1) f).frame_q out.0 out.1 f)
  ]

  -- A call of `dequeue_P` decrements the counter, receives into the buffer and reads from it.
  dequeue_p-message :
      (c : QueueContainer os) (v : ℕ) (mq : Mq)
      → mq_receive c.q ≡ (message v, mq)
      → let c' = record c { count = c.count -ℤ pos 1; q = mq; b = v } in
        dequeue_p os c ≡ (Queue.ok, some c'.b, c')
  unfolding dequeue_p
  dequeue_p-message c v mq e = rw e refl
