-- ===== src/Queue/Fifo.antt =====
-- What a client of one queue sees: first in, first out, and the counter beside the kernel's queue.
use mathlib.Core.List.{append-nil, append_assoc}
use synchronome.Base.{
  ℕ, zero, suc, ◌+◌, ◌<◌, ◌≡◌, refl, sym, ap, subst, ◌∙◌, inl, inr, Bool, true, false, List, [],
  ◌∷◌, ◌++◌, Option, none, some, length, length-append, if◌then◌else◌, arith, Bool-cases,
}
use synchronome.Base.Int.{pos, ◌+ℤ◌, ◌-ℤ◌, eqb_ℤ, +ℤ-pos}
use synchronome.Queue.{
  Mqueue, Status, success, again, failure, Received, message, empty, broken, Ret, ok, err, Setup,
  QueueContainer, init_queue, flush_loop, flush_end, flush_queue, take_in, hand_on, enqueue_p,
  dequeue_p,
}

pub data Op : Type 0 where
  put : Option ℕ → Op
  get : Op

module _ (os : Mqueue) where
  open os use {
    Mq, contents, mq_timedsend, mq_receive, sent, not_sent, received, not_received, drained,
  }

  abbrev pub held : QueueContainer os → List ℕ
  held c = contents c.q

  -- The counter says how many messages the kernel holds.
  abbrev pub IsCounted : QueueContainer os → Type 0
  IsCounted c = c.count ≡ pos (length (held c))

  -- What the code relies on of `enqueue_P`: success appends the value, failure leaves the queue.
  abbrev pub Enqueued : QueueContainer os → Option ℕ → Ret × QueueContainer os → Type 0
  Enqueued c (some v) (ok, c') = (held c' ≡ held c ++ (v ∷ [])) × (c'.count ≡ c.count +ℤ pos 1)
  Enqueued c none (ok, c') = ⊥
  Enqueued c p (err, c') = held c' ≡ held c

  hand_on-Enqueued :
      (c : QueueContainer os) (v : ℕ) (s : Status)
      → (mq_timedsend c.q v).0 ≡ s
      → Enqueued c
          (some v)
          (hand_on os (record c { count = c.count +ℤ pos 1; b = v }) s (mq_timedsend c.q v).1)
  unfolding hand_on
  hand_on-Enqueued c v success e = (sent c.q v e, refl)
  hand_on-Enqueued c v again e = not_sent c.q v (rw e (λ f. cc))
  hand_on-Enqueued c v failure e = not_sent c.q v (rw e (λ f. cc))

  pub enqueue_p-Enqueued : (c : QueueContainer os) (p : Option ℕ) → Enqueued c p (enqueue_p os c p)
  unfolding enqueue_p
  enqueue_p-Enqueued c none = elim (Bool-cases (eqb_ℤ c.count (pos c.num_elems))) [
    | inl full ↦ rw full refl
    | inr room ↦ rw room refl
  ]
  enqueue_p-Enqueued c (some v) = elim (Bool-cases (eqb_ℤ c.count (pos c.num_elems))) [
    | inl full ↦ rw full refl
    | inr room ↦ rw room (hand_on-Enqueued c v (mq_timedsend c.q v).0 refl)
  ]

  -- What the code relies on of `dequeue_P`: success hands over the oldest value, failure leaves the
  -- queue.
  abbrev pub Dequeued : QueueContainer os → Ret × Option ℕ × QueueContainer os → Type 0
  Dequeued c (ok, some v, c') = (held c ≡ v ∷ held c') × (c'.count ≡ c.count -ℤ pos 1)
  Dequeued c (err, none, c') = held c' ≡ held c
  Dequeued c _ = ⊥

  take_in-Dequeued :
      (c : QueueContainer os) (r : Received)
      → (mq_receive c.q).0 ≡ r
      → Dequeued c (take_in os (record c { count = c.count -ℤ pos 1 }) r (mq_receive c.q).1)
  unfolding take_in
  take_in-Dequeued c (message v) e = (received c.q v e, refl)
  take_in-Dequeued c empty e = not_received c.q (λ v. rw e (λ f. cc))
  take_in-Dequeued c broken e = not_received c.q (λ v. rw e (λ f. cc))

  pub dequeue_p-Dequeued : (c : QueueContainer os) → Dequeued c (dequeue_p os c)
  unfolding dequeue_p
  dequeue_p-Dequeued c = take_in-Dequeued c (mq_receive c.q).0 refl

  -- A client's calls in order: the values that were enqueued with success, those that were dequeued
  -- with success, and the queue after.
  sent_now : Ret → Option ℕ → List ℕ → List ℕ
  sent_now ok (some v) later = v ∷ later
  sent_now ok none later = later
  sent_now err p later = later

  got_now : Option ℕ → List ℕ → List ℕ
  got_now none later = later
  got_now (some v) later = v ∷ later

  unfoldable pub run : List Op → QueueContainer os → List ℕ × List ℕ × QueueContainer os
  unfolding sent_now got_now
  run [] c = ([], [], c)
  run (put p ∷ ops) c =
      let (r, c') = enqueue_p os c p in
      let (ins, outs, c'') = run ops c' in (sent_now r p ins, outs, c'')
  run (get ∷ ops) c =
      let (r, v, c') = dequeue_p os c in
      let (ins, outs, c'') = run ops c' in (ins, got_now v outs, c'')

  put-fifo :
      (c : QueueContainer os) (p : Option ℕ) (out : Ret × QueueContainer os) (ins : List ℕ)
      → Enqueued c p out
      → held c ++ sent_now out.0 p ins ≡ held out.1 ++ ins
  unfolding sent_now
  put-fifo c none (ok, c') ins h = absurd h
  put-fifo c (some v) (ok, c') ins h = rw h.0 (sym (append_assoc (held c) (v ∷ []) ins))
  put-fifo c p (err, c') ins h = rw h

  get-fifo :
      (c : QueueContainer os) (out : Ret × Option ℕ × QueueContainer os) (ins outs tail : List ℕ)
      → Dequeued c out
      → held out.2 ++ ins ≡ outs ++ tail
      → held c ++ ins ≡ got_now out.1 outs ++ tail
  unfolding got_now
  get-fifo c (ok, none, c') ins outs tail h e = absurd h
  get-fifo c (ok, some v, c') ins outs tail h e = rw h.0 (ap (λ l. v ∷ l) e)
  get-fifo c (err, none, c') ins outs tail h e = rw (← h) e
  get-fifo c (err, some v, c') ins outs tail h e = absurd h

  -- Whatever calls fail, the values come out in the order in which they went in: those held at the
  -- start followed by those enqueued are those dequeued followed by those held at the end.
  pub run-fifo :
      (ops : List Op) (c : QueueContainer os)
      → let (ins, outs, c') = run ops c in held c ++ ins ≡ outs ++ held c'
  unfolding run
  run-fifo [] c = append-nil (held c)
  run-fifo (put p ∷ ops) c =
      put-fifo c p (enqueue_p os c p) _ (enqueue_p-Enqueued c p) ∙ run-fifo ops (enqueue_p os c p).1
  run-fifo (get ∷ ops) c =
      get-fifo c (dequeue_p os c) _ _ _ (dequeue_p-Dequeued c) (run-fifo ops (dequeue_p os c).2)

  -- The flush ends once every message is received: with fuel for each message and the last call it
  -- returns, and if it succeeds the queue is empty.
  abbrev pub Flushed : Option (Ret × QueueContainer os) → Type 0
  Flushed none = ⊥
  Flushed (some (ok, c)) = (held c ≡ []) × (c.count ≡ pos 0)
  Flushed (some (err, c)) = c.count ≡ pos 0

  flush_loop-Flushed :
      (fuel : ℕ) (c : QueueContainer os) (r : Received)
      → length (held c) < fuel
      → c.count ≡ pos 0
      → (mq_receive c.q).0 ≡ r
      → Flushed (flush_loop os fuel c)
  unfolding flush_loop
  flush_loop-Flushed zero c r h z e = absurd (omega arith)
  flush_loop-Flushed (suc fuel) c empty h z e =
      let kept = not_received c.q (λ v. rw e (λ f. cc)) in rw (e, Flushed) (kept ∙ drained c.q e, z)
  flush_loop-Flushed (suc fuel) c broken h z e = rw (e, Flushed) z
  flush_loop-Flushed (suc fuel) c (message v) h z e =
      let c' = record c { q = (mq_receive c.q).1; b = v } in
      let shorter : length (held c') < fuel = omega (arith, ap length (received c.q v e)) in
      rw (e, Flushed) (flush_loop-Flushed fuel c' (mq_receive c'.q).0 shorter z refl)

  flush_end-Flushed :
      (restored : Bool) (r : Option (Ret × QueueContainer os))
      → Flushed r
      → Flushed (flush_end os restored r)
  unfolding flush_end
  flush_end-Flushed restored none x = absurd x
  flush_end-Flushed true (some (ok, c)) x = x
  flush_end-Flushed false (some (ok, c)) x = x.1
  flush_end-Flushed restored (some (err, c)) x = x

  flush_queue-Flushed :
      (fuel : ℕ) (s : Setup) (c : QueueContainer os)
      → length (held c) < fuel
      → c.count ≡ pos 0
      → Flushed (flush_queue os fuel s c)
  unfolding flush_queue
  flush_queue-Flushed fuel s c h z = choose s.mq_getattr_ok s.mq_setattr_ok _ (
      flush_end-Flushed s.mq_restore_ok (flush_loop os fuel c)
        (flush_loop-Flushed fuel c _ h z refl))
    where
      choose :
          (a b : Bool) (r : Option (Ret × QueueContainer os))
          → Flushed r
          → Flushed (if a then (if b then r else some (err, c)) else some (err, c))
      choose true true r x = x
      choose true false r x = z
      choose false b r x = z

  -- At startup `init_queue` and then `flush_queue`, with fuel for each message that an earlier run
  -- left and for the last call, return; and if both succeed the queue is empty and the counter zero.
  pub init_queue-flush_queue :
      (fuel : ℕ) (s : Setup) (opened : Mq) (c c' : QueueContainer os)
      → init_queue os s opened c ≡ (ok, c')
      → length (contents opened) < fuel
      → Flushed (flush_queue os fuel s c')
  unfolding init_queue
  init_queue-flush_queue fuel s opened c c' e h =
      flush_queue-Flushed fuel s c' (subst (λ q. length (contents q) < fuel) (sym opens.0) h)
        opens.1
    where
      opens : (c'.q ≡ opened) × (c'.count ≡ pos 0)
      opens = ground (arith, e)

  -- The same of a failed send, with the counter.
  hand_on-IsCounted :
      (c : QueueContainer os) (v : ℕ) (s : Status)
      → (mq_timedsend c.q v).0 ≡ s
      → IsCounted c
      → let (r, c') =
          hand_on os (record c { count = c.count +ℤ pos 1; b = v }) s (mq_timedsend c.q v).1 in
        (r ≡ ok → IsCounted c')
        × (r ≡ err → (held c' ≡ held c) × (c'.count ≡ pos (length (held c) + 1)))
  unfolding hand_on
  hand_on-IsCounted c v success e h = (
    λ _.
        rw (h, +ℤ-pos)
          (ap pos (omega (arith, ap length (sent c.q v e), length-append (held c) (v ∷ [])))),
    λ f. cc,
  )
  hand_on-IsCounted c v again e h =
      (λ f. cc, λ _. (not_sent c.q v (rw e (λ f. cc)), rw (h, +ℤ-pos)))
  hand_on-IsCounted c v failure e h =
      (λ f. cc, λ _. (not_sent c.q v (rw e (λ f. cc)), rw (h, +ℤ-pos)))

  -- While the counter equals the number of messages held and shows room, a send that succeeds keeps
  -- it equal, and one that fails leaves the messages as they were and the counter one too high.
  pub enqueue_p-IsCounted :
      (c : QueueContainer os) (v : ℕ)
      → IsCounted c
      → eqb_ℤ c.count (pos c.num_elems) ≡ false
      → let (r, c') = enqueue_p os c (some v) in
        (r ≡ ok → IsCounted c')
        × (r ≡ err → (held c' ≡ held c) × (c'.count ≡ pos (length (held c) + 1)))
  unfolding enqueue_p
  enqueue_p-IsCounted c v h room = rw room (hand_on-IsCounted c v (mq_timedsend c.q v).0 refl h)
