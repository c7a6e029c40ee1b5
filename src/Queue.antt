-- ===== src/Queue.antt =====
-- simple-capture/queue.c and queue.h: POSIX message queues that carry a buffer index.
-- The kernel's queue is a parameter, `Mqueue`. Its laws say what mq_timedsend(3) and mq_receive(3)
-- document for messages of one priority.
mod Tests
pub mod Kernel
pub mod Fifo
pub mod Race
use synchronome.Base.{
  ℕ, zero, suc, ◌+◌, ◌≡◌, ◌≢◌, Bool, true, false, if◌then◌else◌, List, [], ◌∷◌, ◌++◌, Option, none,
  some, length,
}
use synchronome.Base.Int.{ℤ, pos, ◌+ℤ◌, ◌-ℤ◌, eqb_ℤ}

-- What a call of the kernel reports: success, EAGAIN, or another error.
pub data Status : Type 0 where
  success again failure : Status

pub data Received : Type 0 where
  message : ℕ → Received
  empty : Received
  broken : Received

-- A send while there is room and a receive while there is a message may still fail, and then change
-- nothing.
pub record Mqueue : Type 1 where
  pub Mq : Type 0
  pub contents : Mq → List ℕ
  pub mq_timedsend : Mq → ℕ → Status × Mq
  pub mq_receive : Mq → Received × Mq
  pub sent :
      (q : Mq) (v : ℕ)
      → (mq_timedsend q v).0 ≡ success
      → contents (mq_timedsend q v).1 ≡ contents q ++ (v ∷ [])
  pub not_sent :
      (q : Mq) (v : ℕ) → (mq_timedsend q v).0 ≢ success → contents (mq_timedsend q v).1 ≡ contents q
  pub received :
      (q : Mq) (v : ℕ) → (mq_receive q).0 ≡ message v → contents q ≡ v ∷ contents (mq_receive q).1
  pub not_received :
      (q : Mq) → ((v : ℕ) → (mq_receive q).0 ≢ message v) → contents (mq_receive q).1 ≡ contents q
  pub drained : (q : Mq) → (mq_receive q).0 ≡ empty → contents q ≡ []

-- 0 and -1
pub data Ret : Type 0 where
  ok err : Ret

-- The results of the calls that only set a queue up or change its mode.
pub record Setup : Type 0 where
  pub mq_open_ok : Bool
  pub malloc_ok : Bool
  pub mq_getattr_ok : Bool
  pub mq_setattr_ok : Bool
  pub mq_restore_ok : Bool

module _ (os : Mqueue) where
  open os use {Mq, mq_timedsend, mq_receive}

  -- `queue_container_t`. The name and the payload size (that of an int) are fixed.
  pub record QueueContainer : Type 0 where
    pub q : Mq
    pub num_elems : ℕ
    pub b : ℕ
    pub count : ℤ

  -- `opened` is the queue that mq_open returns: one that an earlier run left keeps its messages.
  unfoldable pub init_queue : Setup → Mq → QueueContainer → Ret × QueueContainer
  init_queue s opened c =
      let c' = record c { count = pos 0 } in
      if s.mq_open_ok
      then (let c'' = record c' { q = opened } in if s.malloc_ok then (ok, c'') else (err, c''))
      else (err, c')

  -- The loop of `flush_queue`; `none` means that the fuel ran out.
  pub flush_loop : ℕ → QueueContainer → Option (Ret × QueueContainer)
  flush_loop zero c = none
  flush_loop (suc fuel) c =
      let (r, mq) = mq_receive c.q in
      elim r [
        | empty ↦ some (ok, record c { q = mq })
        | broken ↦ some (err, record c { q = mq })
        | message v ↦ flush_loop fuel (record c { q = mq; b = v })
      ]

  -- The loop, then `mq_setattr` with the old attributes.
  flush_end : Bool → Option (Ret × QueueContainer) → Option (Ret × QueueContainer)
  flush_end restored none = none
  flush_end restored (some (err, c)) = some (err, c)
  flush_end restored (some (ok, c)) = some ((if restored then ok else err), c)

  pub flush_queue : ℕ → Setup → QueueContainer → Option (Ret × QueueContainer)
  unfolding flush_end
  flush_queue fuel s c =
      let flushed = flush_end s.mq_restore_ok (flush_loop fuel c) in
      if s.mq_getattr_ok
      then (if s.mq_setattr_ok then flushed else some (err, c))
      else some (err, c)

  -- What follows the send. EAGAIN and any other error both return -1.
  unfoldable pub hand_on : QueueContainer → Status → Mq → Ret × QueueContainer
  hand_on c success mq = (ok, record c { q = mq })
  hand_on c again mq = (err, record c { q = mq })
  hand_on c failure mq = (err, record c { q = mq })

  -- `p` is NULL for `none`.
  unfoldable pub enqueue_p : QueueContainer → Option ℕ → Ret × QueueContainer
  unfolding hand_on
  enqueue_p c p =
      if eqb_ℤ c.count (pos c.num_elems)
      then (err, c)
      else (let c' = record c { count = c.count +ℤ pos 1 } in
          elim p [
            | none ↦ (err, c')
            | some v ↦ let (s, mq) = mq_timedsend c.q v in hand_on (record c' { b = v }) s mq
          ])

  -- What follows the receive: `memcpy` from the receive buffer on success.
  take_in : QueueContainer → Received → Mq → Ret × Option ℕ × QueueContainer
  take_in c (message v) mq = (ok, some v, record c { q = mq; b = v })
  take_in c empty mq = (err, none, record c { q = mq })
  take_in c broken mq = (err, none, record c { q = mq })

  -- The index that `memcpy` stores through `p`, if any.
  unfoldable pub dequeue_p : QueueContainer → Ret × Option ℕ × QueueContainer
  unfolding take_in
  dequeue_p c = let (r, mq) = mq_receive c.q in take_in (record c { count = c.count -ℤ pos 1 }) r mq
