-- ===== src/Queue/Race.antt =====
-- One queue_container_t is used by two threads: the receive buffer `b` is shared by the producer's
-- memcpy before its send and the consumer's memcpy after its receive, with no lock.
use synchronome.Base.{ℕ, ◌≡◌, refl, List, [], ◌∷◌, ◌++◌}

pub data Producer : Type 0 where
  resting : Producer
  called : ℕ → Producer
  filled : Producer

pub data Consumer : Type 0 where
  waiting woken : Consumer

pub record Shared : Type 0 where
  pub b : ℕ
  pub kernel : List ℕ
  pub producer : Producer
  pub consumer : Consumer
  pub delivered : List ℕ

-- `enqueue_P` is a call, a memcpy into `b` and a send of `b`; `dequeue_P` a receive into `b` and a
-- memcpy out of `b`. The kernel's calls are atomic, the functions are not.
pub data Step : Shared → Shared → Type 0 where
  call : (s : Shared) (v : ℕ) → s.producer ≡ resting → Step s (record s { producer = called v })
  fill :
      (s : Shared) (v : ℕ) → s.producer ≡ called v → Step s (record s { b = v; producer = filled })
  send :
      (s : Shared)
      → s.producer ≡ filled
      → Step s (record s { kernel = s.kernel ++ (s.b ∷ []); producer = resting })
  receive :
      (s : Shared) (v : ℕ) (rest : List ℕ)
      → s.consumer ≡ waiting
      → s.kernel ≡ v ∷ rest
      → Step s (record s { b = v; kernel = rest; consumer = woken })
  copy :
      (s : Shared)
      → s.consumer ≡ woken
      → Step s (record s { delivered = s.delivered ++ (s.b ∷ []); consumer = waiting })

pub data Reach (s : Shared) : Shared → Type 0 where
  here : Reach s s
  next : {t u : Shared} → Reach s t → Step t u → Reach s u

-- Whenever the consumer waits, the producer rests and the queue holds an index `v` first, the two
-- threads can interleave so that the consumer is handed the producer's new index `w` in place of
-- `v`: `v` is lost, and `w` stays in the queue to be handed over once more.
pub misdelivery :
    (s : Shared) (v w : ℕ) (rest : List ℕ)
    → s.producer ≡ resting
    → s.consumer ≡ waiting
    → s.kernel ≡ v ∷ rest
    → Reach s (record s {
      b = w;
      kernel = rest ++ (w ∷ []);
      producer = resting;
      consumer = waiting;
      delivered = s.delivered ++ (w ∷ []);
    })
misdelivery s v w rest p c k =
    next
      (next (next (next (next here (receive s v rest c k)) (call _ w p)) (fill _ w refl))
        (copy _ refl))
      (send _ refl)
