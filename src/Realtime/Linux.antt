-- ===== src/Realtime/Linux.antt =====
-- A system with 99 real-time priorities, whose threads are scheduled as documented: it meets the laws
-- of `Pthreads`, and the tests run on it.
use synchronome.Base.{ℕ, ◌≡◌, refl, Option, none, some, arith}
use synchronome.Realtime.{
  InheritSched, pthread_inherit_sched, pthread_explicit_sched, sched_other, Attr, Sched, Pthreads,
}

abbrev pub default : Attr
default = record {
  inheritsched = pthread_inherit_sched;
  schedpolicy = sched_other;
  sched_priority = 0;
  affinity = none;
}

abbrev pub on_cpu : Option ℕ → Option ℕ → Option ℕ
on_cpu none creators = creators
on_cpu (some n) creators = some n

abbrev pub scheduled : InheritSched → Attr → Sched → Sched
scheduled pthread_inherit_sched a s = record s { cpu = on_cpu a.affinity s.cpu }
scheduled pthread_explicit_sched a s = record {
  policy = a.schedpolicy;
  priority = a.sched_priority;
  cpu = on_cpu a.affinity s.cpu;
}

pub scheduled-inherited :
    (i : InheritSched) (a : Attr) (s : Sched)
    → i ≡ pthread_inherit_sched
    → ((scheduled i a s).policy ≡ s.policy) × ((scheduled i a s).priority ≡ s.priority)
scheduled-inherited pthread_inherit_sched a s e = (refl, refl)
scheduled-inherited pthread_explicit_sched a s e = cc

pub scheduled-explicit :
    (i : InheritSched) (a : Attr) (s : Sched)
    → i ≡ pthread_explicit_sched
    → ((scheduled i a s).policy ≡ a.schedpolicy) × ((scheduled i a s).priority ≡ a.sched_priority)
scheduled-explicit pthread_inherit_sched a s e = cc
scheduled-explicit pthread_explicit_sched a s e = (refl, refl)

pub scheduled-placed :
    (i : InheritSched) (a : Attr) (s : Sched) (n : ℕ)
    → a.affinity ≡ some n
    → (scheduled i a s).cpu ≡ some n
scheduled-placed pthread_inherit_sched a s n e = rw e refl
scheduled-placed pthread_explicit_sched a s n e = rw e refl

abbrev pub linux : Pthreads
linux = record {
  attr_default = default;
  created = λ a s. scheduled a.inheritsched a s;
  rt_max_prio = 99;
  default_inherits = refl;
  inherited = λ a s e. scheduled-inherited a.inheritsched a s e;
  explicit = λ a s e. scheduled-explicit a.inheritsched a s e;
  placed = λ a s n e. scheduled-placed a.inheritsched a s n e;
  levels = omega arith;
}
