-- ===== src/Realtime.antt =====
-- simple-capture/realtime.c: how the main thread and the threads it creates are scheduled. What the
-- system replies is a parameter, and so is what pthread_create(3) makes of the attributes.

mod Tests
pub mod Linux
pub mod Created
use synchronome.Base.{
  ℕ, ◌+◌, ◌-◌, ◌/◌, ◌≤◌, ◌≡◌, suc, Bool, true, false, if◌then◌else◌, Option, none, some,
}
use synchronome.Base.Int.{ℤ, pos, negsuc, ◌+ℤ◌, ◌-ℤ◌, ◌*ℤ◌}
use synchronome.Timetools.{Timespec, ns_per_sec, timespec_subtract}
use synchronome.Buffer.{Ret, ok, err}

pub data Policy : Type 0 where
  sched_other sched_fifo : Policy

pub data InheritSched : Type 0 where
  pthread_inherit_sched pthread_explicit_sched : InheritSched

-- What `pthread_attr_t` holds; `none` is no affinity of its own.
pub record Attr : Type 0 where
  pub inheritsched : InheritSched
  pub schedpolicy : Policy
  pub sched_priority : ℕ
  pub affinity : Option ℕ

-- How a running thread is scheduled.
pub record Sched : Type 0 where
  pub policy : Policy
  pub priority : ℕ
  pub cpu : Option ℕ

-- pthread_attr_init(3) and pthread_create(3) as documented: attributes inherit at first, and then the
-- policy and the priority are those of the creating thread. SCHED_FIFO has at least 32 priorities.
pub record Pthreads : Type 0 where
  pub attr_default : Attr
  pub created : Attr → Sched → Sched
  pub rt_max_prio : ℕ
  pub default_inherits : attr_default.inheritsched ≡ pthread_inherit_sched
  pub inherited :
      (a : Attr) (s : Sched)
      → a.inheritsched ≡ pthread_inherit_sched
      → ((created a s).policy ≡ s.policy) × ((created a s).priority ≡ s.priority)
  pub explicit :
      (a : Attr) (s : Sched)
      → a.inheritsched ≡ pthread_explicit_sched
      → ((created a s).policy ≡ a.schedpolicy) × ((created a s).priority ≡ a.sched_priority)
  pub placed : (a : Attr) (s : Sched) (n : ℕ) → a.affinity ≡ some n → (created a s).cpu ≡ some n
  pub levels : 32 ≤ rt_max_prio

-- SYNCHONOME_CPU, PROCESSING_CPU and WRITEOUT_CPU
abbrev pub synchronome_cpu : ℕ
synchronome_cpu = 1

abbrev pub processing_cpu : ℕ
processing_cpu = 2

abbrev pub writeout_cpu : ℕ
writeout_cpu = 3

module _ (pt : Pthreads) where
  abbrev pub highest_pri : ℕ
  highest_pri = pt.rt_max_prio - 1

  abbrev pub high_pri : ℕ
  high_pri = pt.rt_max_prio - 2

  pub record MainReplies : Type 0 where
    pub setaffinity_ok : Bool
    pub getparam_ok : Bool
    pub setscheduler_ok : Bool

  pub set_main_realtime : MainReplies → Sched → Ret × Sched
  set_main_realtime r s =
      let on_cpu = record s { cpu = some synchronome_cpu } in
      let realtime = record on_cpu { policy = sched_fifo; priority = highest_pri } in
      if r.setaffinity_ok
      then (if r.getparam_ok
          then (if r.setscheduler_ok then (ok, realtime) else (err, on_cpu))
          else (err, on_cpu))
      else (err, s)

  -- Whether each call on the attributes returns 0.
  pub record AttrReplies : Type 0 where
    pub init_ok : Bool
    pub inheritsched_ok : Bool
    pub schedpolicy_ok : Bool
    pub affinity_ok : Bool

  pub schedule_realtime : AttrReplies → Attr → Ret × Attr
  schedule_realtime r attr =
      let a1 = pt.attr_default in
      let a2 = record a1 { inheritsched = pthread_explicit_sched } in
      let a3 = record a2 { schedpolicy = sched_fifo } in
      let a4 = record a3 { affinity = some synchronome_cpu } in
      if r.init_ok
      then (if r.inheritsched_ok
          then (if r.schedpolicy_ok
              then (if r.affinity_ok then (ok, a4) else (err, a3))
              else (err, a2))
          else (err, a1))
      else (err, attr)

  pub schedule_best_effort : AttrReplies → ℕ → Attr → Ret × Attr
  schedule_best_effort r cpu attr =
      let a1 = pt.attr_default in
      let a2 = record a1 { schedpolicy = sched_other } in
      let a3 = record a2 { affinity = some cpu } in
      if r.init_ok
      then (if r.schedpolicy_ok then (if r.affinity_ok then (ok, a3) else (err, a2)) else (err, a1))
      else (err, attr)

  pub schedule_priority : Bool → ℕ → Attr → Ret × Attr
  schedule_priority setparam_ok pri attr =
      if setparam_ok then (ok, record attr { sched_priority = pri }) else (err, attr)

-- C's division by a positive number, towards zero.
pub quotient : ℤ → ℕ → ℤ
quotient (pos n) d = pos (n / d)
quotient (negsuc n) d = pos 0 -ℤ pos (suc n / d)

abbrev pub latency_count : ℕ
latency_count = 100_000

-- The nanoseconds of one clock_gettime(2), from the times before and after 100,000 of them. A
-- negative difference is only reported.
pub test_clock_gettime_latency : Timespec → Timespec → ℤ
unfolding quotient
test_clock_gettime_latency start finish =
    let (diff, _, _) = timespec_subtract finish start in
    quotient (diff.tv_sec *ℤ pos ns_per_sec +ℤ diff.tv_nsec) latency_count
