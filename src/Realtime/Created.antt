-- ===== src/Realtime/Created.antt =====
-- How the threads that the sequencer creates are scheduled.
use synchronome.Base.{ℕ, ◌<◌, ◌≡◌, ◌∙◌, Bool, some, arith}
use synchronome.Buffer.{ok}
use synchronome.Realtime.{
  sched_fifo, pthread_inherit_sched, pthread_explicit_sched, Attr, Sched, Pthreads, synchronome_cpu,
  highest_pri, high_pri, MainReplies, set_main_realtime, AttrReplies, schedule_realtime,
  schedule_best_effort, schedule_priority,
}

module _ (pt : Pthreads) where
  set_main_realtime-Fifo :
      (r : MainReplies pt) (s main : Sched)
      → set_main_realtime pt r s ≡ (ok, main)
      → (main.policy ≡ sched_fifo) × (main.priority ≡ highest_pri pt)
  unfolding set_main_realtime
  set_main_realtime-Fifo r s main e = ground (arith, e)

  schedule_realtime-Explicit :
      (r : AttrReplies pt) (attr a : Attr)
      → schedule_realtime pt r attr ≡ (ok, a)
      → (a.inheritsched ≡ pthread_explicit_sched)
        × (a.schedpolicy ≡ sched_fifo)
        × (a.affinity ≡ some synchronome_cpu)
  unfolding schedule_realtime
  schedule_realtime-Explicit r attr a e = ground (arith, e)

  schedule_best_effort-Inherits :
      (r : AttrReplies pt) (cpu : ℕ) (attr a : Attr)
      → schedule_best_effort pt r cpu attr ≡ (ok, a)
      → (a.inheritsched ≡ pthread_inherit_sched) × (a.affinity ≡ some cpu)
  unfolding schedule_best_effort
  schedule_best_effort-Inherits r cpu attr a e = ground (arith, e, pt.default_inherits)

  prioritised :
      (b : Bool) (pri : ℕ) (a a' : Attr)
      → schedule_priority pt b pri a ≡ (ok, a')
      → (a'.inheritsched ≡ a.inheritsched)
        × (a'.schedpolicy ≡ a.schedpolicy)
        × (a'.affinity ≡ a.affinity)
        × (a'.sched_priority ≡ pri)
  unfolding schedule_priority
  prioritised b pri a a' e = ground (arith, e)

  -- The frame thread and a best effort thread on processor `cpu`.
  pub record Created (cpu : ℕ) (frame other : Sched) : Type 0 where
    pub frame_policy : frame.policy ≡ sched_fifo
    pub frame_priority : frame.priority ≡ high_pri pt
    pub frame_cpu : frame.cpu ≡ some synchronome_cpu
    pub other_policy : other.policy ≡ sched_fifo
    pub other_priority : other.priority ≡ highest_pri pt
    pub other_cpu : other.cpu ≡ some cpu
    pub overtakes : frame.priority < other.priority

  -- When `set_main_realtime` and the calls on the attributes succeed, the frame thread runs with
  -- SCHED_FIFO at HIGH_PRI on its processor. A thread created with the attributes of
  -- `schedule_best_effort` runs on the processor asked for, but inherits SCHED_FIFO and HIGHEST_PRI
  -- from the main thread, and so is above the frame thread.
  pub schedule-Created :
      (m : MainReplies pt) (r r' : AttrReplies pt) (b : Bool) (cpu : ℕ) (s main : Sched)
      (attr attr' a a' be : Attr)
      → set_main_realtime pt m s ≡ (ok, main)
      → schedule_realtime pt r attr ≡ (ok, a)
      → schedule_priority pt b (high_pri pt) a ≡ (ok, a')
      → schedule_best_effort pt r' cpu attr' ≡ (ok, be)
      → Created cpu (pt.created a' main) (pt.created be main)
  schedule-Created m r r' b cpu s main attr attr' a a' be em ea ep eb =
      let (policy, priority) = set_main_realtime-Fifo m s main em in
      let (ex, fifo, on) = schedule_realtime-Explicit r attr a ea in
      let (ei, ef, eo, pri) = prioritised b (high_pri pt) a a' ep in
      let (inh, placed) = schedule_best_effort-Inherits r' cpu attr' be eb in
      let (fp, fq) = pt.explicit a' main (ei ∙ ex) in
      let (op, oq) = pt.inherited be main inh in
      record {
        frame_policy = fp ∙ ef ∙ fifo;
        frame_priority = fq ∙ pri;
        frame_cpu = pt.placed a' main synchronome_cpu (eo ∙ on);
        other_policy = op ∙ policy;
        other_priority = oq ∙ priority;
        other_cpu = pt.placed be main cpu placed;
        overtakes = omega (arith, fq, pri, oq, priority, pt.levels);
      }
