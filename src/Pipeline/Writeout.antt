-- ===== src/Pipeline/Writeout.antt =====
-- simple-capture/writeout.c: the thread that writes the selected frames to files.
mod Tests
pub mod Count
pub mod Sound
use synchronome.Base.{
  ℕ, suc, ◌+◌, Bool, true, false, ◌==◌, if◌then◌else◌, List, Option, none, some, get_elem?,
}
use synchronome.Base.Int.{ℤ, pos, negsuc}
use synchronome.Timetools.{Timespec}
use synchronome.Memlog.{Memlog, memlog_log}
use synchronome.Memlog.Event
use synchronome.Buffer.{Buffer}
use synchronome.Dumptools.{Disk}
use synchronome.Transformation.{do_transformations}
use synchronome.Queue.{Mqueue, QueueContainer, dequeue_p}
use synchronome.Queue
use synchronome.Pipeline.Outcome.{Outcome, next, leave, fault, checked, ◌>>=◌}

-- WRITEOUT_TOTAL_FRAMES of setup.h
abbrev pub writeout_total_frames : ℕ
writeout_total_frames = 1801

module _ (os : Mqueue) where
  pub record WriteState : Type 0 where
    pub running : Bool
    pub total_frames_written : ℕ
    pub wo_buffers : List Buffer
    pub writeout_q : QueueContainer os
    pub wo_buffer : Buffer
    pub disk : Disk
    pub writeout_log : Memlog

  abbrev Result : Type 0
  Result = Outcome WriteState WriteState

  log : ℕ → Timespec → WriteState → Result
  log event now s = do
    l ← checked (memlog_log event now s.writeout_log)
    next (record s { writeout_log = l })

  received :
      Queue.Ret × Option ℕ × QueueContainer os → WriteState → Outcome (ℕ × WriteState) WriteState
  received (Queue.ok, some i, q) s = next (i, record s { writeout_q = q })
  received (_, _, q) s = leave (negsuc 0) (record s { writeout_q = q; running = false })

  -- The transformation and the count; the last frame stops the system.
  write : Bool → ℕ → WriteState → Result
  write opened i s = do
    b ← checked (get_elem? s.wo_buffers i)
    (out, d) ← checked (do_transformations opened b s.wo_buffer s.disk)
    let total = s.total_frames_written + 1
    let s' = record s { wo_buffer = out; disk = d; total_frames_written = total }
    if total == writeout_total_frames
        then leave (pos 0) (record s' { running = false })
        else next s'

  loop_body : Timespec → Timespec → Bool → WriteState → Result
  unfolding log received write
  loop_body done_time run_time opened s = do
    s1 ← log Event.s3_done done_time s
    (i, s2) ← received (dequeue_p os s1.writeout_q) s1
    s3 ← log Event.s3_run run_time s2
    write opened i s3

  -- One round of `while(running)`: the times of its two log entries and whether its file opens.
  pub writeout_round : Timespec → Timespec → Bool → WriteState → Result
  unfolding loop_body
  writeout_round done_time run_time opened s =
      if s.running then loop_body done_time run_time opened s else leave (pos 0) s
