-- ===== src/Pipeline/Frame.antt =====
-- simple-capture/frame.c: the thread that moves camera frames to the scan buffers, as the sequencer
-- builds it (no CAPTURE_STANDALONE, no PROFILE_FRAMES), with the camera's queue calls of
-- camera_buffer.c.
pub mod Scan
pub mod Step
pub mod Effects
mod Tests
use synchronome.Base.{
  ℕ, suc, ◌+◌, Bool, true, false, not, ◌==◌, if◌then◌else◌, List, Option, none, some, get_elem?,
  set,
}
use synchronome.Base.Int.{ℤ, pos, negsuc, ◌+ℤ◌, ◌-ℤ◌, eqb_ℤ}
use synchronome.Timetools.{Timespec}
use synchronome.Memlog.{Memlog, memlog_log}
use synchronome.Memlog.Event
use synchronome.Buffer.{Buffer, scan_buf_size, copy_buffer, buffer_set_timestamp}
use synchronome.Queue.{Mqueue, QueueContainer, enqueue_p}
use synchronome.Queue
use synchronome.Pipeline.Outcome.{Outcome, next, leave, fault, checked, require, ◌>>=◌, ◌>>◌}

-- What sem_wait(3) returns: success, or an error with or without EINTR.
pub data Wait : Type 0 where
  posted interrupted failed : Wait

-- What the kernel does in one round of the loop. `dqbuf` is the index that VIDIOC_DQBUF returns.
pub record Round : Type 0 where
  pub sem_wait : Wait
  pub dqbuf : Option ℕ
  pub qbuf_ok : Bool
  pub done_time : Timespec
  pub run_time : Timespec
  pub timestamp : Timespec
  pub start_time : Timespec

module _ (os : Mqueue) where
  pub record FrameState : Type 0 where
    pub running : Bool
    pub frame_id : ℤ
    pub total_frames_queued : ℤ
    pub camera_enqueue_count : ℤ
    pub frame_buffers : List Buffer
    pub scan_buffer : List Buffer
    pub scan_buffer_index : ℕ
    pub frame_q : QueueContainer os
    pub frame_log : Memlog

  abbrev Result : Type 0
  Result = Outcome FrameState FrameState

  -- `error_exit(x)`: it clears `running` and returns.
  error_exit : ℤ → FrameState → Result
  error_exit code s = leave code (record s { running = false })

  pub log : ℕ → Timespec → FrameState → Result
  log event now s = do
    l ← checked (memlog_log event now s.frame_log)
    next (record s { frame_log = l })

  -- `camera_enqueue_buf`: it counts the buffer whatever the ioctl returns.
  camera_enqueue_buf : FrameState → FrameState
  camera_enqueue_buf s = record s { camera_enqueue_count = s.camera_enqueue_count +ℤ pos 1 }

  -- `camera_dequeue_buf`: it refuses when no buffer is out, else it counts one back whatever the
  -- ioctl returns. The result is the index; `none` is -1.
  camera_dequeue_buf : Option ℕ → FrameState → Option ℕ × FrameState
  camera_dequeue_buf reply s =
      if eqb_ℤ s.camera_enqueue_count (pos 0)
      then (none, s)
      else (reply, record s { camera_enqueue_count = s.camera_enqueue_count -ℤ pos 1 })

  -- The copy of frame `i` into the scan buffer, with its time and id.
  pub scan : ℕ → Timespec → FrameState → Result
  scan i timestamp s = do
    src ← checked (get_elem? s.frame_buffers i)
    dst ← checked (get_elem? s.scan_buffer s.scan_buffer_index)
    copied ← checked (copy_buffer dst src)
    let b = record (buffer_set_timestamp copied timestamp) { id = s.frame_id }
    next (record s {
      scan_buffer = set s.scan_buffer s.scan_buffer_index b;
      frame_id = s.frame_id +ℤ pos 1;
    })

  -- What follows the send: the index moves on round the ring.
  unfoldable pub passed : Queue.Ret × QueueContainer os → FrameState → Result
  unfolding error_exit
  passed (Queue.ok, q) s =
      let index' = s.scan_buffer_index + 1 in
      next (record s {
        frame_q = q;
        scan_buffer_index = if index' == scan_buf_size then 0 else index';
      })
  passed (Queue.err, q) s = error_exit (negsuc 0) (record s { frame_q = q })

  -- The index of the scan buffer goes to the processing thread.
  unfoldable pub pass_on : FrameState → Result
  unfolding passed
  pass_on s = passed (enqueue_p os s.frame_q (some s.scan_buffer_index)) s

  -- VIDIOC_QBUF and the count of frames.
  pub requeue : Bool → FrameState → Result
  unfolding error_exit camera_enqueue_buf
  requeue qbuf_ok s =
      let s' = camera_enqueue_buf s in
      if qbuf_ok
      then next (record s' { total_frames_queued = s'.total_frames_queued +ℤ pos 1 })
      else error_exit (negsuc 0) s'

  waited : Wait → FrameState → Result
  unfolding error_exit
  waited posted s = next s
  waited interrupted s = error_exit (negsuc 1) s
  waited failed s = error_exit (negsuc 0) s

  grabbed : Option ℕ × FrameState → Outcome (ℕ × FrameState) FrameState
  grabbed (none, s) = leave (negsuc 0) (record s { running = false })
  grabbed (some i, s) = next (i, s)

  -- A round up to the copy: the wait, the dequeue and the logs.
  unfoldable pub opening : Round → FrameState → Outcome (ℕ × FrameState) FrameState
  unfolding log camera_dequeue_buf waited grabbed
  opening r s = do
    s1 ← log Event.s1_done r.done_time s
    s2 ← log Event.s1_run r.run_time s1
    s3 ← waited r.sem_wait s2
    (i, s4) ← grabbed (camera_dequeue_buf r.dqbuf s3)
    s5 ← log Event.wcet_start r.start_time s4
    next (i, s5)

  -- The body of `while(running)`. The do-while around the dequeue ends after one call, since -1 is
  -- not EAGAIN.
  pub loop_body : Round → FrameState → Result
  unfolding log camera_dequeue_buf scan pass_on requeue waited grabbed
  loop_body r s = do
    s1 ← log Event.s1_done r.done_time s
    s2 ← log Event.s1_run r.run_time s1
    s3 ← waited r.sem_wait s2
    (i, s4) ← grabbed (camera_dequeue_buf r.dqbuf s3)
    s5 ← log Event.wcet_start r.start_time s4
    s6 ← scan i r.timestamp s5
    s7 ← pass_on s6
    requeue r.qbuf_ok s7

  -- When the loop ends the thread dumps its log and returns 0.
  pub frame_round : Round → FrameState → Result
  unfolding loop_body
  frame_round r s = if s.running then loop_body r s else leave (pos 0) s
