-- ===== src/Pipeline/TenHz.antt =====
-- simple-capture/processing.c as MODE_10Hz builds it: the thread that selects frames of a stopwatch at
-- 10 Hz, two of every five.
pub mod Picks
pub mod Run
mod Tests
use synchronome.Base.{
  ℕ, suc, ◌+◌, Bool, true, false, not, ltb, ◌==◌, ◌&&◌, if◌then◌else◌, List, Option, none, some,
  get_elem?, set,
}
use synchronome.Base.Int.{ℤ, pos, negsuc, eqb_ℤ, ltb_ℤ}
use synchronome.Timetools.{Timespec, timespec_subtract}
use synchronome.Memlog.{Memlog, memlog_log}
use synchronome.Memlog.Event
use synchronome.Buffer.{
  Buffer, num_wo_buf, copy_buffer, copy_buffer_timestamp, buffer_get_timestamp,
}
use synchronome.Queue
use synchronome.Queue.{Mqueue, QueueContainer, enqueue_p, dequeue_p}
use synchronome.Pipeline.Outcome.{Outcome, next, leave, fault, checked, require, ◌>>=◌, ◌>>◌}
use synchronome.Pipeline.Processing.{Turn, again, broken, buffer_changes}

-- The jitter check: 130 ms.
abbrev sync_limit : ℕ
sync_limit = 130_000_000

-- What the comparison with the last synchronising frame finds: no time within the second, or a time
-- within or beyond the limit.
pub data Sync : Type 0 where
  no_sync within beyond : Sync

sync_of : Timespec → Timespec → Sync
sync_of current_stamp last_stamp =
    let (time_diff, negative, _) = timespec_subtract current_stamp last_stamp in
    if not negative && eqb_ℤ time_diff.tv_sec (pos 0)
    then (if ltb_ℤ time_diff.tv_nsec (pos sync_limit) then within else beyond)
    else no_sync

-- The ANDROID_PHONE strategy: a frame without a change after one with a change is a tick. The result
-- is whether it ticked, and `zero_pixels`.
phone_tick : ℕ → ℕ → Bool × ℕ
phone_tick changed_pixels zero_pixels =
    let zero_pixels' = if ltb 0 changed_pixels then 1 else zero_pixels in
    if (zero_pixels' == 1) && (changed_pixels == 0) then (true, 0) else (false, zero_pixels')

-- The ticks of the synchronised thread: the second or the third frame, in turns.
pub counted_tick : Bool → ℕ → Bool
counted_tick is_even n = if is_even then n == 2 else n == 3

module _ (os : Mqueue) where
  pub record TenState : Type 0 where
    pub in_loop : Bool
    pub running : Bool
    pub wo_buffer_index : ℕ
    pub last_buffer_index : Option ℕ
    pub last_sync_frame : Option ℕ
    pub num_frames_till_selection : ℕ
    pub is_even : Bool
    pub changed_pixels : ℕ
    pub zero_pixels : ℕ
    pub is_startup : Bool
    pub startup_count : ℕ
    pub scan_buffer : List Buffer
    pub wo_buffers : List Buffer
    pub frame_q : QueueContainer os
    pub writeout_q : QueueContainer os
    pub total_frames_selected : ℕ
    pub processing_log : Memlog

  abbrev Result : Type 0
  Result = Outcome (Turn × TenState) TenState

  -- A tick at startup with a synchronising frame before it: the fifth in a row ends the startup and
  -- goes round the loop again.
  synced : Sync → ℕ → TenState → Turn × TenState
  synced no_sync current s =
      (broken, record s { last_sync_frame = some current; last_buffer_index = some current })
  synced beyond current s = (
    broken,
    record s {
      startup_count = 0;
      last_sync_frame = some current;
      last_buffer_index = some current;
    },
  )
  synced within current s =
      let count = s.startup_count + 1 in
      if count == 5
      then (
        again,
        record s { startup_count = count; is_startup = false; last_buffer_index = some current },
      )
      else (
        broken,
        record s {
          startup_count = count;
          last_sync_frame = some current;
          last_buffer_index = some current;
        },
      )

  synchronise : Option ℕ → ℕ → TenState → Result
  unfolding synced sync_of
  synchronise none current s =
      next (broken, record s { last_sync_frame = some current; last_buffer_index = some current })
  synchronise (some sync) current s = do
    now ← checked (get_elem? s.scan_buffer current)
    earlier ← checked (get_elem? s.scan_buffer sync)
    next (synced (sync_of (buffer_get_timestamp now) (buffer_get_timestamp earlier)) current s)

  -- A round at startup.
  startup : ℕ → ℕ → TenState → Result
  unfolding phone_tick synchronise
  startup last current s = do
    first ← checked (get_elem? s.scan_buffer last)
    second ← checked (get_elem? s.scan_buffer current)
    changed ← checked (buffer_changes first second)
    wo ← checked (get_elem? s.wo_buffers s.wo_buffer_index)
    require (second.size == wo.size)
    let (tick, zero_pixels') = phone_tick changed s.zero_pixels
    let s' = record s { changed_pixels = changed; zero_pixels = zero_pixels' }
    if tick
        then synchronise s'.last_sync_frame current s'
        else next (broken, record s' { last_buffer_index = some current })

  -- What follows the send: a write-out queue that is full ends the thread.
  sent : Queue.Ret × QueueContainer os → ℕ → TenState → Result
  sent (Queue.err, q) current s = leave (negsuc 0) (record s { writeout_q = q; running = false })
  sent (Queue.ok, q) current s =
      let index' = s.wo_buffer_index + 1 in
      next (
        broken,
        record s {
          writeout_q = q;
          total_frames_selected = s.total_frames_selected + 1;
          wo_buffer_index = if index' == num_wo_buf then 0 else index';
          last_buffer_index = some current;
        },
      )

  select : ℕ → TenState → Result
  unfolding sent
  select current s = do
    src ← checked (get_elem? s.scan_buffer current)
    dst ← checked (get_elem? s.wo_buffers s.wo_buffer_index)
    copied ← checked (copy_buffer dst src)
    let b = record (copy_buffer_timestamp copied src) { id = src.id }
    let s' = record s { wo_buffers = set s.wo_buffers s.wo_buffer_index b }
    sent (enqueue_p os s'.writeout_q (some s'.wo_buffer_index)) current s'

  -- A round of the synchronised thread.
  count_frame : ℕ → TenState → Result
  unfolding select
  count_frame current s =
      let n = s.num_frames_till_selection + 1 in
      let s' = record s { num_frames_till_selection = n } in
      let selected = select current (record s' { is_even = not s.is_even }) in
      if counted_tick s.is_even n
      then selected
      else next (again, record s' { last_buffer_index = some current })

  -- Need at least two frames to start comparing.
  examine : Option ℕ → ℕ → TenState → Result
  unfolding startup count_frame
  examine none current s = next (broken, record s { last_buffer_index = some current })
  examine (some last) current s =
      let at_startup = startup last current s in
      let counted = count_frame current s in if s.is_startup then at_startup else counted

  -- What follows the dequeue.
  dequeued : Queue.Ret × Option ℕ × QueueContainer os → TenState → Result
  unfolding examine
  dequeued (Queue.ok, some current, q) s =
      examine s.last_buffer_index current (record s { frame_q = q })
  dequeued (_, _, q) s = leave (negsuc 0) (record s { frame_q = q; running = false })

  -- After the inner loop the count starts over.
  after_inner : Turn × TenState → TenState
  after_inner (again, s) = s
  after_inner (broken, s) = record s { num_frames_till_selection = 0; in_loop = false }

  inner_round : TenState → Outcome TenState TenState
  unfolding dequeued after_inner
  inner_round s = dequeued (dequeue_p os s.frame_q) s >>= λ r. next (after_inner r)

  enter : Timespec → TenState → Outcome TenState TenState
  enter now s = do
    l ← checked (memlog_log Event.s2_done now s.processing_log)
    next (record s { processing_log = l; in_loop = true })

  -- One step of the thread: the head of the outer loop, or a round of the inner loop.
  pub ten_step : Timespec → TenState → Outcome TenState TenState
  unfolding inner_round enter
  ten_step now s =
      let round = inner_round s in
      let entered = enter now s in
      if s.in_loop then round else if s.running then entered else leave (pos 0) s
