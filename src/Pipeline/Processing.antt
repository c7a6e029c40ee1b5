-- ===== src/Pipeline/Processing.antt =====
-- simple-capture/processing.c: the thread that selects frames, at 1 Hz with one synchronisation at
-- startup (neither MODE_10Hz nor MODE_ALWAYS_DETECT_FRAME, as setup.h has it).
pub mod Parts
pub mod Select
pub mod Synced
pub mod Effects
mod Tests
use synchronome.Base.{
  ℕ, suc, ◌+◌, ◌-◌, ◌%◌, ◌^◌, Bool, true, false, not, ltb, leb, ◌==◌, ◌&&◌, ◌||◌, if◌then◌else◌,
  List, Option, none, some, get_elem?, set,
}
use synchronome.Base.Int.{ℤ, pos, negsuc, ◌+ℤ◌, eqb_ℤ, ltb_ℤ, pos_part, neg_part}
use synchronome.Timetools.{Timespec, timespec_subtract}
use synchronome.Memlog.{Memlog, memlog_log, memlog_log24}
use synchronome.Memlog.Event
use synchronome.Buffer.{
  Buffer, Memory, null, live, freed, num_wo_buf, copy_buffer, copy_buffer_timestamp,
  buffer_get_timestamp,
}
use synchronome.Queue.{Mqueue, QueueContainer, enqueue_p, dequeue_p}
use synchronome.Queue
use synchronome.Motion.{Motion, Verdict, quiet, ignore, detected, is_motion, frame_changes}
use synchronome.Pipeline.Outcome.{Outcome, next, leave, fault, checked, require, ◌>>=◌, ◌>>◌}

-- MOTION_FRAMES_SEC, MOTION_SELECTIONS_IGNORE and MOTION_FRAMES_DRIFT of processing.h
abbrev pub motion_frames_sec : ℕ
motion_frames_sec = 25

abbrev pub motion_selections_ignore : ℕ
motion_selections_ignore = 5

abbrev pub motion_frames_drift : ℕ
motion_frames_drift = 3

-- The jitter check: 80 ms.
abbrev pub jitter_limit : ℕ
jitter_limit = 80_000_000

-- Where the thread stands: before `while(running)`, in `while(1)`, or in the last `while(1);`.
pub data Phase : Type 0 where
  outer inner stuck : Phase

-- How a round of the inner loop ends: it goes round again, or breaks.
pub data Turn : Type 0 where
  again broken : Turn

pub is_detected : Verdict → Bool
is_detected detected = true
is_detected quiet = false
is_detected ignore = false

-- The bytes behind a buffer's pointer.
image : Memory → Option (List ℕ)
image (live bytes) = some bytes
image null = none
image freed = none

-- `frame_changes` on two buffers, its assertions on their sizes included.
pub buffer_changes : Buffer → Buffer → Option ℕ
unfolding image
buffer_changes first second =
    if first.size == second.size
    then frame_changes (image first.start) (image second.start)
    else none

-- The test of the synchronisation: the later frame comes less than 80 ms after the earlier.
pub in_sync : Timespec → Timespec → Bool
in_sync current_stamp last_stamp =
    let (diff, negative, _) = timespec_subtract current_stamp last_stamp in
    not negative && eqb_ℤ diff.tv_sec (pos 0) && ltb_ℤ diff.tv_nsec (pos jitter_limit)

-- An `int` passed as `uint32_t`.
unfoldable pub word : ℤ → ℕ
word a = (pos_part a + 2 ^ 32 - neg_part a % 2 ^ 32) % 2 ^ 32

-- The clock's replies in one step.
pub record Clock : Type 0 where
  pub first : Timespec
  pub second : Timespec

module _ (os : Mqueue) where
  pub record ProcState : Type 0 where
    pub phase : Phase
    pub running : Bool
    pub freeze_system : Bool
    pub teardown_posts : ℕ
    pub wo_buffer_index : ℕ
    pub last_buffer_index : Option ℕ
    pub changed_pixels : ℕ
    pub did_frame_tick : Verdict
    pub is_startup : Bool
    pub startup_frames_ignore : ℕ
    pub num_frames_till_selection : ℕ
    pub motion : Motion
    pub scan_buffer : List Buffer
    pub wo_buffers : List Buffer
    pub frame_q : QueueContainer os
    pub writeout_q : QueueContainer os
    pub total_frames_selected : ℕ
    pub processing_log : Memlog

  abbrev Result : Type 0
  Result = Outcome (Turn × ProcState) ProcState

  -- At startup: the comparison with the frame before, and the detector's verdict.
  compare_frames : ℕ → ℕ → ProcState → Outcome ProcState ProcState
  unfolding buffer_changes
  compare_frames last current s = do
    first ← checked (get_elem? s.scan_buffer last)
    second ← checked (get_elem? s.scan_buffer current)
    changed ← checked (buffer_changes first second)
    let (tick, m) = is_motion changed s.motion
    wo ← checked (get_elem? s.wo_buffers s.wo_buffer_index)
    require (second.size == wo.size)
    next (record s { changed_pixels = changed; did_frame_tick = tick; motion = m })

  -- At startup a tick counts towards the five that synchronise, or starts the count over.
  synchronise : ℕ → ℕ → ProcState → Result
  unfolding in_sync
  synchronise last current s = do
    now ← checked (get_elem? s.scan_buffer current)
    earlier ← checked (get_elem? s.scan_buffer last)
    let ignored = s.startup_frames_ignore + 1
    let s' = record s { last_buffer_index = some current }
    if in_sync (buffer_get_timestamp now) (buffer_get_timestamp earlier)
        then next (
          broken,
          record s' {
            startup_frames_ignore = ignored;
            is_startup = if ignored == motion_selections_ignore then false else s.is_startup;
          },
        )
        else next (broken, record s' { startup_frames_ignore = 0 })

  -- The copy to the write-out buffer, whose index is queued; that the queue refuses it is ignored.
  pub select : ℕ → ProcState → Outcome ProcState ProcState
  select current s = do
    src ← checked (get_elem? s.scan_buffer current)
    dst ← checked (get_elem? s.wo_buffers s.wo_buffer_index)
    copied ← checked (copy_buffer dst src)
    let b = record (copy_buffer_timestamp copied src) { id = src.id }
    let (_, q) = enqueue_p os s.writeout_q (some s.wo_buffer_index)
    let index' = s.wo_buffer_index + 1
    next (record s {
      wo_buffers = set s.wo_buffers s.wo_buffer_index b;
      writeout_q = q;
      total_frames_selected = s.total_frames_selected + 1;
      wo_buffer_index = if index' == num_wo_buf then 0 else index';
    })

  -- The end of a round: a tick is selected and breaks the loop.
  conclude : ℕ → ProcState → Result
  unfolding select is_detected
  conclude current s =
      let selected = (do
        s' ← select current s
        next (broken, record s' { last_buffer_index = some current })) in
      if is_detected s.did_frame_tick
      then selected
      else next (again, record s { last_buffer_index = some current })

  -- Once synchronised, every MOTION_FRAMES_SEC-th frame is a tick.
  count_frame : ProcState → ProcState
  count_frame s =
      if s.num_frames_till_selection == motion_frames_sec
      then record s { did_frame_tick = detected }
      else s

  -- A round with a frame before, its count and its verdict set anew.
  judge : ℕ → ℕ → ProcState → Result
  unfolding compare_frames synchronise conclude count_frame is_detected
  judge last current s =
      let startup = (do
        s' ← compare_frames last current s
        if is_detected s'.did_frame_tick
            then synchronise last current s'
            else conclude current s') in
      if s.is_startup then startup else conclude current (count_frame s)

  -- Need at least two frames to start comparing.
  pub examine : Option ℕ → ℕ → ProcState → Result
  unfolding judge
  examine none current s = next (broken, record s { last_buffer_index = some current })
  examine (some last) current s = judge last current (record s {
    num_frames_till_selection = s.num_frames_till_selection + 1;
    did_frame_tick = quiet;
  })

  -- What follows the dequeue. An empty queue is an error, since dequeue_P never returns 1.
  dequeued : Queue.Ret × Option ℕ × QueueContainer os → ProcState → Result
  unfolding examine
  dequeued (Queue.ok, some current, q) s =
      examine s.last_buffer_index current (record s { frame_q = q })
  dequeued (_, _, q) s = leave (negsuc 0) (record s { frame_q = q; running = false })

  -- One round of the inner loop.
  unfoldable pub inner_round : ProcState → Result
  unfolding dequeued
  inner_round s = dequeued (dequeue_p os s.frame_q) s

  -- The timing is off if the selection took under 22 or over 28 frames.
  is_adrift : ℕ → Bool
  is_adrift n =
      ltb (motion_frames_sec + motion_frames_drift) n
      || ltb n (motion_frames_sec - motion_frames_drift)

  -- After the inner loop, outside startup: the logs and the check of the timing. A system whose
  -- timing is off is frozen, torn down, and the thread spins; the files it first dumps the scan
  -- buffers to are not part of the state.
  pub audit : Clock → ProcState → Outcome ProcState ProcState
  unfolding word is_adrift
  audit c s = do
    l ← checked (memlog_log24 Event.adata_24 s.num_frames_till_selection c.first s.processing_log)
    last ← checked s.last_buffer_index
    b ← checked (get_elem? s.scan_buffer last)
    l' ← checked (memlog_log24 Event.bdata_24 (word b.id) c.second l)
    let s' = record s { processing_log = l' }
    if is_adrift s.num_frames_till_selection
        then next (record s' {
          freeze_system = true;
          teardown_posts = s.teardown_posts + 1;
          phase = stuck;
        })
        else next (record s' { num_frames_till_selection = 0; phase = outer })

  pub after_inner : Clock → Turn × ProcState → Outcome ProcState ProcState
  unfolding audit
  after_inner c (again, s) = next s
  after_inner c (broken, s) =
      let checks = audit c s in
      if s.is_startup
      then next (record s { num_frames_till_selection = 0; phase = outer })
      else checks

  pub enter : Clock → ProcState → Outcome ProcState ProcState
  enter c s = do
    l ← checked (memlog_log Event.s2_done c.first s.processing_log)
    l' ← checked (memlog_log Event.s2_run c.second l)
    next (record s { processing_log = l'; phase = inner })

  step_from : Phase → Clock → ProcState → Outcome ProcState ProcState
  unfolding after_inner enter
  step_from outer c s = let entered = enter c s in if s.running then entered else leave (pos 0) s
  step_from inner c s = inner_round s >>= after_inner c
  step_from stuck c s = next s

  -- One step of the thread: the head of the outer loop, or a round of the inner loop with what
  -- follows it.
  pub processing_step : Clock → ProcState → Outcome ProcState ProcState
  unfolding step_from
  processing_step c s = step_from s.phase c s
