-- ===== src/Pipeline/Processing/Tests.antt =====
-- The synchronised processing thread at its 25th frame, and from it on.
use synchronome.Base.{
  ℕ, ◌<◌, ◌^◌, ◌≡◌, refl, true, false, List, [], ◌∷◌, some, get_elem?, replicate, arith,
}
use synchronome.Base.Int.{pos}
use synchronome.Memlog.{zeroed}
use synchronome.Motion.{initial, quiet}
use synchronome.Buffer.{Buffer, live}
use synchronome.Buffer.Arrays.{IsFrame, All-replicate, filled, length-filled}
use synchronome.Queue.{QueueContainer, dequeue_p}
use synchronome.Queue.Kernel.{kernel}
use synchronome.Pipeline.Outcome.{next}
use synchronome.Pipeline.Processing.{ProcState, Clock, inner, word, processing_step}
use synchronome.Pipeline.Processing.Parts.{Ready}
use synchronome.Pipeline.Processing.Select.{Frame, Counted, processing_step-Counted}
use synchronome.Pipeline.Processing.Synced.{
  Run, AllCopied, start, frame, IsSynced, Selected, Run-Selected,
}

abbrev clock : Clock
clock = record {
  first = record { tv_sec = pos 9; tv_nsec = pos 0 };
  second = record { tv_sec = pos 9; tv_nsec = pos 100 };
}

abbrev frame_buffer : Buffer
frame_buffer = record {
  start = live (filled 614_400 5);
  size = 614_400;
  time = record { tv_sec = pos 8; tv_nsec = pos 0 };
  index = pos 0;
  id = pos 41;
}

abbrev queue : List ℕ → QueueContainer kernel
queue l = record { q = l; num_elems = 90; b = 0; count = pos 1 }

-- 24 frames since the last selection, and frame 3 waits in the queue.
abbrev state : ProcState kernel
state = record {
  phase = inner;
  running = true;
  freeze_system = false;
  teardown_posts = 0;
  wo_buffer_index = 99;
  last_buffer_index = some 2;
  changed_pixels = 0;
  did_frame_tick = quiet;
  is_startup = false;
  startup_frames_ignore = 5;
  num_frames_till_selection = 24;
  motion = initial;
  scan_buffer = replicate 90 frame_buffer;
  wo_buffers = replicate 100 frame_buffer;
  frame_q = queue (3 ∷ []);
  writeout_q = queue [];
  total_frames_selected = 6;
  processing_log = record { index = 0; log = zeroed ∷ zeroed ∷ [] };
}

state-Ready : Ready kernel state
state-Ready = record {
  logging = omega arith;
  scans = All-replicate IsFrame 90 frame_buffer (length-filled 614_400 5, refl);
  scan_count = refl;
  wos = All-replicate IsFrame 100 frame_buffer (length-filled 614_400 5, refl);
  wo_count = refl;
  within = omega arith;
}

state-IsSynced : IsSynced kernel state
state-IsSynced = record {
  ready = state-Ready;
  started = refl;
  last = 2;
  has_last = refl;
  counting = omega arith;
}

emptied : QueueContainer kernel
emptied = (dequeue_p kernel state.frame_q).2

small_ids : (b : Buffer) → get_elem? state.scan_buffer 3 ≡ some b → word b.id < 2 ^ 24
unfolding word
small_ids b e = ground (arith, e)

state-Frame : Frame kernel 3 emptied state
unfolding dequeue_p emptied
state-Frame = (refl, omega arith, small_ids)

processing_step-Counted_example :
    (s' : ProcState kernel) × (processing_step kernel clock state ≡ next s')
    × Counted kernel 3 24 state s'
processing_step-Counted_example =
    processing_step-Counted kernel clock 2 3 state emptied state-Ready refl refl refl (omega arith)
      state-Frame

-- One step on frame 3.
stepped :
    (s' : ProcState kernel) × (processing_step kernel clock state ≡ next s')
    × Counted kernel 3 24 state s'
stepped =
    processing_step-Counted kernel clock 2 3 state emptied state-Ready refl refl refl (omega arith)
      state-Frame

one_frame : Run kernel state 1 stepped.0
one_frame = frame start clock 3 emptied refl state-Frame stepped.1

Run-Selected_example : Selected kernel 1 state stepped.0 × AllCopied kernel one_frame
Run-Selected_example = Run-Selected kernel state state-IsSynced 1 stepped.0 one_frame
