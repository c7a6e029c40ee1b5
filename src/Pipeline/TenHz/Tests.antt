-- ===== src/Pipeline/TenHz/Tests.antt =====
-- The synchronised thread at 10 Hz at the third frame of five.
use synchronome.Base.{ℕ, ◌≡◌, refl, true, false, List, [], ◌∷◌, some, replicate, set, arith}
use synchronome.Base.Int.{pos}
use synchronome.Timetools.{Timespec}
use synchronome.Memlog.{zeroed}
use synchronome.Buffer.{Buffer, live, copy_buffer, copy_buffer_timestamp}
use synchronome.Buffer.Arrays.{IsFrame, All-replicate, copy_buffer-frame, filled, length-filled}
use synchronome.Queue.{QueueContainer, enqueue_p, dequeue_p}
use synchronome.Queue.Kernel.{kernel}
use synchronome.Pipeline.Outcome.{next, Safely}
use synchronome.Pipeline.TenHz.{
  TenState, ten_step, inner_round, dequeued, examine, count_frame, counted_tick, select, sent,
  after_inner,
}
use synchronome.Pipeline.TenHz.Picks.{IsSynced, Counted, Refused, Delivers, ten_step-Counted}
use synchronome.Pipeline.TenHz.Run.{Run, AllStored, start, frame, Picked, Run-Picked}

abbrev now : Timespec
now = record { tv_sec = pos 9; tv_nsec = pos 0 }

abbrev frame_buffer : Buffer
frame_buffer = record {
  start = live (filled 614_400 5);
  size = 614_400;
  time = record { tv_sec = pos 8; tv_nsec = pos 0 };
  index = pos 0;
  id = pos 41;
}

abbrev queue : List ℕ → QueueContainer kernel
queue l = record { q = l; num_elems = 90; b = 3; count = pos 1 }

abbrev state : TenState kernel
state = record {
  in_loop = true;
  running = true;
  wo_buffer_index = 99;
  last_buffer_index = some 2;
  last_sync_frame = some 80;
  num_frames_till_selection = 2;
  is_even = false;
  changed_pixels = 0;
  zero_pixels = 0;
  is_startup = false;
  startup_count = 5;
  scan_buffer = replicate 90 frame_buffer;
  wo_buffers = replicate 100 frame_buffer;
  frame_q = queue (3 ∷ []);
  writeout_q = queue [];
  total_frames_selected = 6;
  processing_log = record { index = 0; log = zeroed ∷ zeroed ∷ [] };
}

state-IsSynced : IsSynced kernel state
state-IsSynced = record {
  logging = omega arith;
  scans = All-replicate IsFrame 90 frame_buffer (length-filled 614_400 5, refl);
  scan_count = refl;
  wos = All-replicate IsFrame 100 frame_buffer (length-filled 614_400 5, refl);
  wo_count = refl;
  within = omega arith;
  started = refl;
  last = 2;
  has_last = refl;
  counting = omega arith;
}

taken : QueueContainer kernel
taken = (dequeue_p kernel state.frame_q).2

state-Delivers : Delivers kernel 3 taken state
unfolding dequeue_p taken
state-Delivers = (refl, omega arith)

ten_step-Counted_example :
    Safely (Counted kernel 3 state) (Refused kernel state) (ten_step kernel now state)
ten_step-Counted_example =
    ten_step-Counted kernel now 3 taken state state-IsSynced refl state-Delivers

-- The third frame is selected.
selected : TenState kernel
selected = record state {
  in_loop = false;
  wo_buffer_index = 0;
  last_buffer_index = some 3;
  num_frames_till_selection = 0;
  is_even = true;
  wo_buffers = set state.wo_buffers 99 frame_buffer;
  frame_q = taken;
  writeout_q = (enqueue_p kernel state.writeout_q (some 99)).1;
  total_frames_selected = 7;
}

frame_buffer_copied : copy_buffer frame_buffer frame_buffer ≡ some frame_buffer
frame_buffer_copied =
    copy_buffer-frame frame_buffer frame_buffer (length-filled 614_400 5, refl)
      (length-filled 614_400 5, refl)

state_selected : ten_step kernel now state ≡ next selected
unfolding ten_step inner_round dequeued examine count_frame counted_tick select sent after_inner
    selected taken dequeue_p enqueue_p copy_buffer_timestamp
state_selected = rw frame_buffer_copied refl

one_frame : Run kernel state 1 selected
one_frame = frame start now 3 taken refl state-Delivers state_selected

Run-Picked_example : Picked kernel 1 state selected × AllStored kernel one_frame
Run-Picked_example = Run-Picked kernel state state-IsSynced 1 selected one_frame
