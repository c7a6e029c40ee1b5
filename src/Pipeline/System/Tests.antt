-- ===== src/Pipeline/System/Tests.antt =====
-- The frame and the processing thread with three camera buffers, from the start on: a frame is
-- dequeued, copied, handed over and taken.
use synchronome.Base.{
  ℕ, zero, suc, ◌<◌, ◌≡◌, refl, true, false, List, [], ◌∷◌, none, some, get_elem?, set, replicate,
  arith,
}
use synchronome.Base.Int.{ℤ, pos}
use synchronome.Timetools.{Timespec}
use synchronome.Memlog.{Memlog, zeroed}
use synchronome.Memlog.Ring.{IsValid}
use synchronome.Motion.{initial, quiet}
use synchronome.Buffer.{Buffer, live}
use synchronome.Buffer.Arrays.{IsFrame, All-replicate, filled, length-filled}
use synchronome.Queue.{QueueContainer, hand_on}
use synchronome.Queue.Kernel.{kernel}
use synchronome.Pipeline.Outcome.{next}
use synchronome.Pipeline.Frame.{posted, Round, FrameState, opening, scan, passed}
use synchronome.Pipeline.Frame.Scan.{Ready, after_scan, scanned, scan_found}
use synchronome.Pipeline.Frame.Effects.{opening_lem}
use synchronome.Pipeline.Processing.{ProcState, inner}
use synchronome.Pipeline.System.{
  waiting, grabbed, copied, sending, handed, idle, receiving, received, holding, System,
  frame_moves, proc_moves, stored, send_on, grab, copy, store, hand, await, receive, take, Reach,
  start, more, copies, hands, takes, silent, Step,
}
use synchronome.Pipeline.System.InFlight.{InRing}
use synchronome.Pipeline.System.Window.{Reach-InRing}
use synchronome.Pipeline.System.Channel.{Run, opens, moves, InOrder}
use synchronome.Pipeline.System.Delivery.{IsFresh, Run-InOrder}
use synchronome.Pipeline.System.Numbers.{Numbered, Run-Numbered}
use synchronome.Pipeline.System.Overwrite.{Copy, Reach-Copy}

abbrev at : ℕ → Timespec
at s = record { tv_sec = pos s; tv_nsec = pos 0 }

abbrev frame_of : ℕ → Buffer
frame_of b = record {
  start = live (filled 614_400 b);
  size = 614_400;
  time = at 0;
  index = pos 0;
  id = pos 0;
}

is_frame : (b : ℕ) → IsFrame (frame_of b)
is_frame b = (length-filled 614_400 b, refl)

abbrev round : Round
round = record {
  sem_wait = posted;
  dqbuf = some 1;
  qbuf_ok = true;
  done_time = at 1;
  run_time = at 2;
  timestamp = at 3;
  start_time = at 4;
}

abbrev queue : List ℕ → QueueContainer kernel
queue l = record { q = l; num_elems = 90; b = 0; count = pos 0 }

abbrev frame_state : FrameState kernel
frame_state = record {
  running = true;
  frame_id = pos 7;
  total_frames_queued = pos 7;
  camera_enqueue_count = pos 3;
  frame_buffers = frame_of 10 ∷ frame_of 11 ∷ frame_of 12 ∷ [];
  scan_buffer = replicate 90 (frame_of 0);
  scan_buffer_index = 89;
  frame_q = queue [];
  frame_log = record { index = 0; log = zeroed ∷ zeroed ∷ [] };
}

abbrev proc_state : ProcState kernel
proc_state = record {
  phase = inner;
  running = true;
  freeze_system = false;
  teardown_posts = 0;
  wo_buffer_index = 0;
  last_buffer_index = none;
  changed_pixels = 0;
  did_frame_tick = quiet;
  is_startup = true;
  startup_frames_ignore = 0;
  num_frames_till_selection = 0;
  motion = initial;
  scan_buffer = replicate 90 (frame_of 0);
  wo_buffers = replicate 100 (frame_of 0);
  frame_q = queue [];
  writeout_q = queue [];
  total_frames_selected = 0;
  processing_log = record { index = 0; log = zeroed ∷ zeroed ∷ [] };
}

abbrev s0 : System kernel
s0 = record { frame_at = waiting; frame = frame_state; proc_at = idle; proc = proc_state }

s0-InRing : InRing kernel s0
s0-InRing = record {
  ring = refl;
  queue = refl;
  within = omega arith;
  run = tt;
  apart = tt;
  filled = tt;
  message = tt;
}

s0-IsFresh : IsFresh kernel s0
s0-IsFresh = record { in_ring = s0-InRing; at = refl; no_last = refl; nothing = refl }

-- Its log after the dequeue of buffer 1.
logged :
    (l : Memlog) × IsValid l
    × (opening kernel round frame_state
        ≡ next (1, record frame_state { frame_log = l; camera_enqueue_count = pos 2 }))
unfolding synchronome.Base.Int.◌-ℤ◌
logged = opening_lem kernel round 1 frame_state refl refl refl (omega arith)

abbrev f1 : FrameState kernel
f1 = record frame_state { frame_log = logged.0; camera_enqueue_count = pos 2 }

abbrev s1 : System kernel
s1 = frame_moves kernel (grabbed round 1) f1 s0

f1-Ready : Ready kernel f1
f1-Ready = record {
  logging = logged.1;
  cameras = (is_frame 10, (is_frame 11, (is_frame 12, tt)));
  scans = All-replicate IsFrame 90 (frame_of 0) (is_frame 0);
  size = refl;
  within = omega arith;
}

-- Buffer 1 in slot 89, with its time and id.
abbrev moved : Buffer
moved = record (frame_of 11) { time = at 3; id = pos 7 }

abbrev f2 : FrameState kernel
f2 = record f1 { scan_buffer = set f1.scan_buffer 89 moved; frame_id = pos 8 }

f1_f2 : scan kernel 1 (at 3) f1 ≡ next f2
unfolding after_scan scanned synchronome.Base.Int.◌+ℤ◌ synchronome.Buffer.buffer_set_timestamp
f1_f2 =
    scan_found kernel 1 (at 3) f1 (frame_of 11) (frame_of 0) refl refl (is_frame 11) (is_frame 0)

abbrev s2 : System kernel
s2 = frame_moves kernel (copied round) f2 s1

-- The index is stored and the counter comes to 1, then the index is sent.
abbrev s3 : System kernel
s3 = frame_moves kernel (sending round) (stored kernel (pos 1) f2) s2

abbrev f4 : FrameState kernel
f4 = record f2 {
  scan_buffer_index = 0;
  frame_q = record { q = 89 ∷ []; num_elems = 90; b = 89; count = pos 1 };
}

abbrev s4 : System kernel
s4 = frame_moves kernel (handed round) f4 s3

abbrev received_q : ℤ → List ℕ → ProcState kernel
received_q n l = record s4.proc { frame_q = record { q = l; num_elems = 90; b = 89; count = n } }

abbrev s5 : System kernel
s5 = proc_moves kernel receiving (received_q (pos 0) (89 ∷ [])) s4

abbrev s6 : System kernel
s6 = proc_moves kernel (received 89) (received_q (pos 0) []) s5

abbrev s7 : System kernel
s7 = proc_moves kernel (holding 89) (received_q (pos 0) []) s6

s0_s1 : Step kernel s0 silent s1
s0_s1 = grab round refl refl logged.2

s1_s2 : Step kernel s1 copies s2
unfolding frame_moves
s1_s2 = copy round 1 refl f1_f2

s2_s3 : Step kernel s2 silent s3
unfolding frame_moves
s2_s3 = store round (pos 1) refl refl

s3_s4 : Step kernel s3 (hands moved) s4
unfolding frame_moves stored send_on passed hand_on
s3_s4 = hand round refl refl refl

s4_s5 : Step kernel s4 silent s5
unfolding frame_moves proc_moves
s4_s5 = await (pos 0) refl refl

s5_s6 : Step kernel s5 silent s6
unfolding frame_moves proc_moves
s5_s6 = receive 89 [] refl refl

s6_s7 : Step kernel s6 (takes moved) s7
unfolding frame_moves proc_moves
s6_s7 = take 89 refl refl

all_seven : Reach kernel s0 s7
unfolding frame_moves proc_moves
all_seven =
    more
      (more (more (more (more (more (more start s0_s1 tt) s1_s2 tt) s2_s3 tt) s3_s4 tt) s4_s5 tt)
        s5_s6 tt)
      s6_s7 tt

one_frame : Run kernel s0 (moved ∷ []) (moved ∷ []) s7
unfolding frame_moves proc_moves
one_frame =
    moves
      (moves
        (moves
          (moves (moves (moves (moves opens s0_s1 tt tt) s1_s2 (omega arith) tt) s2_s3 tt tt) s3_s4
            tt tt)
          s4_s5 tt tt)
        s5_s6 tt tt)
      s6_s7 tt tt

Reach-InRing_example : InRing kernel s7
Reach-InRing_example = Reach-InRing kernel s0 s7 s0-InRing all_seven

Run-InOrder_example : InOrder kernel (moved ∷ []) (moved ∷ []) s7
Run-InOrder_example = Run-InOrder kernel s0 s7 (moved ∷ []) (moved ∷ []) s0-IsFresh one_frame

Run-Numbered_example : (m : ℤ) × Numbered (pos 7) (moved ∷ []) m
Run-Numbered_example = Run-Numbered kernel s0 s7 (moved ∷ []) (moved ∷ []) s0-IsFresh refl one_frame

Reach-Copy_example : Copy kernel s1 s2
unfolding frame_moves
Reach-Copy_example = Reach-Copy kernel s0 s1 s2 s0-InRing (more start s0_s1 tt) s1_s2
