-- ===== src/Pipeline/Frame/Tests.antt =====
-- A round of the frame thread on three camera buffers.
use synchronome.Base.{ℕ, refl, true, [], ◌∷◌, some, replicate, arith}
use synchronome.Base.Int.{pos}
use synchronome.Timetools.{Timespec}
use synchronome.Memlog.{zeroed}
use synchronome.Buffer.{Buffer, live}
use synchronome.Buffer.Arrays.{IsFrame, All-replicate, filled, length-filled}
use synchronome.Queue.Kernel.{kernel}
use synchronome.Pipeline.Frame.{posted, Round, FrameState, frame_round}
use synchronome.Pipeline.Frame.Scan.{Ready, Ends}
use synchronome.Pipeline.Frame.Step.{InRange, frame_round-Ends}

abbrev at : ℕ → Timespec
at s = record { tv_sec = pos s; tv_nsec = pos 0 }

abbrev frame_of : ℕ → Buffer
frame_of b = record {
  start = live (filled 614_400 b);
  size = 614_400;
  time = at 0;
  index = pos 0;
  id = pos 0;
}

is_frame : (b : ℕ) → IsFrame (frame_of b)
is_frame b = (length-filled 614_400 b, refl)

abbrev round : Round
round = record {
  sem_wait = posted;
  dqbuf = some 1;
  qbuf_ok = true;
  done_time = at 1;
  run_time = at 2;
  timestamp = at 3;
  start_time = at 4;
}

abbrev state : FrameState kernel
state = record {
  running = true;
  frame_id = pos 7;
  total_frames_queued = pos 7;
  camera_enqueue_count = pos 3;
  frame_buffers = frame_of 10 ∷ frame_of 11 ∷ frame_of 12 ∷ [];
  scan_buffer = replicate 90 (frame_of 0);
  scan_buffer_index = 89;
  frame_q = record { q = 88 ∷ []; num_elems = 90; b = 0; count = pos 1 };
  frame_log = record { index = 0; log = zeroed ∷ zeroed ∷ [] };
}

state-Ready : Ready kernel state
state-Ready = record {
  logging = omega arith;
  cameras = (is_frame 10, (is_frame 11, (is_frame 12, tt)));
  scans = All-replicate IsFrame 90 (frame_of 0) (is_frame 0);
  size = refl;
  within = omega arith;
}

round-InRange : InRange kernel round state
round-InRange i e = ground (arith, e)

frame_round-Ends_example : Ends kernel round state (frame_round kernel round state)
frame_round-Ends_example = frame_round-Ends kernel round state refl state-Ready round-InRange
