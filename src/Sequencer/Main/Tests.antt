-- ===== src/Sequencer/Main/Tests.antt =====
-- `main` with a message left in one queue and a failing malloc for the last write-out buffer, and a
-- teardown with a write-out thread that does not stop.
use synchronome.Base.{
  ℕ, ◌≤◌, refl, subst, true, false, [], ◌∷◌, none, some, replicate, arith, ltb, if◌then◌else◌,
}
use synchronome.Base.Int.{pos, negsuc}
use mathlib.Core.Option
use synchronome.Buffer
use synchronome.CameraDriver.{Device}
use synchronome.Buffer.{Buffer, Memory, Malloc, null, live}
use synchronome.Buffer.Arrays.{IsFrame, All-replicate, filled, length-filled}
use synchronome.Buffer.Allocation.{IsNull}
use synchronome.Queue.{Setup, QueueContainer}
use synchronome.Queue.Kernel.{kernel}
use synchronome.Camera
use synchronome.Camera.{Video, Mapping, unset, mapped}
use synchronome.Camera.Levels.{Settled}
use synchronome.Camera.Mappings.{AllMapped}
use synchronome.Camera.Cleanup.{Opened}
use synchronome.Realtime.{sched_other}
use synchronome.Realtime.Linux.{linux}
use synchronome.Pipeline.Outcome.{Safely}
use synchronome.Sequencer.{SeqState, timer_start}
use synchronome.Sequencer.Main.{Replies, MainState, Joined, start_up, tear_down}
use synchronome.Sequencer.Main.Stages.{Fresh, Standing, Started, Exits}
use synchronome.Sequencer.Main.Startup.{Modest, start_up-Started}
use synchronome.Sequencer.Main.Teardown.{Freed, Never, tear_down-Freed}

abbrev buffer_with : Memory → Buffer
buffer_with m = record {
  start = m;
  size = 614_400;
  time = record { tv_sec = pos 0; tv_nsec = pos 0 };
  index = negsuc 0;
  id = pos 0;
}

abbrev setup : Setup
setup = record {
  mq_open_ok = true;
  malloc_ok = true;
  mq_getattr_ok = true;
  mq_setattr_ok = true;
  mq_restore_ok = true;
}

abbrev camera_device : Device
camera_device = record {
  stat_major = some 81;
  open_ok = true;
  querycap_ok = true;
  g_input_ok = true;
  enuminput_ok = true;
  formats = 1 ∷ 2 ∷ [];
  enum_einval = true;
  g_fmt = λ n. some (640, 480);
  s_fmt_ok = true;
  set_ctrl_ok = λ n. true;
  get_ctrl_ok = true;
  autofocused = 130;
}

abbrev camera_replies : Camera.Replies
camera_replies = record {
  device = camera_device;
  reqbufs = some 3;
  querybuf_ok = λ i. true;
  mmap_ok = λ i. true;
  qbuf_ok = λ i. true;
  flags_ok = λ i. true;
  malloc_wo = some (λ i. 0);
  malloc_er = some (λ i. 0);
  streamon_ok = true;
}

abbrev malloc_all : Malloc
malloc_all call size = some (λ i. 0)

abbrev malloc_99 : Malloc
malloc_99 call size = if ltb call 99 then some (λ i. 0) else none

abbrev replies : Replies kernel linux
replies = record {
  frame_setup = setup;
  frame_opened = 7 ∷ [];
  writeout_setup = setup;
  writeout_opened = [];
  fuel = 11;
  sem_framegrab_ok = true;
  sem_processing_ok = true;
  sem_writeout_ok = true;
  sem_teardown_ok = true;
  realtime = record { setaffinity_ok = true; getparam_ok = true; setscheduler_ok = true };
  malloc_processing = malloc_all;
  malloc_writeout = malloc_99;
  camera = camera_replies;
  framegrab_created = true;
  processing_created = true;
  writeout_created = true;
  timer_create_ok = true;
  timer_settime_ok = true;
}

abbrev queue : ℕ → QueueContainer kernel
queue n = record { q = []; num_elems = n; b = 0; count = pos 0 }

abbrev timers : SeqState
timers = record {
  running = true;
  freeze_system = false;
  sequence = 0;
  timer1_it = timer_start;
  timer1 = timer_start;
  sem_writeout = 0;
  sem_processing = 0;
  sem_framegrab = 0;
  sem_teardown = 0;
}

abbrev video : ℕ → Mapping → Memory → Video
video n m image = record {
  closes = 0;
  num_buffers = n;
  frame_buffers = m ∷ m ∷ m ∷ [];
  camera_enqueue_count = 0;
  wo_buffer = buffer_with image;
  er_buffer = buffer_with image;
  streaming = false;
  focus = record { focus_auto = true; focus_absolute = 0 };
}

-- The globals with their memory `m`.
abbrev globals : Memory → Video → MainState kernel linux
globals m v = record {
  frame_q = queue 90;
  writeout_q = queue 100;
  semaphores = 0;
  sched = record { policy = sched_other; priority = 0; cpu = none };
  scan_buffer = replicate 90 (buffer_with m);
  wo_buffers = replicate 100 (buffer_with m);
  video = v;
  threads = [];
  timers = timers;
}

unopened : Opened (video 0 unset null)
unfolding Opened
unopened = (refl, refl, refl, refl, refl)

globals-Fresh : Fresh kernel linux (globals null (video 0 unset null))
globals-Fresh = record {
  threads = refl;
  scans = All-replicate IsNull 90 (buffer_with null) refl;
  wos = All-replicate IsNull 100 (buffer_with null) refl;
  camera = unopened;
}

replies-Modest : Modest kernel linux replies
replies-Modest n e = subst (λ k. k ≤ 3) (Option.some-injective 3 n e) (omega arith)

start_up-Started_example :
    Safely
      (Started kernel linux)
      (Exits kernel linux)
      (start_up kernel linux replies (globals null (video 0 unset null)))
start_up-Started_example =
    start_up-Started kernel linux replies (globals null (video 0 unset null)) globals-Fresh
      (omega arith) (omega arith) replies-Modest

streaming : Settled (some (Buffer.ok, video 3 mapped (live (filled 614_400 0))))
unfolding Settled AllMapped
streaming = (refl, refl, refl, tt, tt, tt)

globals-Standing :
    Standing kernel linux
      (globals (live (filled 614_400 0)) (video 3 mapped (live (filled 614_400 0))))
globals-Standing = record {
  scans =
      All-replicate IsFrame 90 (buffer_with (live (filled 614_400 0)))
        (length-filled 614_400 0, refl);
  wos =
      All-replicate IsFrame 100 (buffer_with (live (filled 614_400 0)))
        (length-filled 614_400 0, refl);
  camera = streaming;
}

abbrev joined : Joined kernel linux
joined = record { framegrab_ok_stop = true; processing_ok_stop = true; writeout_ok_stop = false }

tear_down-Freed_example :
    Safely
      (Freed kernel linux joined
        (globals (live (filled 614_400 0)) (video 3 mapped (live (filled 614_400 0)))))
      (Never kernel linux)
      (tear_down kernel linux joined
        (globals (live (filled 614_400 0)) (video 3 mapped (live (filled 614_400 0)))))
tear_down-Freed_example =
    tear_down-Freed kernel linux joined
      (globals (live (filled 614_400 0)) (video 3 mapped (live (filled 614_400 0))))
      globals-Standing
