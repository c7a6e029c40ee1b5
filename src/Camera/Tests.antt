-- ===== src/Camera/Tests.antt =====
-- An initialisation whose second buffer cannot be mapped, and one with a driver that grants five.
use synchronome.Base.{
  ℕ, ◌≡◌, ◌≤◌, refl, subst, true, false, [], ◌∷◌, some, none, arith, ◌==◌, not, ◌+◌,
}
use mathlib.Core.Option
use synchronome.Base.Int.{pos}
use synchronome.CameraDriver.{Device}
use synchronome.Buffer.{Buffer, null}
use synchronome.Camera.{Replies, Video, unset, camera_num_buf, camera_check_init, camera_init_all}
use synchronome.Camera.Levels.{Settled}
use synchronome.Camera.Cleanup.{Opened, camera_init_all-Settled, camera_init_all_overflow}

abbrev blank : Buffer
blank = record {
  start = null;
  size = 0;
  time = record { tv_sec = pos 0; tv_nsec = pos 0 };
  index = pos 0;
  id = pos 0;
}

abbrev video : Video
video = record {
  closes = 0;
  num_buffers = 0;
  frame_buffers = unset ∷ unset ∷ unset ∷ [];
  camera_enqueue_count = 0;
  wo_buffer = blank;
  er_buffer = blank;
  streaming = false;
  focus = record { focus_auto = true; focus_absolute = 0 };
}

abbrev camera_device : Device
camera_device = record {
  stat_major = some 81;
  open_ok = true;
  querycap_ok = true;
  g_input_ok = true;
  enuminput_ok = true;
  formats = 1 ∷ 2 ∷ [];
  enum_einval = true;
  g_fmt = λ n. some (640, 480);
  s_fmt_ok = true;
  set_ctrl_ok = λ n. true;
  get_ctrl_ok = true;
  autofocused = 130;
}

abbrev generous : Replies
generous = record {
  device = camera_device;
  reqbufs = some (4 + 1);
  querybuf_ok = λ i. true;
  mmap_ok = λ i. true;
  qbuf_ok = λ i. true;
  flags_ok = λ i. true;
  malloc_wo = none;
  malloc_er = none;
  streamon_ok = true;
}

abbrev failing : Replies
failing = record generous { reqbufs = some 3; mmap_ok = λ i. not (i == 1) }

video-Opened : Opened video
unfolding Opened
video-Opened = (refl, refl, refl, refl, refl)

three_granted : (n : ℕ) → failing.reqbufs ≡ some n → n ≤ camera_num_buf
three_granted n e = subst (λ k. k ≤ 3) (Option.some-injective 3 n e) (omega arith)

generous_fine : camera_check_init generous ≡ true
unfolding camera_check_init synchronome.CameraDriver.show_camera_capabilities
    synchronome.CameraDriver.enumerate_camera_image_formats
    synchronome.CameraDriver.show_camera_image_format synchronome.CameraDriver.camera_set_yuyv
generous_fine = refl

camera_init_all-Settled_example : Settled (camera_init_all failing video)
camera_init_all-Settled_example = camera_init_all-Settled failing video video-Opened three_granted

camera_init_all_overflow_example : camera_init_all generous video ≡ none
camera_init_all_overflow_example =
    camera_init_all_overflow generous video 1 video-Opened generous_fine refl (λ i. refl)
      (λ i. refl)
