-- ===== src/CameraDriver.antt =====
-- simple-capture/camera.c: what it asks the camera's driver before the buffers are set up, and the
-- focus. The replies of the driver are a parameter; what it prints of them is left out.
use synchronome.Base.{
  ℕ, ◌+◌, ◌≡◌, not, ◌==◌, Bool, true, false, if◌then◌else◌, List, [], ◌∷◌, Option, none, some,
  arith,
}

-- CAMERA_MAJ_ID and CAMERA_STATIC_FOCUS of camera.h
abbrev camera_maj_id : ℕ
camera_maj_id = 81

abbrev camera_static_focus : ℕ
camera_static_focus = 115

-- The driver's replies. The calls of VIDIOC_G_FMT are numbered, and give a width and a height; so are
-- those of VIDIOC_S_EXT_CTRLS. `formats` are the image formats that VIDIOC_ENUM_FMT gives before it
-- fails, and `enum_einval` tells whether it then fails with EINVAL. `autofocused` is where the lens
-- comes to rest while the autofocus is on.
pub record Device : Type 0 where
  pub stat_major : Option ℕ
  pub open_ok : Bool
  pub querycap_ok : Bool
  pub g_input_ok : Bool
  pub enuminput_ok : Bool
  pub formats : List ℕ
  pub enum_einval : Bool
  pub g_fmt : ℕ → Option (ℕ × ℕ)
  pub s_fmt_ok : Bool
  pub set_ctrl_ok : ℕ → Bool
  pub get_ctrl_ok : Bool
  pub autofocused : ℕ

-- The camera's node is there, is a camera's, and opens.
pub open_camera : Device → Bool
open_camera d = elim d.stat_major [
  | none ↦ false
  | some major ↦ if major == camera_maj_id then d.open_ok else false
]

unfoldable pub show_camera_capabilities : Device → Bool
show_camera_capabilities d =
    if d.querycap_ok then (if d.g_input_ok then d.enuminput_ok else false) else false

-- The loop over the image formats, with their index.
enumerate_from : ℕ → List ℕ → ℕ
enumerate_from index [] = index
enumerate_from index (f ∷ fs) = enumerate_from (index + 1) fs

unfoldable pub enumerate_camera_image_formats : Device → Bool
unfolding enumerate_from
enumerate_camera_image_formats d =
    let index = enumerate_from 0 d.formats in if d.enum_einval then not (index == 0) else false

-- With the number of its VIDIOC_G_FMT.
unfoldable pub show_camera_image_format : Device → ℕ → Bool
show_camera_image_format d n = elim (d.g_fmt n) [ none ↦ false | some wh ↦ true ]

-- The width and the height that the driver has set.
unfoldable pub camera_set_yuyv : Device → ℕ → Option (ℕ × ℕ)
camera_set_yuyv d n = if d.s_fmt_ok then d.g_fmt n else none

-- The lens: whether the autofocus is on, and its place.
pub record Focus : Type 0 where
  pub focus_auto : Bool
  pub focus_absolute : ℕ

-- The autofocus is turned off, the focus set, the autofocus turned on for two seconds and off again.
pub try_refocus : Device → Focus → Bool × Focus
try_refocus d f =
    let f1 = record f { focus_auto = false } in
    let f2 = record f1 { focus_absolute = camera_static_focus } in
    let f3 : Focus = record { focus_auto = true; focus_absolute = d.autofocused } in
    let f4 = record f3 { focus_auto = false } in
    if d.set_ctrl_ok 0
    then (if d.set_ctrl_ok 1
        then (if d.set_ctrl_ok 2
            then (if d.set_ctrl_ok 3 then (d.get_ctrl_ok, f4) else (false, f3))
            else (false, f2))
        else (false, f1))
    else (false, f)

-- After a refocus that succeeds the autofocus is off, and the lens stands where the autofocus has
-- left it, not at CAMERA_STATIC_FOCUS.
pub try_refocus_lem :
    (d : Device) (f f' : Focus)
    → try_refocus d f ≡ (true, f')
    → (f'.focus_auto ≡ false) × (f'.focus_absolute ≡ d.autofocused)
unfolding try_refocus
try_refocus_lem d f f' e = ground (arith, e)
