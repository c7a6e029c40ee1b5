-- ===== src/Camera.antt =====
-- simple-capture/camera_init.c, camera_buffer.c and the clean-up in camera.c: the resources that the
-- camera is given and what is released when a step fails. The replies of the driver and of the
-- system are a parameter.
mod Tests
pub mod Mappings
pub mod Levels
pub mod Cleanup
pub mod Streaming
use synchronome.Base.{
  ℕ, zero, suc, ◌+◌, ltb, ◌==◌, Bool, true, false, ◌&&◌, if◌then◌else◌, List, [], ◌∷◌, Option, none,
  some,
}
use synchronome.Base.Int.{ℤ, pos}
use synchronome.CameraDriver.{
  Device, Focus, show_camera_capabilities, enumerate_camera_image_formats, show_camera_image_format,
  camera_set_yuyv, try_refocus,
}
use synchronome.Buffer.{
  Buffer, Reply, Ret, ok, err, x_res, y_res, allocate_single_buffer, deallocate_buffer,
}

-- CAMERA_NUM_BUF, also the length of `frame_buffers`.
abbrev pub camera_num_buf : ℕ
camera_num_buf = 3

-- `frame_buffers[i].start`: NULL, a mapping, MAP_FAILED, or an address that was unmapped.
pub data Mapping : Type 0 where
  unset mapped map_failed unmapped : Mapping

pub record Replies : Type 0 where
  pub device : Device
  -- The count that VIDIOC_REQBUFS grants.
  pub reqbufs : Option ℕ
  pub querybuf_ok : ℕ → Bool
  pub mmap_ok : ℕ → Bool
  pub qbuf_ok : ℕ → Bool
  pub flags_ok : ℕ → Bool
  pub malloc_wo : Reply
  pub malloc_er : Reply
  pub streamon_ok : Bool

-- `video_t` and the globals; `closes` counts the calls of close(2) on the camera.
pub record Video : Type 0 where
  pub closes : ℕ
  pub num_buffers : ℕ
  pub frame_buffers : List Mapping
  pub camera_enqueue_count : ℕ
  pub wo_buffer : Buffer
  pub er_buffer : Buffer
  pub streaming : Bool
  pub focus : Focus

pub close_camera : Video → Video
close_camera v = record v { closes = v.closes + 1 }

pub camera_check_init : Replies → Bool
camera_check_init r =
    show_camera_capabilities r.device
    && enumerate_camera_image_formats r.device
    && show_camera_image_format r.device 0
    && elim (camera_set_yuyv r.device 1) [
      | none ↦ false
      | some wh ↦ (wh.0 == x_res) && (wh.1 == y_res)
    ]
    && show_camera_image_format r.device 2

-- What follows VIDIOC_REQBUFS; the count granted is checked from below only.
pub granted : Option ℕ → Video → Ret × Video
granted none v = (err, v)
granted (some count) v =
    if ltb count camera_num_buf then (err, v) else (ok, record v { num_buffers = count })

pub camera_request_buffers : Replies → Video → Ret × Video
unfolding granted
camera_request_buffers r v = granted r.reqbufs v

-- munmap(2) fails with a message on an address that is no mapping.
pub munmap : Mapping → Mapping
munmap mapped = unmapped
munmap unset = unset
munmap map_failed = map_failed
munmap unmapped = unmapped

-- `none` is an access past the array.
pub munmap_camera_buffers : ℕ → List Mapping → Option (List Mapping)
unfolding munmap
munmap_camera_buffers zero fb = some fb
munmap_camera_buffers (suc n) [] = none
munmap_camera_buffers (suc n) (m ∷ fb) = elim (munmap_camera_buffers n fb) [
  | none ↦ none
  | some fb' ↦ some (munmap m ∷ fb')
]

pub camera_deallocate_internal_buffers : Video → Option Video
unfolding munmap_camera_buffers
camera_deallocate_internal_buffers v = elim (munmap_camera_buffers v.num_buffers v.frame_buffers) [
  | none ↦ none
  | some fb ↦ some (record v { frame_buffers = fb })
]

-- How the loop of `camera_mmap_buffers` ends.
pub data Mapped : Type 0 where
  complete query_failed mmap_failed : Mapped

-- The entries of a round and of the later ones.
pub beside : Mapping → Option (Mapped × List Mapping) → Option (Mapped × List Mapping)
beside m none = none
beside m (some (end, fb)) = some (end, m ∷ fb)

-- The loop from index `i` on.
pub mmap_loop : Replies → ℕ → ℕ → List Mapping → Option (Mapped × List Mapping)
unfolding beside
mmap_loop r zero i fb = some (complete, fb)
mmap_loop r (suc n) i [] = if r.querybuf_ok i then none else some (query_failed, [])
mmap_loop r (suc n) i (m ∷ fb) =
    let later = beside mapped (mmap_loop r n (i + 1) fb) in
    if r.querybuf_ok i
    then (if r.mmap_ok i then later else some (mmap_failed, map_failed ∷ fb))
    else some (query_failed, m ∷ fb)

-- What the loop's end does; `_free_camera_buffers` frees memory of the driver.
pub mmap_end : Video → Option (Mapped × List Mapping) → Option (Ret × Video)
unfolding camera_deallocate_internal_buffers
mmap_end v none = none
mmap_end v (some (complete, fb)) = some (ok, record v { frame_buffers = fb })
mmap_end v (some (query_failed, fb)) = some (err, record v { frame_buffers = fb })
mmap_end v (some (mmap_failed, fb)) =
    elim (camera_deallocate_internal_buffers (record v { frame_buffers = fb })) [
      | none ↦ none
      | some v' ↦ some (err, v')
    ]

pub camera_mmap_buffers : Replies → Video → Option (Ret × Video)
unfolding mmap_loop mmap_end
camera_mmap_buffers r v = mmap_end v (mmap_loop r v.num_buffers 0 v.frame_buffers)

-- Each buffer goes to the driver; the counter goes up also where the ioctl fails.
pub enqueue_loop : Replies → ℕ → ℕ → Video → Ret × Video
enqueue_loop r zero i v = (ok, v)
enqueue_loop r (suc n) i v =
    let v' = record v { camera_enqueue_count = v.camera_enqueue_count + 1 } in
    let later = enqueue_loop r n (i + 1) v' in
    if r.qbuf_ok i && r.flags_ok i then later else (err, v')

pub after_mmap : Replies → Option (Ret × Video) → Option (Ret × Video)
unfolding enqueue_loop
after_mmap r none = none
after_mmap r (some (err, v)) = some (err, v)
after_mmap r (some (ok, v)) = some (enqueue_loop r v.num_buffers 0 v)

pub after_request : Replies → Ret × Video → Option (Ret × Video)
unfolding camera_mmap_buffers after_mmap
after_request r (err, v) = some (err, v)
after_request r (ok, v) = after_mmap r (camera_mmap_buffers r v)

pub camera_init_internal_buffers : Replies → Video → Option (Ret × Video)
unfolding camera_request_buffers after_request
camera_init_internal_buffers r v = after_request r (camera_request_buffers r v)

-- ERROR_LEVEL_1 to ERROR_FULL_INIT, each falling through to the ones below.
pub cleanup_level_2 : Video → Option Video
unfolding camera_deallocate_internal_buffers close_camera
cleanup_level_2 v = elim (camera_deallocate_internal_buffers v) [
  | none ↦ none
  | some v' ↦ some (close_camera v')
]

pub freed_both : Video → Option Buffer → Option Buffer → Option Video
freed_both v (some wo) (some er) = some (record v { wo_buffer = wo; er_buffer = er })
freed_both v wo er = none

pub cleanup_level_3 : Video → Option Video
unfolding cleanup_level_2 freed_both
cleanup_level_3 v =
    elim (freed_both v (deallocate_buffer v.wo_buffer) (deallocate_buffer v.er_buffer)) [
      | none ↦ none
      | some v' ↦ cleanup_level_2 v'
    ]

pub cleanup_full : Video → Option Video
unfolding cleanup_level_3
cleanup_full v = cleanup_level_3 (record v { streaming = false })

-- The end of an initialisation that failed.
pub failed : Option Video → Option (Ret × Video)
failed none = none
failed (some v) = some (err, v)

pub after_er : Ret × Buffer → Video → Option (Ret × Video)
unfolding failed cleanup_level_3
after_er (ok, er) v = some (ok, record v { er_buffer = er })
after_er (err, er) v = failed (cleanup_level_3 (record v { er_buffer = er }))

pub after_wo : Replies → Ret × Buffer → Video → Option (Ret × Video)
unfolding failed cleanup_level_3 after_er
after_wo r (err, wo) v = failed (cleanup_level_3 (record v { wo_buffer = wo }))
after_wo r (ok, wo) v =
    after_er (allocate_single_buffer r.malloc_er v.er_buffer) (record v { wo_buffer = wo })

pub after_internal : Replies → Option (Ret × Video) → Option (Ret × Video)
unfolding failed cleanup_level_2 after_wo
after_internal r none = none
after_internal r (some (err, v)) = failed (cleanup_level_2 v)
after_internal r (some (ok, v)) = after_wo r (allocate_single_buffer r.malloc_wo v.wo_buffer) v

-- Without SHARPEN_ON. `none` is an access past the array or a double free.
pub camera_init_all : Replies → Video → Option (Ret × Video)
unfolding camera_check_init camera_init_internal_buffers after_internal
camera_init_all r v =
    if camera_check_init r
    then after_internal r (camera_init_internal_buffers r v)
    else some (err, close_camera v)

-- A failure to focus cleans up from ERROR_LEVEL_3, so it does not stop the stream it has started.
pub camera_start_streaming : Replies → Video → Option (Ret × Video)
unfolding failed cleanup_level_3
camera_start_streaming r v =
    let (focused, focus) = try_refocus r.device v.focus in
    let v' = record v { streaming = true; focus = focus } in
    if r.streamon_ok
    then (if focused then some (ok, v') else failed (cleanup_level_3 v'))
    else failed (cleanup_level_3 v)
