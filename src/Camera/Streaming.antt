-- ===== src/Camera/Streaming.antt =====
-- The start of the stream, and the clean-up of a camera that streams.
use synchronome.Base.{◌≡◌, refl, Bool, true, false, Option, none, some, if◌then◌else◌}
use synchronome.Buffer.{Ret, ok}
use synchronome.Buffer.Single.{live-IsOwned}
use synchronome.Buffer.Allocation.{IsReleased}
use synchronome.Camera.Mappings.{AllReleased}
use synchronome.CameraDriver.{try_refocus}
use synchronome.Camera.{
  Replies, Video, cleanup_level_3, cleanup_full, failed, camera_start_streaming,
}
use synchronome.Camera.Levels.{Settled, level_3-Settled, length-Closable}

-- A camera that is all set up can be cleaned up from ERROR_LEVEL_3 on.
pub held-Settled : (v : Video) → Settled (some (ok, v)) → Settled (failed (cleanup_level_3 v))
unfolding Settled
held-Settled v (once, three, size, all, wo, er) =
    level_3-Settled v once (length-Closable v.num_buffers v.frame_buffers size)
      (live-IsOwned v.wo_buffer.start wo) (live-IsOwned v.er_buffer.start er)

pub camera_start_streaming-Settled :
    (r : Replies) (v : Video) → Settled (some (ok, v)) → Settled (camera_start_streaming r v)
unfolding camera_start_streaming
camera_start_streaming-Settled r v h =
    started r.streamon_ok (try_refocus r.device v.focus).0 _ _ _ (unfold Settled in h)
      (held-Settled (record v { streaming = true; focus = (try_refocus r.device v.focus).1 })
        (unfold Settled in h))
      (held-Settled v h)
  where
    started :
        (a b : Bool) (x y z : Option (Ret × Video))
        → Settled x
        → Settled y
        → Settled z
        → Settled (if a then (if b then x else y) else z)
    started true true x y z hx hy hz = hx
    started true false x y z hx hy hz = hy
    started false b x y z hx hy hz = hz

-- The camera is closed, once, and holds nothing.
abbrev pub IsClosed : Video → Type 0
IsClosed v =
    (v.closes ≡ 1) × AllReleased v.frame_buffers × IsReleased v.wo_buffer × IsReleased v.er_buffer

closed : (o : Option Video) → Settled (failed o) → (v : Video) × (o ≡ some v) × IsClosed v
unfolding failed Settled
closed none h = absurd h
closed (some v) h = (v, refl, h)

-- A camera that is all set up can be cleaned up in full.
pub cleanup_full-IsClosed :
    (v : Video) → Settled (some (ok, v)) → (v' : Video) × (cleanup_full v ≡ some v') × IsClosed v'
unfolding cleanup_full
cleanup_full-IsClosed v h =
    closed (cleanup_level_3 (record v { streaming = false }))
      (held-Settled (record v { streaming = false }) (unfold Settled in h))
