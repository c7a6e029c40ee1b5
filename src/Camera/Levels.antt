-- ===== src/Camera/Levels.antt =====
-- What each level of the clean-up releases.
use synchronome.Base.{ℕ, ◌+◌, ◌≡◌, sym, ap, subst, ◌∙◌, List, Option, none, some, length, arith}
use synchronome.Buffer.{Ret, ok, err}
use synchronome.Buffer.Arrays.{IsLive}
use synchronome.Buffer.Allocation.{IsReleased}
use synchronome.Buffer.Single.{IsOwned, deallocate_buffer-IsReleased}
use synchronome.Camera.{
  Video, Mapping, camera_num_buf, close_camera, munmap_camera_buffers,
  camera_deallocate_internal_buffers, cleanup_level_2, freed_both, cleanup_level_3, failed,
}
use synchronome.Camera.Mappings.{AllReleased, AllMapped, munmap_camera_buffers-AllReleased}

-- Every mapping can be given back.
unfoldable pub Closable : ℕ → List Mapping → Type 0
Closable n fb = (fb' : List Mapping) × (munmap_camera_buffers n fb ≡ some fb') × AllReleased fb'

pub length-Closable : (n : ℕ) (fb : List Mapping) → length fb ≡ n → Closable n fb
length-Closable n fb h =
    let (fb', e, r, _) = munmap_camera_buffers-AllReleased fb in
    subst (λ k. Closable k fb) h (unfold Closable in (fb', e, r))

-- What an initialisation comes to: everything is held, or the camera is closed once and no mapping
-- and no buffer is held.
unfoldable pub Settled : Option (Ret × Video) → Type 0
Settled none = ⊥
Settled (some (ok, v)) =
    (v.closes ≡ 0)
    × (v.num_buffers ≡ camera_num_buf)
    × (length v.frame_buffers ≡ v.num_buffers)
    × AllMapped v.frame_buffers
    × IsLive v.wo_buffer.start
    × IsLive v.er_buffer.start
Settled (some (err, v)) =
    (v.closes ≡ 1) × AllReleased v.frame_buffers × IsReleased v.wo_buffer × IsReleased v.er_buffer

pub given_back :
    (v : Video) (fb : List Mapping)
    → munmap_camera_buffers v.num_buffers v.frame_buffers ≡ some fb
    → camera_deallocate_internal_buffers v ≡ some (record v { frame_buffers = fb })
unfolding camera_deallocate_internal_buffers
given_back v fb e =
    ap (λ o. elim o [ none ↦ none | some fb ↦ some (record v { frame_buffers = fb }) ]) e

pub level_2-Settled :
    (v : Video)
    → v.closes ≡ 0
    → Closable v.num_buffers v.frame_buffers
    → IsReleased v.wo_buffer
    → IsReleased v.er_buffer
    → Settled (failed (cleanup_level_2 v))
unfolding cleanup_level_2 close_camera Closable
level_2-Settled v once (fb, e, h) wo er =
    let end : cleanup_level_2 v ≡ some (close_camera (record v { frame_buffers = fb })) =
      ap (λ o. elim o [ none ↦ none | some v' ↦ some (close_camera v') ]) (given_back v fb e) in
    subst (λ o. Settled (failed o)) (sym end)
      (unfold failed Settled in (ap (λ n. n + 1) once ∙ omega arith, h, wo, er))

pub level_3-Settled :
    (v : Video)
    → v.closes ≡ 0
    → Closable v.num_buffers v.frame_buffers
    → IsOwned v.wo_buffer.start
    → IsOwned v.er_buffer.start
    → Settled (failed (cleanup_level_3 v))
unfolding cleanup_level_3 freed_both
level_3-Settled v once shut wo er =
    let (wo', ew, hw) = deallocate_buffer-IsReleased v.wo_buffer wo in
    let (er', ee, he) = deallocate_buffer-IsReleased v.er_buffer er in
    subst (λ o. Settled (failed o))
      (sym (λ i. elim (freed_both v (ew i) (ee i)) [ none ↦ none | some v' ↦ cleanup_level_2 v' ]))
      (level_2-Settled (record v { wo_buffer = wo'; er_buffer = er' }) once shut hw he)
