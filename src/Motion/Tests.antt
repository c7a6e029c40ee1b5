-- ===== src/Motion/Tests.antt =====
-- Runs of the tick detector and of the frame comparisons, and their theorems at concrete frames.
use synchronome.Base.{
  ℕ, ◌≤◌, ◌≡◌, ◌↔◌, ◌<◌, refl, Bool, true, false, List, [], ◌∷◌, ◌++◌, replicate, some,
}
use synchronome.Motion.{
  detected, initial, next_motion_state, is_motion, count_luma, byte_diff, frame_changes,
  motion_bookend_frames, motion_good_frames_threshold,
}
use synchronome.Motion.Machine.{after, Ticked, detected-Ticked, after_counts}
use synchronome.Motion.Frames.{count_below, luma_differs, frame_changes_lem}

-- A change, three frames, nine still frames.
abbrev tick : List Bool
tick = replicate 9 false ++ (true ∷ false ∷ true ∷ true ∷ [])

tick_detected :
    ((next_motion_state false (after tick)).0 ≡ detected)
    × ((next_motion_state false (after tick)).1 ≡ initial)
unfolding next_motion_state after
tick_detected = (refl, refl)

tick_by_pixels : (is_motion 50 (after tick)).0 ≡ detected
unfolding is_motion next_motion_state after
tick_by_pixels = refl

detected-Ticked_example :
    ((next_motion_state false (after tick)).0 ≡ detected) ↔ Ticked (false ∷ tick)
detected-Ticked_example = detected-Ticked false tick

after_counts_example :
    ((after tick).bookend_frames < motion_bookend_frames)
    × ((after tick).good_frames_in_a_row ≤ motion_good_frames_threshold)
after_counts_example = after_counts tick

-- Two pixels: the first's luma jumps by 40, the second's chroma changes.
abbrev dark : List ℕ
dark = 10 ∷ 128 ∷ 20 ∷ 128 ∷ []

abbrev light : List ℕ
light = 50 ∷ 128 ∷ 20 ∷ 9 ∷ []

dark-light : frame_changes (some dark) (some light) ≡ some 1
unfolding frame_changes count_luma byte_diff
dark-light = refl

frame_changes_lem_example :
    frame_changes (some dark) (some light) ≡ some (count_below 2 (luma_differs dark light))
frame_changes_lem_example = frame_changes_lem dark light refl
