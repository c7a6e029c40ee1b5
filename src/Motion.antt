-- ===== src/Motion.antt =====
-- simple-capture/motion.c and motion.h: the tick detector.
-- The file's globals are one record. A C `int` used as a flag is a Bool.
mod Tests
pub mod Machine
pub mod Frames
use synchronome.Base.{
  ℕ, ◌+◌, ◌-◌, ◌*◌, Bool, true, false, ltb, ◌==◌, if◌then◌else◌, List, [], ◌∷◌, Option, none, some,
  length,
}

-- MOTION_STATE_START, _SEARCHING, _BOOKEND and _COUNTING
pub data State : Type 0 where
  start searching bookend counting : State

-- MOTION_NONE, MOTION_IGNORE and MOTION_DETECTED
pub data Verdict : Type 0 where
  quiet ignore detected : Verdict

abbrev pub motion_sensitivity : ℕ
motion_sensitivity = 35

abbrev pub motion_threshold : ℕ
motion_threshold = 50

abbrev pub motion_bookend_frames : ℕ
motion_bookend_frames = 3

-- The value with MODE_ALWAYS_DETECT_FRAME off, as setup.h has it.
abbrev pub motion_good_frames_threshold : ℕ
motion_good_frames_threshold = 9

pub record Motion : Type 0 where
  pub motion_state : State
  pub bookend_frames : ℕ
  pub good_frames_in_a_row : ℕ

-- The globals' initial values.
abbrev pub initial : Motion
initial = record { motion_state = searching; bookend_frames = 0; good_frames_in_a_row = 0 }

pub set_state_searching : Motion → Motion
set_state_searching m = record m { motion_state = searching; good_frames_in_a_row = 0 }

-- The end of the MOTION_STATE_COUNTING case.
settle : Motion → Verdict × Motion
settle m =
    if ltb motion_good_frames_threshold m.good_frames_in_a_row
    then (detected, record m { motion_state = searching; good_frames_in_a_row = 0 })
    else (quiet, m)

-- One case of the switch for each state; MOTION_STATE_START has none.
next_from : State → Bool → Motion → Verdict × Motion
unfolding settle
next_from start changed m = (quiet, m)
next_from searching changed m =
    (quiet, (if changed then record m { motion_state = bookend } else m))
next_from bookend changed m = (
  quiet,
  (if m.bookend_frames + 1 == motion_bookend_frames
      then record m { bookend_frames = 0; motion_state = counting }
      else record m { bookend_frames = m.bookend_frames + 1 }),
)
next_from counting changed m = settle (
    if changed
    then record m { motion_state = searching; good_frames_in_a_row = 0 }
    else record m { good_frames_in_a_row = m.good_frames_in_a_row + 1 })

unfoldable pub next_motion_state : Bool → Motion → Verdict × Motion
unfolding next_from
next_motion_state changed m = next_from m.motion_state changed m

unfoldable pub is_motion : ℕ → Motion → Verdict × Motion
is_motion count m = next_motion_state (ltb motion_threshold count) m

-- `abs(*f - *s)` of two bytes
pub byte_diff : ℕ → ℕ → ℕ
byte_diff f s = if ltb f s then s - f else f - s

-- The loop over `first->size / 2` pairs: the Y byte is compared, the U or V byte is skipped.
pub count_luma : List ℕ → List ℕ → ℕ → ℕ
unfolding byte_diff
count_luma (f ∷ _ ∷ fs) (s ∷ _ ∷ ss) count =
    count_luma fs ss (if ltb motion_sensitivity (byte_diff f s) then count + 1 else count)
count_luma _ _ count = count

-- `none` is a failed assertion: a buffer with no memory, or two sizes.
unfoldable pub frame_changes : Option (List ℕ) → Option (List ℕ) → Option ℕ
frame_changes (some f) (some s) = if length f == length s then some (count_luma f s 0) else none
frame_changes _ _ = none

-- `none` is a read past the buffers, which happens if their size is no multiple of three.
pub count_rgb : List ℕ → List ℕ → ℕ → Option ℕ
unfolding byte_diff
count_rgb [] _ count = some count
count_rgb (fr ∷ fg ∷ fb ∷ fs) (sr ∷ sg ∷ sb ∷ ss) count =
    let diff_total = byte_diff fr sr + byte_diff fg sg + byte_diff fb sb in
    count_rgb fs ss (if ltb (motion_sensitivity * 3) diff_total then count + 1 else count)
count_rgb _ _ count = none

unfoldable pub frame_changes_rgb : Option (List ℕ) → Option (List ℕ) → Option ℕ
frame_changes_rgb (some f) (some s) = if length f == length s then count_rgb f s 0 else none
frame_changes_rgb _ _ = none
