-- ===== src/Verify/Check.antt =====
-- simple-capture/wcet/verify_frames.c: the check of each image against the one before it.
use synchronome.Base.{
  ℕ, zero, suc, ◌+◌, ◌*◌, ◌/◌, ◌%◌, Bool, ltb, ◌==◌, ◌&&◌, ◌||◌, if◌then◌else◌, List, [], ◌∷◌,
  Option, none, some,
}
use synchronome.Base.Int.{pos, pos_part, ltb_ℤ}
use synchronome.Timetools.{Timespec, timespec_subtract}
use synchronome.Buffer.{Buffer, Memory, null, live, freed}
use synchronome.Motion.{frame_changes_rgb}

abbrev pub one_second : Timespec
one_second = record { tv_sec = pos 1; tv_nsec = pos 0 }

-- The sign that is printed before the jitter.
pub data Sign : Type 0 where
  plus minus : Sign

-- How far a difference is from one second.
unfoldable pub jitter_of : Timespec → Sign × Timespec
jitter_of diff_time =
    if ltb_ℤ diff_time.tv_sec (pos 1)
    then (minus, (timespec_subtract one_second diff_time).0)
    else (plus, (timespec_subtract diff_time one_second).0)

-- The distance of neighbouring `float`s, whose significand has 24 bits, at a number below 2^31.
unfoldable pub spacing : ℕ → ℕ
spacing n =
    if ltb n 0x1000000
    then 1
    else if ltb n 0x2000000
    then 2
    else if ltb n 0x4000000
    then 4
    else if ltb n 0x8000000
    then 8
    else if ltb n 0x10000000
    then 16
    else if ltb n 0x20000000
    then 32
    else if ltb n 0x40000000
    then 64
    else 128

-- The multiple of `u` that is nearest to `n`, the even multiple when two are.
unfoldable pub nearest : ℕ → ℕ → ℕ
nearest zero n = n
nearest (suc u) n =
    let q = n / suc u in
    let r = n % suc u in
    if ltb (2 * r) (suc u) || (2 * r == suc u) && (q % 2 == 0) then q * suc u else (q + 1) * suc u

-- A `long` below 2^31 as the `float` that it is compared as.
unfoldable pub to_float : ℕ → ℕ
unfolding spacing nearest
to_float n = nearest (spacing n) n

-- The mark "*j". The limit is the whole part of the `float` of nanoseconds; a normalised time has
-- nanoseconds that are not negative, and others are taken for 0.
unfoldable pub is_jitter : ℕ → Timespec → Bool
is_jitter jitter_limit jitter_time =
    ltb_ℤ (pos 0) jitter_time.tv_sec || ltb jitter_limit (to_float (pos_part jitter_time.tv_nsec))

-- What is printed of a pair of images; `same` is the mark "*same?".
pub record Line : Type 0 where
  pub changed_pixels : ℕ
  pub diff_time : Timespec
  pub sign : Sign
  pub jitter_time : Timespec
  pub jitter : Bool
  pub same : Bool

unfoldable pub bytes_of : Memory → Option (List ℕ)
bytes_of null = none
bytes_of (live bytes) = some bytes
bytes_of freed = none

-- The line of a pair, from the number of pixels that changed; the subtraction updates the time of the
-- earlier image.
line_of : ℕ → ℕ → Buffer → Buffer → ℕ → Line
line_of frame_limit jitter_limit last current changed =
    let diff_time = (timespec_subtract current.time last.time).0 in
    let (sign, jitter_time) = jitter_of diff_time in
    record {
      changed_pixels = changed;
      diff_time = diff_time;
      sign = sign;
      jitter_time = jitter_time;
      jitter = is_jitter jitter_limit jitter_time;
      same = ltb changed frame_limit;
    }

unfoldable pub told : ℕ → ℕ → Buffer → Buffer → Option ℕ → Option (Line × Buffer)
unfolding line_of
told frame_limit jitter_limit last current none = none
told frame_limit jitter_limit last current (some changed) = some (
  line_of frame_limit jitter_limit last current changed,
  record last { time = (timespec_subtract current.time last.time).2 },
)

-- A pair, the earlier image first; `none` is a failed assertion or a read past the images.
unfoldable pub check_pair : ℕ → ℕ → Buffer → Buffer → Option (Line × Buffer)
unfolding bytes_of told
check_pair frame_limit jitter_limit last current =
    told frame_limit jitter_limit last current
      (frame_changes_rgb (bytes_of last.start) (bytes_of current.start))

-- The lines of a pair and of the later ones, and the images with their updated times.
unfoldable pub beside :
    Option (Line × Buffer) → Option (List Line × List Buffer) → Option (List Line × List Buffer)
beside (some (line, b)) (some (lines, bs)) = some (line ∷ lines, b ∷ bs)
beside none later = none
beside (some pair) none = none

-- The loop from the image behind `last` on.
unfoldable pub check_from : ℕ → ℕ → Buffer → List Buffer → Option (List Line × List Buffer)
unfolding beside
check_from frame_limit jitter_limit last [] = some ([], last ∷ [])
check_from frame_limit jitter_limit last (current ∷ rest) =
    beside (check_pair frame_limit jitter_limit last current)
      (check_from frame_limit jitter_limit current rest)
