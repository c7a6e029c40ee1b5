-- ===== src/Transformation.antt =====
-- simple-capture/transformation.c and transformation.h: the camera's YUYV to RGB and to grey.
-- `>>` on a negative `int` is the arithmetic shift of gcc.
pub mod Colour
pub mod Dump
pub mod Layout
mod Tests
use synchronome.Base.{
  ℕ, suc, ◌+◌, ◌*◌, ◌/◌, ltb, leb, Bool, Option, none, some, take, if◌then◌else◌, List, [], ◌∷◌,
  ◌++◌, length, set,
}
use synchronome.Buffer.{Buffer, Memory, live, copy_buffer_timestamp}
use synchronome.Dumptools.{Disk, ppm_buffer, debug_none, dump_raw_buffer_with_header}
use synchronome.Base.Int.{ℤ, pos, negsuc, ◌+ℤ◌, ◌-ℤ◌, ◌*ℤ◌}

pub shr8 : ℤ → ℤ
shr8 (pos n) = pos (n / 256)
shr8 (negsuc n) = negsuc (n / 256)

-- Computed values may need clipping.
pub clip : ℤ → ℕ
clip (pos n) = if ltb 255 n then 255 else n
clip (negsuc n) = 0

-- The arguments are bytes, widened to `int`; the result is *r, *g and *b.
unfoldable pub yuv2rgb : ℕ → ℕ → ℕ → ℕ × ℕ × ℕ
unfolding clip shr8
yuv2rgb y u v =
    let c = pos y -ℤ pos 16 in
    let d = pos u -ℤ pos 128 in
    let e = pos v -ℤ pos 128 in
    (
      clip (shr8 (pos 298 *ℤ c +ℤ pos 409 *ℤ e +ℤ pos 128)),
      clip (shr8 (pos 298 *ℤ c -ℤ pos 100 *ℤ d -ℤ pos 208 *ℤ e +ℤ pos 128)),
      clip (shr8 (pos 298 *ℤ c +ℤ pos 516 *ℤ d +ℤ pos 128)),
    )

unfoldable pub yuv2grey : ℕ → ℕ
yuv2grey y = y

-- A conversion ends with the bytes of the destination, at a failed assertion, or by a write past the
-- destination.
pub data Converted : Type 0 where
  ok : List ℕ → Converted
  assertion : Converted
  overflow : Converted

-- `dest[count + k] = …` for the bytes of a list.
pub put_all : List ℕ → ℕ → List ℕ → List ℕ
put_all [] count dest = dest
put_all (v ∷ vs) count dest = put_all vs (count + 1) (set dest count v)

-- The six bytes of two pixels.
unfoldable pub rgb_pair : ℕ → ℕ → ℕ → ℕ → List ℕ
rgb_pair y0 cb y1 cr =
    let (r, g, b) = yuv2rgb y0 cb cr in
    let (r', g', b') = yuv2rgb y1 cb cr in r ∷ g ∷ b ∷ r' ∷ g' ∷ b' ∷ []

-- The loop over the source, four bytes a round; the last bytes, fewer than four, are skipped.
rgb_loop : List ℕ → ℕ → List ℕ → Converted
unfolding put_all
rgb_loop (y0 ∷ cb ∷ y1 ∷ cr ∷ rest) count dest =
    let later = rgb_loop rest (count + 6) (put_all (rgb_pair y0 cb y1 cr) count dest) in
    if ltb count (length dest)
    then (if ltb (count + 5) (length dest) then later else overflow)
    else assertion
rgb_loop _ count dest = ok dest

pub yuv422torgb888 : List ℕ → List ℕ → ℕ → Converted
unfolding rgb_loop
yuv422torgb888 src dst offset = rgb_loop src offset dst

grey_loop : List ℕ → ℕ → List ℕ → Converted
unfolding put_all
grey_loop (y0 ∷ _ ∷ y1 ∷ _ ∷ rest) count dest =
    let later = grey_loop rest (count + 2) (put_all (yuv2grey y0 ∷ yuv2grey y1 ∷ []) count dest) in
    if ltb (count + 1) (length dest) then later else assertion
grey_loop _ count dest = ok dest

pub yuv422tog8 : List ℕ → List ℕ → ℕ → Converted
unfolding grey_loop
yuv422tog8 src dst offset = grey_loop src offset dst

-- The conversion of one buffer into another, with the image format the build selects. `none` is a
-- failed assertion, a bad pointer or an access past the memory.
converted : Converted → Buffer → Option Buffer
converted (ok bytes) out = some (record out { start = live bytes })
converted assertion out = none
converted overflow out = none

into : Memory → ℕ → Memory → Buffer → Option Buffer
unfolding converted
into (live src) size (live dest) out =
    if leb size (length src) then converted (yuv422torgb888 (take size src) dest 0) out else none
into from size to out = none

dumped : Bool → ℕ → Option Buffer → Buffer → Disk → Option (Buffer × Disk)
dumped reply type none b d = none
dumped reply type (some image) b d =
    let out = record (copy_buffer_timestamp image b) { id = b.id } in
    elim (dump_raw_buffer_with_header reply out type debug_none d) [
      | none ↦ none
      | some d' ↦ some (out, d')
    ]

-- With PPM_CAPTURE and neither SHARPEN_ON nor PROFILE_FRAMES. The size of a buffer is the size of its
-- memory, which is what `yuv422torgb888` asserts with; both callers pass `wo_buffer` as `out`.
unfoldable pub do_transformations : Bool → Buffer → Buffer → Disk → Option (Buffer × Disk)
unfolding into dumped
do_transformations reply b wo_buffer d =
    dumped reply ppm_buffer (into b.start b.size wo_buffer.start wo_buffer) b d
