-- ===== src/Sharpen.antt =====
-- simple-capture/sharpen.c: `y_channel_sharpen`, which filters the luma of a YUYV image.
-- The filter is the one setup.h selects; its coefficients are counted in halves, in which the float
-- sums are exact.
mod Tests
pub mod Box
pub mod Whole
use synchronome.Base.{
  ℕ, zero, suc, ◌+◌, ◌-◌, ◌*◌, ◌/◌, ltb, if◌then◌else◌, List, [], ◌∷◌, length, set, get_elem?,
  Option, none, some,
}
use synchronome.Base.Int.{ℤ, pos, negsuc, ◌+ℤ◌, ◌*ℤ◌}
use synchronome.Buffer.{x_res, y_res}

abbrev pub sharpen_rows : ℕ
sharpen_rows = 3

abbrev pub sharpen_cols : ℕ
sharpen_cols = 3

abbrev pub yuyv_sample : ℕ
yuyv_sample = 2

-- SHARPEN_PROFESSOR_EXAMPLE, in halves.
abbrev pub sharpen_flt : List ℤ
sharpen_flt =
    negsuc 0
    ∷ negsuc 0
    ∷ negsuc 0
    ∷ negsuc 0
    ∷ pos 10
    ∷ negsuc 0
    ∷ negsuc 0
    ∷ negsuc 0
    ∷ negsuc 0
    ∷ []

-- One `row_sum += …`; `none` is a failed assertion on the index.
pub add_product : ℤ → ℤ → Option ℕ → Option ℤ
add_product acc f none = none
add_product acc f (some v) = some (acc +ℤ f *ℤ pos v)

-- The loop on `l`, with what is left of the filter.
pub sum_cols : List ℕ → ℕ → ℕ → List ℤ → ℤ → Option (ℤ × List ℤ)
unfolding add_product
sum_cols bytes zero index flt acc = some (acc, flt)
sum_cols bytes (suc n) index [] acc = none
sum_cols bytes (suc n) index (f ∷ flt) acc = elim (add_product acc f (get_elem? bytes index)) [
  | none ↦ none
  | some sum ↦ sum_cols bytes n (index + yuyv_sample) flt sum
]

-- The loop on `k`.
pub sum_rows : List ℕ → ℕ → ℕ → List ℤ → ℤ → Option ℤ
unfolding sum_cols
sum_rows bytes zero index flt acc = some acc
sum_rows bytes (suc n) index flt acc = elim (sum_cols bytes sharpen_cols index flt acc) [
  | none ↦ none
  | some p ↦ sum_rows bytes n (index + sharpen_rows * yuyv_sample) p.1 p.0
]

pub row_sum : List ℕ → ℕ → Option ℤ
unfolding sum_rows
row_sum bytes index = sum_rows bytes sharpen_rows index sharpen_flt (pos 0)

-- The clamping and the conversion to `uint8_t`, of a number of halves.
pub clamp : ℤ → ℕ
clamp (negsuc n) = 0
clamp (pos n) = if ltb 510 n then 255 else n / 2

-- The assertion on the place, and the write.
pub store_pixel : ℕ → Option ℤ → List ℕ → Option (List ℕ)
unfolding clamp
store_pixel place none dst = none
store_pixel place (some sum) dst =
    if ltb place (length dst) then some (set dst place (clamp sum)) else none

-- The loop on `j`, from the byte and the place of the next pixel on.
pub cols_loop : List ℕ → ℕ → ℕ → ℕ → List ℕ → Option (List ℕ)
unfolding row_sum store_pixel
cols_loop bytes zero index place dst = some dst
cols_loop bytes (suc n) index place dst = elim (store_pixel place (row_sum bytes index) dst) [
  | none ↦ none
  | some dst' ↦ cols_loop bytes n (index + yuyv_sample) (place + 1) dst'
]

-- The loop on `i`.
pub rows_loop : List ℕ → ℕ → ℕ → ℕ → List ℕ → Option (List ℕ)
unfolding cols_loop
rows_loop bytes zero index place dst = some dst
rows_loop bytes (suc n) index place dst =
    elim (cols_loop bytes (x_res - sharpen_cols) index place dst) [
      | none ↦ none
      | some dst' ↦ rows_loop bytes n (index + x_res * yuyv_sample) (place + x_res) dst'
    ]

pub y_channel_sharpen : List ℕ → List ℕ → ℕ → Option (List ℕ)
unfolding rows_loop
y_channel_sharpen src dst offset = rows_loop src (y_res - sharpen_rows) 0 offset dst
