-- ===== src/Sharpen/Whole.antt =====
-- The filter over a whole camera frame.
use synchronome.Base.{
  ℕ, zero, suc, ◌+◌, ◌*◌, ◌<◌, ◌≤◌, ◌≡◌, refl, ap, ◌∙◌, List, length, length-set, none, some, arith,
  lt→ltb, if_then, set,
}
use synchronome.Base.Int.{ℤ}
use synchronome.Buffer.{frame_size, native_camera_format_size}
use synchronome.Sharpen.{row_sum, clamp, store_pixel, cols_loop, rows_loop, y_channel_sharpen}
use synchronome.Sharpen.Box.{row_sum_lem}

store_pixel-some :
    (place : ℕ) (s : ℤ) (dst : List ℕ)
    → place < length dst
    → store_pixel place (some s) dst ≡ some (set dst place (clamp s))
unfolding store_pixel
store_pixel-some place s dst h = if_then _ _ (lt→ltb place (length dst) h)

next_pixel :
    (bytes : List ℕ) (n index place : ℕ) (dst : List ℕ) (s : ℤ)
    → row_sum bytes index ≡ some s
    → place < length dst
    → cols_loop bytes (suc n) index place dst
      ≡ cols_loop bytes n (index + 2) (place + 1) (set dst place (clamp s))
unfolding cols_loop
next_pixel bytes n index place dst s e h =
    ap (λ o. elim o [ none ↦ none | some d ↦ cols_loop bytes n (index + 2) (place + 1) d ])
      (ap (λ o. store_pixel place o dst) e ∙ store_pixel-some place s dst h)

-- Along a row.
cols_loop_lem :
    (bytes : List ℕ) (n index place : ℕ) (dst : List ℕ)
    → index + 2 * n + 15 ≤ length bytes
    → place + n ≤ length dst
    → (dst' : List ℕ) × (cols_loop bytes n index place dst ≡ some dst') × (length dst' ≡ length dst)
cols_loop_lem bytes zero index place dst hb hd = (dst, unfold cols_loop in refl, refl)
cols_loop_lem bytes (suc n) index place dst hb hd =
    let (s, e, _) = row_sum_lem bytes index (omega (arith, hb)) in
    let write = set dst place (clamp s) in
    let size = length-set dst place (clamp s) in
    let (dst', e', l) =
      cols_loop_lem bytes n (index + 2) (place + 1) write (omega (arith, hb))
        (omega (arith, hd, size)) in
    (dst', next_pixel bytes n index place dst s e (omega (arith, hd)) ∙ e', l ∙ size)

next_row :
    (bytes : List ℕ) (n index place : ℕ) (dst dst' : List ℕ)
    → cols_loop bytes 637 index place dst ≡ some dst'
    → rows_loop bytes (suc n) index place dst ≡ rows_loop bytes n (index + 1280) (place + 640) dst'
unfolding rows_loop
next_row bytes n index place dst dst' e =
    ap (λ o. elim o [ none ↦ none | some d ↦ rows_loop bytes n (index + 1280) (place + 640) d ]) e

rows_loop_lem :
    (bytes : List ℕ) (n index place : ℕ) (dst : List ℕ)
    → index + 1280 * n + 9 ≤ length bytes
    → place + 640 * n ≤ length dst
    → (dst' : List ℕ) × (rows_loop bytes n index place dst ≡ some dst') × (length dst' ≡ length dst)
rows_loop_lem bytes zero index place dst hb hd = (dst, unfold rows_loop in refl, refl)
rows_loop_lem bytes (suc n) index place dst hb hd =
    let (row, e, size) =
      cols_loop_lem bytes 637 index place dst (omega (arith, hb)) (omega (arith, hd)) in
    let (dst', e', l) =
      rows_loop_lem bytes n (index + 1280) (place + 640) row (omega (arith, hb))
        (omega (arith, hd, size)) in
    (dst', next_row bytes n index place dst row e ∙ e', l ∙ size)

-- On a source of a camera frame's size and a destination with room for a grey image after the offset
-- the filter fails no assertion and keeps the size of the destination.
pub y_channel_sharpen_lem :
    (src dst : List ℕ) (offset : ℕ)
    → length src ≡ frame_size * native_camera_format_size
    → offset + frame_size ≤ length dst
    → (dst' : List ℕ) × (y_channel_sharpen src dst offset ≡ some dst') × (length dst' ≡ length dst)
unfolding y_channel_sharpen
y_channel_sharpen_lem src dst offset hs hd =
    rows_loop_lem src 477 0 offset dst (omega (arith, hs)) (omega (arith, hd))
