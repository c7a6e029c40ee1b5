-- ===== src/Transformation/Tests.antt =====
-- One pair of pixels, in a destination of twelve bytes and in one of five.
use synchronome.Base.{ℕ, ◌/◌, ◌+◌, ◌*◌, ◌-◌, min, arith, ◌≡◌, refl, List, [], ◌∷◌, ◌++◌}
use synchronome.Transformation.{ok, overflow, rgb_pair, yuv422torgb888}
use synchronome.Transformation.Layout.{rgb_of, yuv422torgb888_lem, yuv422torgb888_overflow}
use synchronome.Transformation.Colour.{yuv2rgb_lem}
use synchronome.Transformation.{yuv2rgb}

abbrev pair : List ℕ
pair = 16 ∷ 128 ∷ 235 ∷ 128 ∷ []

abbrev six : List ℕ
six = 1 ∷ 2 ∷ 3 ∷ 4 ∷ 5 ∷ 6 ∷ []

abbrev around : List ℕ
around = 7 ∷ 8 ∷ []

yuv422torgb888_lem_example :
    yuv422torgb888 pair (around ++ (six ++ around)) 2 ≡ ok (around ++ (rgb_of pair ++ around))
yuv422torgb888_lem_example =
    yuv422torgb888_lem pair around six around (unfold rgb_of rgb_pair in refl)

yuv422torgb888_overflow_example : yuv422torgb888 pair (1 ∷ 2 ∷ 3 ∷ 4 ∷ 5 ∷ []) 0 ≡ overflow
yuv422torgb888_overflow_example =
    yuv422torgb888_overflow 16 128 235 128 (1 ∷ 2 ∷ 3 ∷ 4 ∷ 5 ∷ []) 0 (omega arith) (omega arith)

yuv2rgb_lem_example : yuv2rgb 81 90 240 ≡ (
  min 255 ((298 * 81 + 409 * 240 + 128 - 57_120) / 256),
  min 255 ((298 * 81 + 39_552 - (4768 + 100 * 90 + 208 * 240)) / 256),
  min 255 ((298 * 81 + 516 * 90 + 128 - 70_816) / 256),
)
yuv2rgb_lem_example = yuv2rgb_lem 81 90 240
