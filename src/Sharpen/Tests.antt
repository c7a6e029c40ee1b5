-- ===== src/Sharpen/Tests.antt =====
-- A row sum on 17 bytes, and a frame of zeros.
use synchronome.Base.{zero, suc, refl, ap, ℕ, ◌+◌, ◌*◌, ◌≡◌, List, [], ◌∷◌, some, length, arith}
use synchronome.Base.Int.{ℤ, pos_part, neg_part}
use synchronome.Sharpen.{row_sum, y_channel_sharpen}
use synchronome.Sharpen.Box.{at, nine, row_sum_lem}
use synchronome.Sharpen.Whole.{y_channel_sharpen_lem}

abbrev bright : List ℕ
bright = 1 ∷ 0 ∷ 2 ∷ 0 ∷ 3 ∷ 0 ∷ 4 ∷ 0 ∷ 90 ∷ 0 ∷ 6 ∷ 0 ∷ 7 ∷ 0 ∷ 8 ∷ 0 ∷ 9 ∷ []

row_sum_lem_example :
    (s : ℤ) × (row_sum bright 0 ≡ some s)
    × (pos_part s + nine bright 0 ≡ neg_part s + 11 * at bright (0 + 6 + 2))
row_sum_lem_example = row_sum_lem bright 0 (omega arith)

-- A list of equal bytes, which the check of a test never writes out.
filled : ℕ → List ℕ
filled zero = []
filled (suc n) = 7 ∷ filled n

length-filled : (n : ℕ) → length (filled n) ≡ n
unfolding filled
length-filled zero = refl
length-filled (suc n) = ap suc (length-filled n)

y_channel_sharpen_lem_example :
    (dst' : List ℕ) × (y_channel_sharpen (filled 614_400) (filled 307_200) 0 ≡ some dst')
    × (length dst' ≡ length (filled 307_200))
y_channel_sharpen_lem_example =
    y_channel_sharpen_lem (filled 614_400) (filled 307_200) 0 (length-filled 614_400)
      (omega (arith, length-filled 307_200))
