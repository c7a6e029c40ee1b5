-- ===== src/Sharpen/Box.antt =====
-- The sum that the filter takes at one pixel.
use synchronome.Base.{
  ℕ, zero, suc, ◌+◌, ◌*◌, ◌<◌, ◌≤◌, ◌≡◌, refl, sym, ap, ◌∙◌, List, [], ◌∷◌, length, get_elem?, none,
  some, arith,
}
use synchronome.Base.Int.{ℤ, pos, negsuc, ◌+ℤ◌, ◌*ℤ◌, pos_part, neg_part, int_laws}
use synchronome.Sharpen.{add_product, sum_cols, sum_rows, row_sum, sharpen_flt}

get_elem?-some : (l : List ℕ) (i : ℕ) → i < length l → (v : ℕ) × (get_elem? l i ≡ some v)
get_elem?-some [] i h = absurd (omega (arith, h))
get_elem?-some (x ∷ l) zero h = (x, refl)
get_elem?-some (x ∷ l) (suc i) h = get_elem?-some l i (omega (arith, h))

one_col :
    (bytes : List ℕ) (n index : ℕ) (f : ℤ) (flt : List ℤ) (acc : ℤ) (v : ℕ)
    → get_elem? bytes index ≡ some v
    → sum_cols bytes (suc n) index (f ∷ flt) acc
      ≡ sum_cols bytes n (index + 2) flt (acc +ℤ f *ℤ pos v)
unfolding sum_cols add_product
one_col bytes n index f flt acc v e =
    ap
      (λ o. elim (add_product acc f o) [
        | none ↦ none
        | some s ↦ sum_cols bytes n (index + 2) flt s
      ])
      e

three_cols :
    (bytes : List ℕ) (index : ℕ) (a b c : ℤ) (flt : List ℤ) (acc : ℤ) (x y z : ℕ)
    → get_elem? bytes index ≡ some x
    → get_elem? bytes (index + 2) ≡ some y
    → get_elem? bytes (index + 2 + 2) ≡ some z
    → sum_cols bytes 3 index (a ∷ b ∷ c ∷ flt) acc
      ≡ some (acc +ℤ a *ℤ pos x +ℤ b *ℤ pos y +ℤ c *ℤ pos z, flt)
three_cols bytes index a b c flt acc x y z ex ey ez =
    one_col bytes 2 index a (b ∷ c ∷ flt) acc x ex
    ∙ one_col bytes 1 (index + 2) b (c ∷ flt) (acc +ℤ a *ℤ pos x) y ey
    ∙ one_col bytes 0 (index + 2 + 2) c flt (acc +ℤ a *ℤ pos x +ℤ b *ℤ pos y) z ez
    ∙ unfold sum_cols in refl

rows_on :
    (bytes : List ℕ) (n index : ℕ) (flt rest : List ℤ) (acc sum : ℤ)
    → sum_cols bytes 3 index flt acc ≡ some (sum, rest)
    → sum_rows bytes (suc n) index flt acc ≡ sum_rows bytes n (index + 6) rest sum
unfolding sum_rows
rows_on bytes n index flt rest acc sum e =
    ap (λ o. elim o [ none ↦ none | some p ↦ sum_rows bytes n (index + 6) p.1 p.0 ]) e

times_minus : (v : ℕ) → pos_part (negsuc 0 *ℤ pos v) + v ≡ neg_part (negsuc 0 *ℤ pos v)
unfolding ◌*ℤ◌
times_minus v = ground arith

times_ten : (v : ℕ) → pos_part (pos 10 *ℤ pos v) ≡ neg_part (pos 10 *ℤ pos v) + 10 * v
unfolding ◌*ℤ◌
times_ten v = ground arith

-- The byte at an index within a list.
pub at : List ℕ → ℕ → ℕ
at l i = elim (get_elem? l i) [ none ↦ 0 | some v ↦ v ]

at_lem : (l : List ℕ) (i : ℕ) → i < length l → get_elem? l i ≡ some (at l i)
unfolding at
at_lem l i h =
    let (v, e) = get_elem?-some l i h in
    e ∙ ap some (sym (ap (λ o. elim o [ none ↦ 0 | some v ↦ v ]) e))

-- Nine luma bytes that follow one another in memory.
pub nine : List ℕ → ℕ → ℕ
nine bytes i =
    at bytes i
    + at bytes (i + 2)
    + at bytes (i + 2 + 2)
    + at bytes (i + 6)
    + at bytes (i + 6 + 2)
    + at bytes (i + 6 + 2 + 2)
    + at bytes (i + 6 + 6)
    + at bytes (i + 6 + 6 + 2)
    + at bytes (i + 6 + 6 + 2 + 2)

sums :
    (a b c d e f g h k : ℕ)
    → let one : ℕ → ℤ = λ v. negsuc 0 *ℤ pos v in
      let s1 = pos 0 +ℤ one a +ℤ one b +ℤ one c in
      let s2 = s1 +ℤ one d +ℤ pos 10 *ℤ pos e +ℤ one f in
      let s3 = s2 +ℤ one g +ℤ one h +ℤ one k in
      pos_part s3 + (a + b + c + d + e + f + g + h + k) ≡ neg_part s3 + 11 * e
sums a b c d e f g h k = omega (
  int_laws,
  times_minus a,
  times_minus b,
  times_minus c,
  times_minus d,
  times_ten e,
  times_minus f,
  times_minus g,
  times_minus h,
  times_minus k,
)

-- The filter sums nine luma bytes that follow one another in memory, not a box of three rows: in
-- halves, eleven times the middle one less all nine. It fails no assertion where the nine are within
-- the source.
pub row_sum_lem :
    (bytes : List ℕ) (i : ℕ)
    → i + 17 ≤ length bytes
    → (s : ℤ) × (row_sum bytes i ≡ some s)
      × (pos_part s + nine bytes i ≡ neg_part s + 11 * at bytes (i + 6 + 2))
unfolding row_sum nine
row_sum_lem bytes i h =
    let get : (k : ℕ) → k < i + 17 → get_elem? bytes k ≡ some (at bytes k) =
      λ k hk. at_lem bytes k (omega (arith, h, hk)) in
    let one = negsuc 0 in
    let ones : List ℤ = one ∷ one ∷ one ∷ [] in
    let middle : List ℤ = one ∷ pos 10 ∷ one ∷ ones in
    let times : ℤ → ℕ → ℤ = λ f k. f *ℤ pos (at bytes k) in
    let s1 = pos 0 +ℤ times one i +ℤ times one (i + 2) +ℤ times one (i + 2 + 2) in
    let s2 = s1 +ℤ times one (i + 6) +ℤ times (pos 10) (i + 6 + 2) +ℤ times one (i + 6 + 2 + 2) in
    let first =
      three_cols bytes i one one one middle (pos 0) _ _ _ (get i (omega arith))
        (get (i + 2) (omega arith)) (get (i + 2 + 2) (omega arith)) in
    let second =
      three_cols bytes (i + 6) one (pos 10) one ones s1 _ _ _ (get (i + 6) (omega arith))
        (get (i + 6 + 2) (omega arith)) (get (i + 6 + 2 + 2) (omega arith)) in
    let third =
      three_cols bytes (i + 6 + 6) one one one [] s2 _ _ _ (get (i + 6 + 6) (omega arith))
        (get (i + 6 + 6 + 2) (omega arith)) (get (i + 6 + 6 + 2 + 2) (omega arith)) in
    (
      _,
      rows_on bytes 2 i sharpen_flt middle (pos 0) _ first
          ∙ rows_on bytes 1 (i + 6) middle ones _ _ second
          ∙ rows_on bytes 0 (i + 6 + 6) ones [] _ _ third
          ∙ unfold sum_rows in refl,
      sums (at bytes i) (at bytes (i + 2)) (at bytes (i + 2 + 2)) (at bytes (i + 6))
          (at bytes (i + 6 + 2)) (at bytes (i + 6 + 2 + 2)) (at bytes (i + 6 + 6))
          (at bytes (i + 6 + 6 + 2)) (at bytes (i + 6 + 6 + 2 + 2)),
    )
