-- ===== src/Transformation/Layout.antt =====
-- Where the conversions write: the destination region, and nothing besides.
use mathlib.Core.List.{append_assoc}
use synchronome.Base.{
  ℕ, ◌+◌, ◌-◌, ◌*◌, ◌/◌, ◌≤◌, ◌<◌, ◌≡◌, refl, sym, ap, ap₂, ◌∙◌, min, ltb, List, [], ◌∷◌, ◌++◌,
  length, set, length-append, take, drop, take-append-drop, length-take, length-drop, arith,
  if_then, lt→ltb, if◌then◌else◌,
}
use synchronome.Transformation.Colour.{yuv2rgb_lem}
use synchronome.Transformation.{
  Converted, ok, assertion, overflow, put_all, rgb_pair, rgb_loop, yuv422torgb888, yuv2grey,
  grey_loop, yuv422tog8,
}

-- Red, green and blue of a pixel with luma `y` and chroma `u` and `v`.
abbrev pub pixel : ℕ → ℕ → ℕ → List ℕ
pixel y u v =
    min 255 ((298 * y + 409 * v + 128 - 57_120) / 256)
    ∷ min 255 ((298 * y + 39_552 - (4768 + 100 * u + 208 * v)) / 256)
    ∷ min 255 ((298 * y + 516 * u + 128 - 70_816) / 256)
    ∷ []

-- The two pixels have a luma byte each and share the chroma bytes.
rgb_pair_lem : (y0 cb y1 cr : ℕ) → rgb_pair y0 cb y1 cr ≡ pixel y0 cb cr ++ pixel y1 cb cr
unfolding rgb_pair
rgb_pair_lem y0 cb y1 cr = ap₂ paired (yuv2rgb_lem y0 cb cr) (yuv2rgb_lem y1 cb cr)
  where
    paired : ℕ × ℕ × ℕ → ℕ × ℕ × ℕ → List ℕ
    paired (r, g, b) (r', g', b') = r ∷ g ∷ b ∷ r' ∷ g' ∷ b' ∷ []

-- The pixels of a YUYV image, two for each four bytes.
unfoldable pub rgb_of : List ℕ → List ℕ
rgb_of (y0 ∷ cb ∷ y1 ∷ cr ∷ rest) = (pixel y0 cb cr ++ pixel y1 cb cr) ++ rgb_of rest
rgb_of _ = []

unfoldable pub grey_of : List ℕ → List ℕ
grey_of (y0 ∷ _ ∷ y1 ∷ _ ∷ rest) = y0 ∷ y1 ∷ grey_of rest
grey_of _ = []

set-append :
    (pre post : List ℕ) (x v : ℕ) → set (pre ++ (x ∷ post)) (length pre) v ≡ pre ++ (v ∷ post)
set-append [] post x v = refl
set-append (p ∷ pre) post x v = ap (λ l. p ∷ l) (set-append pre post x v)

-- A run of writes replaces as many bytes.
put_all-append :
    (vs pre hole post : List ℕ) (count : ℕ)
    → count ≡ length pre
    → length hole ≡ length vs
    → put_all vs count (pre ++ (hole ++ post)) ≡ pre ++ (vs ++ post)
unfolding put_all
put_all-append [] pre [] post count e h = refl
put_all-append [] pre (x ∷ hole) post count e h = absurd (omega (arith, h))
put_all-append (v ∷ vs) pre [] post count e h = absurd (omega (arith, h))
put_all-append (v ∷ vs) pre (x ∷ hole) post count e h =
    rw (e, set-append pre (hole ++ post) x v, ← append_assoc pre (v ∷ []) (hole ++ post))
      (put_all-append vs (pre ++ (v ∷ [])) hole post (length pre + 1)
          (omega (arith, length-append pre (v ∷ []))) (omega (arith, h))
        ∙ append_assoc pre (v ∷ []) (vs ++ post))

length-rgb_pair : (a b c d : ℕ) → length (rgb_pair a b c d) ≡ 6
unfolding rgb_pair
length-rgb_pair a b c d = refl

split_at :
    (n : ℕ) (l : List ℕ)
    → n ≤ length l
    → (a b : List ℕ) × (l ≡ a ++ b) × (length a ≡ n) × (length b ≡ length l - n)
split_at n l h = (
  take n l,
  drop n l,
  sym (take-append-drop n l),
  omega (arith, length-take n l),
  length-drop n l,
)

fits_six :
    {later : Converted} (count size : ℕ)
    → count + 5 < size
    → (if ltb count size then (if ltb (count + 5) size then later else overflow) else assertion)
      ≡ later
fits_six count size h = ground arith

rgb_step :
    (y0 cb y1 cr count : ℕ) (rest pre a tail : List ℕ)
    → count ≡ length pre
    → length a ≡ 6
    → rgb_loop (y0 ∷ cb ∷ y1 ∷ cr ∷ rest) count (pre ++ (a ++ tail))
      ≡ rgb_loop rest (count + 6) ((pre ++ rgb_pair y0 cb y1 cr) ++ tail)
unfolding rgb_loop
rgb_step y0 cb y1 cr count rest pre a tail e h =
    fits_six count (length (pre ++ (a ++ tail)))
      (omega (arith, e, h, length-append pre (a ++ tail), length-append a tail))
    ∙ ap (rgb_loop rest (count + 6)) (
        put_all-append (rgb_pair y0 cb y1 cr) pre a tail count e
          (h ∙ sym (length-rgb_pair y0 cb y1 cr))
        ∙ sym (append_assoc pre (rgb_pair y0 cb y1 cr) tail))

rgb_loop_lem :
    (src pre hole post : List ℕ) (count : ℕ)
    → count ≡ length pre
    → length hole ≡ length (rgb_of src)
    → rgb_loop src count (pre ++ (hole ++ post)) ≡ ok (pre ++ (rgb_of src ++ post))
unfolding rgb_of
rgb_loop_lem (y0 ∷ cb ∷ y1 ∷ cr ∷ rest) pre hole post count e h =
    let six = pixel y0 cb cr ++ pixel y1 cb cr in
    let whole = length-append six (rgb_of rest) in
    let six_long : length six ≡ 6 = refl in
    let (a, b, cut, la, lb) = split_at 6 hole (omega (arith, h, whole, six_long)) in
    ap (λ t. rgb_loop (y0 ∷ cb ∷ y1 ∷ cr ∷ rest) count (pre ++ t))
      (ap (λ t. t ++ post) cut ∙ append_assoc a b post)
    ∙ rgb_step y0 cb y1 cr count rest pre a (b ++ post) e la
    ∙ ap (λ l. rgb_loop rest (count + 6) ((pre ++ l) ++ (b ++ post))) (rgb_pair_lem y0 cb y1 cr)
    ∙ rgb_loop_lem rest (pre ++ six) b post (count + 6)
        (omega (arith, length-append pre six, six_long)) (omega (arith, lb, h, whole, six_long))
    ∙ ap ok (
        append_assoc pre six (rgb_of rest ++ post)
        ∙ ap (λ t. pre ++ t) (sym (append_assoc six (rgb_of rest) post)))
rgb_loop_lem [] pre [] post count e h = unfold rgb_loop in refl
rgb_loop_lem (_ ∷ []) pre [] post count e h = unfold rgb_loop in refl
rgb_loop_lem (_ ∷ _ ∷ []) pre [] post count e h = unfold rgb_loop in refl
rgb_loop_lem (_ ∷ _ ∷ _ ∷ []) pre [] post count e h = unfold rgb_loop in refl
rgb_loop_lem [] pre (_ ∷ _) post count e h = absurd (omega (arith, h))
rgb_loop_lem (_ ∷ []) pre (_ ∷ _) post count e h = absurd (omega (arith, h))
rgb_loop_lem (_ ∷ _ ∷ []) pre (_ ∷ _) post count e h = absurd (omega (arith, h))
rgb_loop_lem (_ ∷ _ ∷ _ ∷ []) pre (_ ∷ _) post count e h = absurd (omega (arith, h))

-- Converting into a destination whose region from `offset` on has the size of the converted image
-- replaces exactly that region, by two pixels for each four source bytes Y0 Cb Y1 Cr in order, one
-- with Y0 and one with Y1 and both with Cb and Cr, as red, green and blue: the bytes before the offset and after the region stay, and no assertion fails.
pub yuv422torgb888_lem :
    (src pre hole post : List ℕ)
    → length hole ≡ length (rgb_of src)
    → yuv422torgb888 src (pre ++ (hole ++ post)) (length pre) ≡ ok (pre ++ (rgb_of src ++ post))
unfolding yuv422torgb888
yuv422torgb888_lem src pre hole post h = rgb_loop_lem src pre hole post (length pre) refl h

-- Four source bytes and a destination that ends one to five bytes after the offset: the assertion
-- passes and the conversion writes past the end of the destination.
pub yuv422torgb888_overflow :
    (y0 cb y1 cr : ℕ) (dst : List ℕ) (offset : ℕ)
    → offset < length dst
    → length dst < offset + 6
    → yuv422torgb888 (y0 ∷ cb ∷ y1 ∷ cr ∷ []) dst offset ≡ overflow
unfolding yuv422torgb888 rgb_loop
yuv422torgb888_overflow y0 cb y1 cr dst offset h1 h2 = ground (arith, h1, h2)

grey_step :
    (y0 cb y1 cr count : ℕ) (rest pre a tail : List ℕ)
    → count ≡ length pre
    → length a ≡ 2
    → grey_loop (y0 ∷ cb ∷ y1 ∷ cr ∷ rest) count (pre ++ (a ++ tail))
      ≡ grey_loop rest (count + 2) ((pre ++ (y0 ∷ y1 ∷ [])) ++ tail)
unfolding grey_loop yuv2grey
grey_step y0 cb y1 cr count rest pre a tail e h =
    if_then _ _ (
      lt→ltb (count + 1) (length (pre ++ (a ++ tail)))
        (omega (arith, e, h, length-append pre (a ++ tail), length-append a tail)))
    ∙ ap (grey_loop rest (count + 2)) (
        put_all-append (y0 ∷ y1 ∷ []) pre a tail count e h
        ∙ sym (append_assoc pre (y0 ∷ y1 ∷ []) tail))

grey_loop_lem :
    (src pre hole post : List ℕ) (count : ℕ)
    → count ≡ length pre
    → length hole ≡ length (grey_of src)
    → grey_loop src count (pre ++ (hole ++ post)) ≡ ok (pre ++ (grey_of src ++ post))
unfolding grey_of
grey_loop_lem (y0 ∷ cb ∷ y1 ∷ cr ∷ rest) pre hole post count e h =
    let two = y0 ∷ y1 ∷ [] in
    let (a, b, cut, la, lb) = split_at 2 hole (omega (arith, h)) in
    ap (λ t. grey_loop (y0 ∷ cb ∷ y1 ∷ cr ∷ rest) count (pre ++ t))
      (ap (λ t. t ++ post) cut ∙ append_assoc a b post)
    ∙ grey_step y0 cb y1 cr count rest pre a (b ++ post) e la
    ∙ grey_loop_lem rest (pre ++ two) b post (count + 2) (omega (arith, length-append pre two))
        (omega (arith, lb, h))
    ∙ ap ok (append_assoc pre two (grey_of rest ++ post))
grey_loop_lem [] pre [] post count e h = unfold grey_loop in refl
grey_loop_lem (_ ∷ []) pre [] post count e h = unfold grey_loop in refl
grey_loop_lem (_ ∷ _ ∷ []) pre [] post count e h = unfold grey_loop in refl
grey_loop_lem (_ ∷ _ ∷ _ ∷ []) pre [] post count e h = unfold grey_loop in refl
grey_loop_lem [] pre (_ ∷ _) post count e h = absurd (omega (arith, h))
grey_loop_lem (_ ∷ []) pre (_ ∷ _) post count e h = absurd (omega (arith, h))
grey_loop_lem (_ ∷ _ ∷ []) pre (_ ∷ _) post count e h = absurd (omega (arith, h))
grey_loop_lem (_ ∷ _ ∷ _ ∷ []) pre (_ ∷ _) post count e h = absurd (omega (arith, h))

-- The conversion to grey replaces exactly the region of the destination from `offset` on by the luma
-- bytes of the source, when the region has their number; no assertion fails.
pub yuv422tog8_lem :
    (src pre hole post : List ℕ)
    → length hole ≡ length (grey_of src)
    → yuv422tog8 src (pre ++ (hole ++ post)) (length pre) ≡ ok (pre ++ (grey_of src ++ post))
unfolding yuv422tog8
yuv422tog8_lem src pre hole post h = grey_loop_lem src pre hole post (length pre) refl h
