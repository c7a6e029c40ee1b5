-- ===== src/Transformation/Colour.antt =====
-- The colours of `yuv2rgb` in plain arithmetic.
use synchronome.Base.{ℕ, ◌+◌, ◌-◌, ◌*◌, ◌/◌, ◌≤◌, ◌≡◌, refl, ap, ◌∙◌, min, arith}
use synchronome.Base.Int.{ℤ, pos, negsuc, pos_part, neg_part, ◌+ℤ◌, ◌-ℤ◌, ◌*ℤ◌, int_laws}
use synchronome.Transformation.{shr8, clip, yuv2rgb}

-- A clipped value depends only on how far the integer is above zero.
clip-shr8 : (a : ℤ) → clip (shr8 a) ≡ min 255 ((pos_part a - neg_part a) / 256)
unfolding clip shr8
clip-shr8 (pos n) = ground arith
clip-shr8 (negsuc n) = omega arith

scale_parts :
    (k : ℕ) (a : ℤ)
    → pos_part (pos k *ℤ a) + k * neg_part a ≡ neg_part (pos k *ℤ a) + k * pos_part a
unfolding ◌*ℤ◌
scale_parts k (pos n) = ground arith
scale_parts k (negsuc n) = ground arith

level :
    (z : ℤ) (a b : ℕ) → pos_part z + b ≡ neg_part z + a → clip (shr8 z) ≡ min 255 ((a - b) / 256)
level z a b h =
    let e : pos_part z - neg_part z ≡ a - b = omega (arith, h) in
    clip-shr8 z ∙ ap (λ n. min 255 (n / 256)) e

red_level :
    (y v : ℕ)
    → let z = pos 298 *ℤ (pos y -ℤ pos 16) +ℤ pos 409 *ℤ (pos v -ℤ pos 128) +ℤ pos 128 in
      pos_part z + 57_120 ≡ neg_part z + (298 * y + 409 * v + 128)
red_level y v =
    omega (int_laws, scale_parts 298 (pos y -ℤ pos 16), scale_parts 409 (pos v -ℤ pos 128))

green_level :
    (y u v : ℕ)
    → let z =
        pos 298 *ℤ (pos y -ℤ pos 16)
        -ℤ pos 100 *ℤ (pos u -ℤ pos 128)
        -ℤ pos 208 *ℤ (pos v -ℤ pos 128)
        +ℤ pos 128 in
      pos_part z + (4768 + 100 * u + 208 * v) ≡ neg_part z + (298 * y + 39_552)
green_level y u v = omega (
  int_laws,
  scale_parts 298 (pos y -ℤ pos 16),
  scale_parts 100 (pos u -ℤ pos 128),
  scale_parts 208 (pos v -ℤ pos 128),
)

blue_level :
    (y u : ℕ)
    → let z = pos 298 *ℤ (pos y -ℤ pos 16) +ℤ pos 516 *ℤ (pos u -ℤ pos 128) +ℤ pos 128 in
      pos_part z + 70_816 ≡ neg_part z + (298 * y + 516 * u + 128)
blue_level y u =
    omega (int_laws, scale_parts 298 (pos y -ℤ pos 16), scale_parts 516 (pos u -ℤ pos 128))

-- Each channel is a weighted sum of the luma and chroma bytes less a constant, divided by 256, with
-- results below zero taken for 0 and results above 255 for 255.
pub yuv2rgb_lem :
    (y u v : ℕ)
    → yuv2rgb y u v ≡ (
      min 255 ((298 * y + 409 * v + 128 - 57_120) / 256),
      min 255 ((298 * y + 39_552 - (4768 + 100 * u + 208 * v)) / 256),
      min 255 ((298 * y + 516 * u + 128 - 70_816) / 256),
    )
unfolding yuv2rgb
yuv2rgb_lem y u v = λ i. (
  level _ (298 * y + 409 * v + 128) 57_120 (red_level y v) i,
  level _ (298 * y + 39_552) (4768 + 100 * u + 208 * v) (green_level y u v) i,
  level _ (298 * y + 516 * u + 128) 70_816 (blue_level y u) i,
)

-- With neutral chroma the pixel is grey, black at luma 16 and below, white from luma 235 on, and
-- brighter with the luma.
pub yuv2rgb_grey :
    (y : ℕ)
    → (g : ℕ) × (yuv2rgb y 128 128 ≡ (g, g, g))
      × (g ≡ min 255 ((298 * y + 128 - 4768) / 256))
      × (y ≤ 16 → g ≡ 0)
      × (235 ≤ y → g ≡ 255)
yuv2rgb_grey y =
    let g = min 255 ((298 * y + 128 - 4768) / 256) in
    let red : min 255 ((298 * y + 409 * 128 + 128 - 57_120) / 256) ≡ g = omega arith in
    let green : min 255 ((298 * y + 39_552 - (4768 + 100 * 128 + 208 * 128)) / 256) ≡ g =
      omega arith in
    let blue : min 255 ((298 * y + 516 * 128 + 128 - 70_816) / 256) ≡ g = omega arith in
    (
      g,
      yuv2rgb_lem y 128 128 ∙ (λ i. (red i, green i, blue i)),
      refl,
      (λ h. omega arith),
      (λ h. omega arith),
    )
