-- ===== src/Motion/Frames.antt =====
-- The frame comparisons `frame_changes` and `frame_changes_RGB`.
use synchronome.Base.{
  ℕ, zero, suc, ◌+◌, ◌*◌, ◌/◌, ◌%◌, ◌≤◌, ◌≡◌, refl, sym, ap, subst, ◌≢◌, ◌⊎◌, ◌∙◌, inl, inr, Bool,
  ltb, ◌||◌, if◌then◌else◌, List, [], ◌∷◌, length, get_or, Option, none, some, arith,
}
use synchronome.Motion.{
  motion_sensitivity, byte_diff, count_luma, frame_changes, count_rgb, frame_changes_rgb,
}

-- How many of the first `n` pixels `i` satisfy a test.
pub count_below : ℕ → (ℕ → Bool) → ℕ
count_below zero p = 0
count_below (suc n) p = (if p 0 then 1 else 0) + count_below n (λ i. p (i + 1))

abbrev pub differ : ℕ → ℕ → Bool
differ a b = ltb (b + motion_sensitivity) a || ltb (a + motion_sensitivity) b

-- Pixel `i`'s luma byte is above or below the other frame's by more than the sensitivity.
abbrev pub luma_differs : List ℕ → List ℕ → ℕ → Bool
luma_differs f s i = differ (get_or f (2 * i) 0) (get_or s (2 * i) 0)

byte_diff_lem : (a b : ℕ) → ltb motion_sensitivity (byte_diff a b) ≡ differ a b
unfolding byte_diff
byte_diff_lem a b = ground arith

luma_differs_comm : (f s : List ℕ) (i : ℕ) → luma_differs s f i ≡ luma_differs f s i
luma_differs_comm f s i = ground arith

count_below_ext :
    (n : ℕ) (p q : ℕ → Bool) → ((i : ℕ) → p i ≡ q i) → count_below n p ≡ count_below n q
unfolding count_below
count_below_ext zero p q h = refl
count_below_ext (suc n) p q h =
    ground (arith, h 0, count_below_ext n (λ i. p (i + 1)) (λ i. q (i + 1)) (λ i. h (i + 1)))

count_below-le : (n : ℕ) (p : ℕ → Bool) → count_below n p ≤ n
unfolding count_below
count_below-le zero p = omega arith
count_below-le (suc n) p = ground (arith, count_below-le n (λ i. p (i + 1)))

luma_shift :
    (f f' s s' : ℕ) (fs ss : List ℕ) (i : ℕ)
    → luma_differs (f ∷ f' ∷ fs) (s ∷ s' ∷ ss) (i + 1) ≡ luma_differs fs ss i
luma_shift f f' s s' fs ss i = let e : 2 * (i + 1) ≡ suc (suc (2 * i)) = omega arith in rw e

count_luma-count_below :
    (f s : List ℕ) (count : ℕ)
    → length f ≡ length s
    → count_luma f s count ≡ count + count_below (length f / 2) (luma_differs f s)
unfolding count_luma count_below
count_luma-count_below [] s count e = omega arith
count_luma-count_below (_ ∷ []) s count e = omega arith
count_luma-count_below (f ∷ f' ∷ fs) (s ∷ s' ∷ ss) count e =
    let half : suc (suc (length fs)) / 2 ≡ suc (length fs / 2) = omega arith in
    let differs = luma_differs (f ∷ f' ∷ fs) (s ∷ s' ∷ ss) in
    rw half (
      ground (
        arith,
        byte_diff_lem f s,
        count_luma-count_below fs ss (if differs 0 then count + 1 else count),
        count_below_ext (length fs / 2) (λ i. differs (i + 1)) (luma_differs fs ss)
            (luma_shift f f' s s' fs ss),
      ))
count_luma-count_below (f ∷ _ ∷ fs) (s ∷ []) count e = absurd (omega (arith, e))
count_luma-count_below (f ∷ _ ∷ fs) [] count e = absurd (omega (arith, e))

-- On two buffers of one size `frame_changes` returns, and its result is the number of pixels whose
-- luma bytes, at the even offsets, differ by more than the sensitivity, either way.
pub frame_changes_lem :
    (f s : List ℕ)
    → length f ≡ length s
    → frame_changes (some f) (some s) ≡ some (count_below (length f / 2) (luma_differs f s))
unfolding frame_changes
frame_changes_lem f s e = ground (arith, count_luma-count_below f s 0 e)

-- So it is at most the number of pixels, and the order of the two frames does not matter.
pub frame_changes_bounds :
    (f s : List ℕ)
    → length f ≡ length s
    → (n : ℕ) × (frame_changes (some f) (some s) ≡ some n)
      × (frame_changes (some s) (some f) ≡ some n)
      × (n ≤ length f / 2)
frame_changes_bounds f s e = (
  count_below (length f / 2) (luma_differs f s),
  frame_changes_lem f s e,
  frame_changes_lem s f (sym e)
      ∙ ap some (
          rw (← e) (
            count_below_ext (length f / 2) (luma_differs s f) (luma_differs f s)
              (luma_differs_comm f s))),
  count_below-le (length f / 2) (luma_differs f s),
)

abbrev RgbResult : List ℕ → ℕ → Option ℕ → Type 0
RgbResult f count none = (length f % 3 ≡ 0) → ⊥
RgbResult f count (some n) = (length f % 3 ≡ 0) × (n ≤ count + length f / 3)

RgbResult-cons :
    (a b c : ℕ) (fs : List ℕ) (count count' : ℕ) (r : Option ℕ)
    → count' ≤ count + 1
    → RgbResult fs count' r
    → RgbResult (a ∷ b ∷ c ∷ fs) count r
RgbResult-cons a b c fs count count' none h x = λ e. x (omega arith)
RgbResult-cons a b c fs count count' (some n) h x = omega arith

count_rgb-RgbResult :
    (f s : List ℕ) (count : ℕ) → length f ≡ length s → RgbResult f count (count_rgb f s count)
unfolding count_rgb
count_rgb-RgbResult [] s count e = omega arith
count_rgb-RgbResult (f ∷ []) s count e = omega arith
count_rgb-RgbResult (f ∷ g ∷ []) s count e = omega arith
count_rgb-RgbResult (fr ∷ fg ∷ fb ∷ fs) (sr ∷ sg ∷ sb ∷ ss) count e =
    RgbResult-cons fr fg fb fs count _ _ (ground arith) (count_rgb-RgbResult fs ss _ e')
  where
    e' : length fs ≡ length ss
    e' = omega (arith, e)
count_rgb-RgbResult (fr ∷ fg ∷ fb ∷ fs) (sr ∷ sg ∷ []) count e = absurd (omega (arith, e))
count_rgb-RgbResult (fr ∷ fg ∷ fb ∷ fs) (sr ∷ []) count e = absurd (omega (arith, e))
count_rgb-RgbResult (fr ∷ fg ∷ fb ∷ fs) [] count e = absurd (omega (arith, e))

-- On two buffers of one size `frame_changes_RGB` returns exactly if that size is a multiple of
-- three, and its result is then at most the number of pixels; otherwise it reads past the buffers.
pub frame_changes_rgb_bounds :
    (f s : List ℕ)
    → length f ≡ length s
    → ((n : ℕ) × (frame_changes_rgb (some f) (some s) ≡ some n)
        × (length f % 3 ≡ 0)
        × (n ≤ length f / 3))
      ⊎ ((frame_changes_rgb (some f) (some s) ≡ none) × (length f % 3 ≢ 0))
unfolding frame_changes_rgb
frame_changes_rgb_bounds f s e = cases (count_rgb f s 0) refl
  where
    whole : frame_changes_rgb (some f) (some s) ≡ count_rgb f s 0
    whole = ground (arith, e)

    cases :
        (r : Option ℕ)
        → count_rgb f s 0 ≡ r
        → ((n : ℕ) × (frame_changes_rgb (some f) (some s) ≡ some n)
            × (length f % 3 ≡ 0)
            × (n ≤ length f / 3))
          ⊎ ((frame_changes_rgb (some f) (some s) ≡ none) × (length f % 3 ≢ 0))
    cases none h = inr (whole ∙ h, subst (RgbResult f 0) h (count_rgb-RgbResult f s 0 e))
    cases (some n) h =
        let x = subst (RgbResult f 0) h (count_rgb-RgbResult f s 0 e) in
        inl (n, whole ∙ h, x.0, omega (arith, x.1))
