-- ===== src/Motion/Machine.antt =====
-- The state machine of `next_motion_state`: which runs of frames it takes for a tick.
use mathlib.Core.List.{tail}
use synchronome.Base.{
  ℕ, suc, ◌+◌, ◌<◌, ◌≤◌, ◌≡◌, ◌↔◌, refl, ap, subst, inl, inr, Bool, true, false, ◌==◌, ltb, List,
  [], ◌∷◌, ◌++◌, length, replicate, arith, Bool-cases,
}
use synchronome.Motion.{
  Motion, State, start, searching, bookend, counting, detected, initial, next_motion_state,
  motion_bookend_frames, motion_good_frames_threshold,
}

-- The detector's state after frames whose flags are listed newest first.
unfoldable pub after : List Bool → Motion
unfolding next_motion_state
after [] = initial
after (changed ∷ h) = (next_motion_state changed (after h)).1

-- The flags, newest first, end in a tick: in state MOTION_STATE_SEARCHING a frame changed, three
-- frames were skipped, and ten frames were still.
pub record Ticked (h : List Bool) : Type 0 where
  pub skipped : List Bool
  pub before : List Bool
  pub three : length skipped ≡ 3
  pub searched : (after before).motion_state ≡ searching
  pub shape : h ≡ replicate 10 false ++ (skipped ++ (true ∷ before))

record Opened (skipped_count good : ℕ) (h : List Bool) : Type 0 where
  skipped : List Bool
  before : List Bool
  counted : length skipped ≡ skipped_count
  searched : (after before).motion_state ≡ searching
  shape : h ≡ replicate good false ++ (skipped ++ (true ∷ before))

-- What each state says of the flags that led to it.
abbrev Explains : State → ℕ → ℕ → List Bool → Type 0
Explains start b g h = ⊥
Explains searching b g h = (b ≡ 0) × (g ≡ 0)
Explains bookend b g h = (b < 3) × (g ≡ 0) × Opened b 0 h
Explains counting b g h = (b ≡ 0) × (g < 10) × Opened 3 g h

abbrev ExplainsState : Motion → List Bool → Type 0
ExplainsState m h = Explains m.motion_state m.bookend_frames m.good_frames_in_a_row h

abbrev motion : State → ℕ → ℕ → Motion
motion st b g = record { motion_state = st; bookend_frames = b; good_frames_in_a_row = g }

abbrev head_or {ℓ} : {A : Type ℓ} → A → List A → A
head_or d [] = d
head_or d (x ∷ _) = x

replicate_more :
    (g : ℕ) (h t : List Bool)
    → h ≡ replicate g false ++ t
    → false ∷ h ≡ replicate (g + 1) false ++ t
replicate_more g h t e =
    let one : suc g ≡ g + 1 = omega arith in
    subst (λ k. false ∷ h ≡ replicate k false ++ t) one (ap (λ l. false ∷ l) e)

step-Explains :
    (st : State) (b g : ℕ) (changed : Bool) (h : List Bool)
    → after h ≡ motion st b g
    → Explains st b g h
    → let (v, m) = next_motion_state changed (motion st b g) in
      ExplainsState m (changed ∷ h) × (v ≡ detected → Ticked (changed ∷ h))
unfolding next_motion_state
step-Explains start b g changed h at x = absurd x
step-Explains searching b g true h at (eb, eg) = (
  (
    omega arith,
    eg,
    record {
      skipped = [];
      before = h;
      counted = rw eb;
      searched = ap (λ m. m.motion_state) at;
      shape = refl;
    },
  ),
  λ e. cc,
)
step-Explains searching b g false h at x = (x, λ e. cc)
step-Explains bookend b g changed h at (small, eg, o) = elim (Bool-cases (b + 1 == 3)) [
  | inl e ↦ rw e (
    (
      refl,
      omega arith,
      record {
        skipped = changed ∷ o.skipped;
        before = o.before;
        counted = ground (arith, o.counted);
        searched = o.searched;
        shape = rw eg (ap (λ t. changed ∷ t) o.shape);
      },
    ),
    λ f. cc,
  )
  | inr e ↦ rw e (
    (
      ground arith,
      eg,
      record {
        skipped = changed ∷ o.skipped;
        before = o.before;
        counted = ground (arith, o.counted);
        searched = o.searched;
        shape = ap (λ t. changed ∷ t) o.shape;
      },
    ),
    λ f. cc,
  )
]
step-Explains counting b g true h at (eb, small, o) = ((eb, refl), λ e. cc)
step-Explains counting b g false h at (eb, small, o) = elim (Bool-cases (ltb 9 (g + 1))) [
  | inl e ↦ rw e (
    (eb, refl),
    λ f. record {
      skipped = o.skipped;
      before = o.before;
      three = o.counted;
      searched = o.searched;
      shape =
          ap (λ t. false ∷ t)
            (subst (λ k. h ≡ replicate k false ++ (o.skipped ++ (true ∷ o.before)))
              (let g9 : g ≡ 9 = ground arith in g9) o.shape);
    },
  )
  | inr e ↦ rw e (
    (
      eb,
      ground arith,
      record {
        skipped = o.skipped;
        before = o.before;
        counted = o.counted;
        searched = o.searched;
        shape = replicate_more g h _ o.shape;
      },
    ),
    λ f. cc,
  )
]

-- Every state the detector reaches explains the flags that led to it.
after-Explains : (h : List Bool) → ExplainsState (after h) h
unfolding after
after-Explains [] = (refl, refl)
after-Explains (changed ∷ h) =
    (step-Explains (after h).motion_state _ _ changed h refl (after-Explains h)).0

-- A detector that searches has no count left over.
searching-initial : (h : List Bool) → (after h).motion_state ≡ searching → after h ≡ initial
searching-initial h e =
    let x =
      subst (λ st. Explains st (after h).bookend_frames (after h).good_frames_in_a_row h) e
        (after-Explains h) in
    ground (arith, x.0, x.1)

still_detected :
    (skipped before : List Bool)
    → length skipped ≡ 3
    → (after before).motion_state ≡ searching
    → (next_motion_state false (after (replicate 9 false ++ (skipped ++ (true ∷ before))))).0
      ≡ detected
unfolding after next_motion_state
still_detected (x ∷ y ∷ z ∷ []) before e s = rw (searching-initial before s, after)
still_detected [] before e s = absurd (omega (arith, e))
still_detected (x ∷ []) before e s = absurd (omega (arith, e))
still_detected (x ∷ y ∷ []) before e s = absurd (omega (arith, e))
still_detected (x ∷ y ∷ z ∷ _ ∷ _) before e s = absurd (omega (arith, e))

-- The detector reports a tick for a frame exactly when the flags up to that frame end in a tick: a
-- change met while searching, then any three frames, then ten still frames, that frame the tenth.
pub detected-Ticked :
    (changed : Bool) (h : List Bool)
    → ((next_motion_state changed (after h)).0 ≡ detected) ↔ Ticked (changed ∷ h)
detected-Ticked changed h = (
  λ e. (step-Explains (after h).motion_state _ _ changed h refl (after-Explains h)).1 e,
  λ t.
      let now : changed ≡ false = ap (head_or false) t.shape in
      let earlier : h ≡ replicate 9 false ++ (t.skipped ++ (true ∷ t.before)) = ap tail t.shape in
      rw (now, earlier) (still_detected t.skipped t.before t.three t.searched),
)

-- In every state that the detector reaches the bookend holds fewer than three frames and the run of
-- still frames is at most nine long.
pub after_counts :
    (h : List Bool)
    → ((after h).bookend_frames < motion_bookend_frames)
      × ((after h).good_frames_in_a_row ≤ motion_good_frames_threshold)
after_counts h = counts (after h).motion_state _ _ h (after-Explains h)
  where
    counts :
        (st : State) (b g : ℕ) (h : List Bool)
        → Explains st b g h
        → (b < motion_bookend_frames) × (g ≤ motion_good_frames_threshold)
    counts start b g h x = absurd x
    counts searching b g h x = omega arith
    counts bookend b g h x = omega arith
    counts counting b g h x = omega arith
