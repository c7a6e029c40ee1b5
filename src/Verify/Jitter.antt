-- ===== src/Verify/Jitter.antt =====
-- Which images verify_frames.c marks for their time.
use synchronome.Base.{
  ℕ, ◌+◌, ◌-◌, ◌<◌, ◌≤◌, ◌≡◌, ◌↔◌, ◌⊎◌, inl, inr, refl, sym, subst, ap, ap₂, true, ltb, Bool-cases,
  arith, tests, lt→ltb, ltb→lt, ◌/◌, ◌%◌, ◌∙◌, length, List, [], ◌∷◌, some,
}
use synchronome.Base.Int.{pos, pos_part, ltb_ℤ, parts_disjoint}
use synchronome.Timetools.{Timespec, ns_per_sec, timespec_subtract}
use synchronome.Timetools.Subtract.{
  ns_above, ns_below, IsNormal, timespec_subtract-value, timespec_subtract-negative,
}
use synchronome.Buffer.{Buffer, live}
use synchronome.Buffer.Arrays.{All}
use synchronome.Motion.{frame_changes_rgb}
use synchronome.Motion.Frames.{frame_changes_rgb_bounds}
use synchronome.Verify.Check.{
  Line, bytes_of, beside, check_from, told, one_second, jitter_of, spacing, nearest, to_float,
  is_jitter, check_pair,
}

one_second-IsNormal : IsNormal one_second
one_second-IsNormal = record { low = omega arith; high = omega arith }

-- Longer than the limit, or a second and more.
abbrev pub Late : ℕ → ℕ → Type 0
Late limit n = (ns_per_sec ≤ n) ⊎ (limit < to_float n)

-- A time that is not negative is marked exactly when its nanoseconds as a `float` are above the limit,
-- or it is a second and more.
is_jitter_lem :
    (limit : ℕ) (r : Timespec)
    → IsNormal r
    → ns_below r ≤ ns_above r
    → (is_jitter limit r ≡ true) ↔ Late limit (ns_above r - ns_below r)
unfolding is_jitter
is_jitter_lem limit r v nonneg = elim (Bool-cases (ltb_ℤ (pos 0) r.tv_sec)) [
  | inl e ↦
      let long : ns_per_sec ≤ ns_above r - ns_below r =
        omega (tests, e, v.low, v.high, parts_disjoint r.tv_sec, parts_disjoint r.tv_nsec) in
      rw e (λ _. inl long, λ _. refl)
  | inr e ↦
      let all : pos_part r.tv_nsec ≡ ns_above r - ns_below r =
        omega (tests, e, v.low, nonneg, parts_disjoint r.tv_sec, parts_disjoint r.tv_nsec) in
      let short : ns_above r - ns_below r < ns_per_sec =
        omega (tests, e, all, v.high, parts_disjoint r.tv_nsec) in
      rw e (
        (λ f. inr (subst (λ k. limit < to_float k) all (ltb→lt _ _ f))),
        (λ h. elim h [
          | inl g ↦ absurd (omega (arith, g, short))
          | inr g ↦ lt→ltb _ _ (subst (λ k. limit < to_float k) (sym all) g)
        ]),
      )
]

-- The jitter of a difference, from its sign.
jitter_of-IsNormal :
    (d : Timespec)
    → IsNormal d
    → IsNormal (jitter_of d).1
      × ((ns_above (jitter_of d).1 + ns_below d + ns_per_sec
              ≡ ns_below (jitter_of d).1 + ns_above d)
            × (ns_below (jitter_of d).1 ≤ ns_above (jitter_of d).1)
          ⊎ (ns_above (jitter_of d).1 + ns_above d
              ≡ ns_below (jitter_of d).1 + ns_below d + ns_per_sec)
            × (ns_below (jitter_of d).1 ≤ ns_above (jitter_of d).1))
unfolding jitter_of
jitter_of-IsNormal d v = elim (Bool-cases (ltb_ℤ d.tv_sec (pos 1))) [
  | inl e ↦
      let value = timespec_subtract-value one_second d in
      rw e (
        (timespec_subtract-negative one_second-IsNormal v).0,
        inr (omega (arith, value.0), omega (tests, e, value.0, v.high, v.low)),
      )
  | inr e ↦
      let value = timespec_subtract-value d one_second in
      rw e (
        (timespec_subtract-negative v one_second-IsNormal).0,
        inl (omega (arith, value.0), omega (tests, e, value.0, v.low)),
      )
]

-- By how many nanoseconds the time from one frame to the next differs from one second.
abbrev pub off : Timespec → Timespec → ℕ
off x y =
    let a = ns_above y + ns_below x in
    let b = ns_above x + ns_below y + ns_per_sec in (a - b) + (b - a)

jitter-Late :
    (limit : ℕ) (x y : Timespec)
    → IsNormal x
    → IsNormal y
    → (is_jitter limit (jitter_of (timespec_subtract y x).0).1 ≡ true) ↔ Late limit (off x y)
jitter-Late limit x y hx hy =
    let d = (timespec_subtract y x).0 in
    let r = (jitter_of d).1 in
    let value = (timespec_subtract-value y x).0 in
    let (normal, sides) = jitter_of-IsNormal d (timespec_subtract-negative hy hx).0 in
    let nonneg : ns_below r ≤ ns_above r = elim sides [ inl s ↦ s.1 | inr s ↦ s.1 ] in
    let same : ns_above r - ns_below r ≡ off x y = elim sides [
      | inl s ↦ omega (arith, s.0, s.1, value)
      | inr s ↦ omega (arith, s.0, s.1, value)
    ] in
    subst (λ n. (is_jitter limit r ≡ true) ↔ Late limit n) same
      (is_jitter_lem limit r normal nonneg)

-- The conversion to `float` moves a time below a second by at most 32 nanoseconds.
to_float_near : (n : ℕ) → n < ns_per_sec → (to_float n ≤ n + 32) × (n ≤ to_float n + 32)
unfolding to_float spacing nearest
to_float_near n h = (ground (arith, h), ground (arith, h))

-- So the mark is right for a time that is off the limit by more than 32 nanoseconds.
Late-near :
    (limit n : ℕ)
    → limit < ns_per_sec
    → (Late limit n → limit < n + 32) × (limit + 32 < n → Late limit n)
Late-near limit n small = elim (Bool-cases (ltb n ns_per_sec)) [
  | inl h ↦
      let near = to_float_near n (ltb→lt _ _ h) in
      (
        (λ l. elim l [ inl g ↦ omega (arith, g, small) | inr g ↦ omega (arith, g, near.0) ]),
        (λ g. inr (omega (arith, g, near.1))),
      )
  | inr h ↦ ((λ l. omega (tests, h, small)), (λ g. inl (omega (tests, h))))
]

-- An image of `n` bytes with a time as the kernel reports it.
pub record IsImage (n : ℕ) (b : Buffer) : Type 0 where
  pub bytes : List ℕ
  pub held : b.start ≡ live bytes
  pub size : length bytes ≡ n
  pub normal : IsNormal b.time

-- What a line says of its pair of images.
pub record Tells (n frame_limit limit : ℕ) (last current : Buffer) (line : Line) : Type 0 where
  pub late : (line.jitter ≡ true) ↔ Late limit (off last.time current.time)
  pub marked : line.jitter ≡ true → limit < off last.time current.time + 32
  pub beyond : limit + 32 < off last.time current.time → line.jitter ≡ true
  pub same : (line.same ≡ true) ↔ (line.changed_pixels < frame_limit)
  pub most : line.changed_pixels ≤ n / 3

abbrev pub TellAll : ℕ → ℕ → ℕ → Buffer → List Buffer → List Line → Type 0
TellAll n frame_limit limit last [] [] = Unit
TellAll n frame_limit limit last (b ∷ bs) (line ∷ lines) =
    Tells n frame_limit limit last b line × TellAll n frame_limit limit b bs lines
TellAll n frame_limit limit last [] (line ∷ lines) = ⊥
TellAll n frame_limit limit last (b ∷ bs) [] = ⊥

check_pair-Tells :
    (n frame_limit limit : ℕ) (last current : Buffer)
    → limit < ns_per_sec
    → n % 3 ≡ 0
    → IsImage n last
    → IsImage n current
    → (line : Line) × (b : Buffer) × (check_pair frame_limit limit last current ≡ some (line, b))
      × Tells n frame_limit limit last current line
unfolding check_pair told bytes_of
check_pair-Tells n frame_limit limit last current small three v w =
    let mark = jitter-Late limit last.time current.time v.normal w.normal in
    let near = Late-near limit (off last.time current.time) small in
    elim (frame_changes_rgb_bounds v.bytes w.bytes (v.size ∙ sym w.size)) [
      | inr h ↦ absurd (h.1 (omega (arith, three, v.size)))
      | inl (changed, e, _, most) ↦ (
        _,
        _,
        ap (told frame_limit limit last current)
            (ap₂ frame_changes_rgb (ap bytes_of v.held) (ap bytes_of w.held) ∙ e),
        record {
          late = mark;
          marked = λ e. near.0 (mark.0 e);
          beyond = λ h. mark.1 (near.1 h);
          same = (λ f. ltb→lt changed frame_limit f, λ h. lt→ltb changed frame_limit h);
          most = omega (arith, most, v.size);
        },
      )
    ]

joined :
    (n frame_limit limit : ℕ) (last current : Buffer) (rest : List Buffer)
    → (line : Line) × (b : Buffer) × (check_pair frame_limit limit last current ≡ some (line, b))
      × Tells n frame_limit limit last current line
    → (lines : List Line) × (bs : List Buffer) × (check_from frame_limit limit current rest
        ≡ some (lines, bs))
      × TellAll n frame_limit limit current rest lines
    → (lines : List Line) × (bs : List Buffer) × (check_from frame_limit limit last (current ∷ rest)
        ≡ some (lines, bs))
      × TellAll n frame_limit limit last (current ∷ rest) lines
unfolding check_from beside
joined n frame_limit limit last current rest (line, b, e, t) (lines, bs, f, u) =
    (line ∷ lines, b ∷ bs, ap₂ beside e f, (t, u))

-- On images of one size, a multiple of three, whose times are as the kernel reports them, and with a
-- limit below a second, the check reads within the images and comes to an end with one line for each
-- image after the first. A line is marked for jitter exactly when the time since the image before
-- differs from one second by a second or more, or by nanoseconds that as a `float` are more than the
-- limit; so it is marked when they are more than 32 above the limit, and not when they are 32 or more
-- below it. A line is marked as the same exactly when fewer pixels changed
-- than the frame limit; it counts at most a third of the bytes as changed.
pub check_from-TellAll :
    (n frame_limit limit : ℕ) (last : Buffer) (rest : List Buffer)
    → limit < ns_per_sec
    → n % 3 ≡ 0
    → IsImage n last
    → All (IsImage n) rest
    → (lines : List Line) × (bs : List Buffer) × (check_from frame_limit limit last rest
        ≡ some (lines, bs))
      × TellAll n frame_limit limit last rest lines
check_from-TellAll n frame_limit limit last [] small three v w =
    ([], last ∷ [], unfold check_from in refl, tt)
check_from-TellAll n frame_limit limit last (b ∷ bs) small three v w =
    joined n frame_limit limit last b bs
      (check_pair-Tells n frame_limit limit last b small three v w.0)
      (check_from-TellAll n frame_limit limit b bs small three w.0 w.1)
