-- ===== src/Timetools/Subtract.antt =====
-- What `timespec_subtract` computes.
use synchronome.Base.{ℕ, ◌+◌, ◌*◌, ◌<◌, ◌≡◌, ◌↔◌, inl, inr, arith, true, Bool-cases, tests, lt→ltb}
use synchronome.Base.Int.{
  pos, pos_part, neg_part, ltb_ℤ, ◌-ℤ◌, ◌≤ℤ◌, ◌<ℤ◌, int_laws, parts_disjoint,
}
use synchronome.Timetools.{Timespec, ns_per_sec, borrow, carry, timespec_subtract}

-- The number of nanoseconds of a time, from above and from below zero.
abbrev pub ns_above : Timespec → ℕ
ns_above t = ns_per_sec * pos_part t.tv_sec + pos_part t.tv_nsec

abbrev pub ns_below : Timespec → ℕ
ns_below t = ns_per_sec * neg_part t.tv_sec + neg_part t.tv_nsec

-- The kernel's times: nanoseconds within a second.
pub record IsNormal (t : Timespec) : Type 0 where
  pub low : pos 0 ≤ℤ t.tv_nsec
  pub high : t.tv_nsec <ℤ pos ns_per_sec

-- The borrow keeps the instant that `*y` stands for.
borrow-value :
    (x y : Timespec) → ns_above (borrow x y) + ns_below y ≡ ns_above y + ns_below (borrow x y)
unfolding borrow
borrow-value x y = elim (Bool-cases (ltb_ℤ x.tv_nsec y.tv_nsec)) [
  | inl e ↦ rw e (omega int_laws)
  | inr e ↦ rw e (omega arith)
]

-- After the borrow the nanoseconds do not go below zero.
borrow-low : (x y : Timespec) → (borrow x y).tv_nsec ≤ℤ x.tv_nsec
unfolding borrow
borrow-low x y = elim (Bool-cases (ltb_ℤ x.tv_nsec y.tv_nsec)) [
  | inl e ↦ rw e (omega (int_laws, tests))
  | inr e ↦ rw e (omega (int_laws, tests))
]

carry-value :
    (x y : Timespec) → ns_above (carry x y) + ns_below y ≡ ns_above y + ns_below (carry x y)
unfolding carry
carry-value x y = elim (Bool-cases (ltb_ℤ (pos ns_per_sec) (x.tv_nsec -ℤ y.tv_nsec))) [
  | inl e ↦ rw e (omega int_laws)
  | inr e ↦ rw e (omega arith)
]

carry-bounds :
    (x y : Timespec)
    → y.tv_nsec ≤ℤ x.tv_nsec
    → ((carry x y).tv_nsec ≤ℤ x.tv_nsec) × (x.tv_nsec -ℤ (carry x y).tv_nsec ≤ℤ pos ns_per_sec)
unfolding carry
carry-bounds x y h = elim (Bool-cases (ltb_ℤ (pos ns_per_sec) (x.tv_nsec -ℤ y.tv_nsec))) [
  | inl e ↦ rw e (omega (int_laws, tests, parts_disjoint (x.tv_nsec -ℤ y.tv_nsec)))
  | inr e ↦ rw e (omega (int_laws, tests))
]

-- For any two times the result is their difference in nanoseconds, `*y` still stands for the same
-- instant after the call, and the result's nanoseconds lie between zero and one second, the second
-- included.
pub timespec_subtract-value :
    (x y : Timespec)
    → let (r, negative, y') = timespec_subtract x y in
      (ns_above r + ns_below x + ns_above y ≡ ns_below r + ns_above x + ns_below y)
      × (ns_above y' + ns_below y ≡ ns_above y + ns_below y')
      × (pos 0 ≤ℤ r.tv_nsec)
      × (r.tv_nsec ≤ℤ pos ns_per_sec)
unfolding timespec_subtract
timespec_subtract-value x y = (
  omega (int_laws, borrow-value x y, carry-value x (borrow x y)),
  omega (arith, borrow-value x y, carry-value x (borrow x y)),
  omega (int_laws, carry-bounds x (borrow x y) (borrow-low x y)),
  omega (int_laws, carry-bounds x (borrow x y) (borrow-low x y)),
)

borrow-normal :
    {x y : Timespec} → IsNormal x → IsNormal y → x.tv_nsec -ℤ (borrow x y).tv_nsec <ℤ pos ns_per_sec
unfolding borrow
borrow-normal {x} {y} hx hy = elim (Bool-cases (ltb_ℤ x.tv_nsec y.tv_nsec)) [
  | inl e ↦ rw e (omega (int_laws, tests, parts_disjoint (y.tv_nsec -ℤ x.tv_nsec)))
  | inr e ↦ rw e (omega (int_laws, tests))
]

carry-idle : (x y : Timespec) → x.tv_nsec -ℤ y.tv_nsec <ℤ pos ns_per_sec → carry x y ≡ y
unfolding carry
carry-idle x y h = elim (Bool-cases (ltb_ℤ (pos ns_per_sec) (x.tv_nsec -ℤ y.tv_nsec))) [
  | inl e ↦ absurd (omega (tests, h))
  | inr e ↦ rw e
]

-- For two times as the kernel reports them the result's nanoseconds stay within a second, and the
-- function reports a negative difference exactly when the first time is before the second.
pub timespec_subtract-negative :
    {x y : Timespec}
    → IsNormal x
    → IsNormal y
    → let (r, negative, y') = timespec_subtract x y in
      IsNormal r × ((negative ≡ true) ↔ (ns_above x + ns_below y < ns_above y + ns_below x))
unfolding timespec_subtract
timespec_subtract-negative {x} {y} hx hy =
    let small = borrow-normal hx hy in
    let low = borrow-low x y in
    let value = borrow-value x y in
    rw (carry-idle x (borrow x y) small)
      (omega int_laws, (λ e. omega (int_laws, tests), λ h. lt→ltb _ _ (omega int_laws)))
