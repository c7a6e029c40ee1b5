-- ===== src/Timetools.antt =====
-- simple-capture/timetools.c: subtraction of two `struct timespec`.
-- `tv_sec` and `tv_nsec` are integers; the machine's overflow of either is not modelled.
mod Tests
pub mod Subtract
use synchronome.Base.{ℕ, ◌+◌, ◌*◌, ◌/◌, Bool, if◌then◌else◌}
use synchronome.Base.Int.{ℤ, pos, ◌+ℤ◌, ◌-ℤ◌, pos_part, ltb_ℤ}

pub record Timespec : Type 0 where
  pub tv_sec : ℤ
  pub tv_nsec : ℤ

abbrev pub ns_per_sec : ℕ
ns_per_sec = 1_000_000_000

-- The borrow of the first `if`, which updates `*y`.
pub borrow : Timespec → Timespec → Timespec
borrow x y =
    if ltb_ℤ x.tv_nsec y.tv_nsec
    then (let nsec = pos_part (y.tv_nsec -ℤ x.tv_nsec) / ns_per_sec + 1 in
        record { tv_sec = y.tv_sec +ℤ pos nsec; tv_nsec = y.tv_nsec -ℤ pos (ns_per_sec * nsec) })
    else y

-- The carry of the second `if`.
pub carry : Timespec → Timespec → Timespec
carry x y =
    if ltb_ℤ (pos ns_per_sec) (x.tv_nsec -ℤ y.tv_nsec)
    then (let nsec = pos_part (x.tv_nsec -ℤ y.tv_nsec) / ns_per_sec in
        record { tv_sec = y.tv_sec -ℤ pos nsec; tv_nsec = y.tv_nsec +ℤ pos (ns_per_sec * nsec) })
    else y

-- The result, whether it is negative, and the updated `*y`.
unfoldable pub timespec_subtract : Timespec → Timespec → Timespec × Bool × Timespec
unfolding borrow carry
timespec_subtract x y =
    let y' = carry x (borrow x y) in
    (
      record { tv_sec = x.tv_sec -ℤ y'.tv_sec; tv_nsec = x.tv_nsec -ℤ y'.tv_nsec },
      ltb_ℤ x.tv_sec y'.tv_sec,
      y',
    )
