-- ===== src/Timetools/Tests.antt =====
-- Runs of `timespec_subtract`, and its theorems at one pair of times.
use synchronome.Base.{◌≡◌, refl, ◌↔◌, ◌<◌, ◌+◌, arith, true}
use synchronome.Base.Int.{pos, negsuc, ◌+ℤ◌, ◌-ℤ◌}
use synchronome.Timetools.{Timespec, timespec_subtract}
use synchronome.Timetools.Subtract.{IsNormal, ns_above, ns_below, timespec_subtract-negative}

-- 3.2 s and 1.7 s
abbrev late : Timespec
late = record { tv_sec = pos 3; tv_nsec = pos 200_000_000 }

abbrev early : Timespec
early = record { tv_sec = pos 1; tv_nsec = pos 700_000_000 }

late-early : (timespec_subtract late early).0 ≡ record { tv_sec = pos 1; tv_nsec = pos 500_000_000 }
unfolding timespec_subtract ◌+ℤ◌ ◌-ℤ◌
late-early = refl

early-late :
    timespec_subtract early late
    ≡ (record { tv_sec = negsuc 1; tv_nsec = pos 500_000_000 }, true, late)
unfolding timespec_subtract ◌+ℤ◌ ◌-ℤ◌
early-late = refl

timespec_subtract-negative_example :
    IsNormal (timespec_subtract late early).0
    × (((timespec_subtract late early).1 ≡ true)
        ↔ (ns_above late + ns_below early < ns_above early + ns_below late))
timespec_subtract-negative_example = timespec_subtract-negative (omega arith) (omega arith)
