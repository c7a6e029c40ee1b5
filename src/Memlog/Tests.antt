-- ===== src/Memlog/Tests.antt =====
-- Runs of the log on a ring of three entries, and its theorems there.
use synchronome.Base.{ℕ, ◌≡◌, refl, true, [], ◌∷◌, some, arith}
use synchronome.Base.Int.{pos}
use synchronome.Timetools.{Timespec}
use synchronome.Memlog.{
  Entry, Memlog, zeroed, memlog_log, memlog_log24, memlog_id, memlog_data24, memlog_dump,
  time_in_us,
}
use synchronome.Memlog.Event
use synchronome.Memlog.Ring.{Written, memlog_log-Written, memlog_log24-Written}
use synchronome.Memlog.Dump.{events, lines_after, memlog_dump-events}

abbrev at : ℕ → Timespec
at s = record { tv_sec = pos s; tv_nsec = pos 5 }

abbrev entry : ℕ → ℕ → Entry
entry e s = record { event_id = e; time = at s }

-- The next write goes to the last entry.
abbrev three : Memlog
three = record { index = 2; log = entry 1 7 ∷ entry 0x11 8 ∷ zeroed ∷ [] }

wraps :
    memlog_log Event.s2_run (at 9) three
    ≡ some (record { index = 0; log = entry 1 7 ∷ entry 0x11 8 ∷ entry 2 9 ∷ [] })
unfolding memlog_log
wraps = refl

memlog_log-Written_example :
    (l' : Memlog) × (memlog_log Event.s2_run (at 9) three ≡ some l') × Written (entry 2 9) three l'
memlog_log-Written_example = memlog_log-Written Event.s2_run (at 9) three (omega arith)

memlog_log24-Written_example :
    (l' : Memlog) × (word : ℕ) × (memlog_log24 Event.adata_24 25 (at 9) three ≡ some l')
    × Written (record { event_id = word; time = at 9 }) three l'
    × (memlog_id word ≡ Event.adata_24)
    × (memlog_data24 word ≡ 25)
memlog_log24-Written_example =
    memlog_log24-Written Event.adata_24 25 (at 9) three (omega arith) (omega arith) (omega arith)
      (omega arith)

memlog_dump-events_example : memlog_dump true three ≡ lines_after (at 7) (events three.log)
memlog_dump-events_example = memlog_dump-events three

-- 4295 seconds do not fit a 32-bit count of microseconds.
microseconds : (time_in_us 32 (at 4294) ≡ 4_294_000_000) × (time_in_us 32 (at 4295) ≡ 32_704)
unfolding time_in_us
microseconds = (refl, refl)
