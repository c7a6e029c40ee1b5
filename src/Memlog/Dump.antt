-- ===== src/Memlog/Dump.antt =====
-- What `memlog_dump` writes for a log.
use synchronome.Base.{
  ◌+◌, ◌/◌, ◌%◌, ◌≤◌, ◌≡◌, ◌&&◌, not, leb, some, none, ap₂, refl, sym, subst, inl, inr, true, false,
  ltb, List, [], ◌∷◌, get_or, arith, Bool-cases, if◌then◌else◌,
}
use synchronome.Timetools.{Timespec, timespec_subtract}
use synchronome.Timetools.Subtract.{IsNormal, ns_above, ns_below, timespec_subtract-negative}
use synchronome.Memlog.{
  Entry, Memlog, Line, zeroed, memlog_id, memlog_data24, memlog_event_desc, line, dump_from,
  memlog_dump,
}

-- The entries that hold an event.
unfoldable pub events : List Entry → List Entry
unfolding memlog_id
events [] = []
events (e ∷ es) = if ltb 0 (memlog_id e.event_id) then e ∷ events es else events es

-- What is shown of an entry after an event at `t_prev`: its own time, the time that has passed since
-- then, and the data of an event that carries data; any other is marked if its time is the earlier.
abbrev pub shown : Timespec → Entry → Line
shown t_prev e =
    let (passed, earlier, _) = timespec_subtract e.time t_prev in
    record {
      time = e.time;
      desc = memlog_event_desc (e.event_id % 256);
      diff = passed;
      payload = if leb 0xf0 (e.event_id % 256) then some (e.event_id / 256) else none;
      not_in_order = not (leb 0xf0 (e.event_id % 256)) && earlier;
    }

line-shown : (t_prev : Timespec) (e : Entry) → line t_prev e ≡ shown t_prev e
unfolding line memlog_id memlog_data24
line-shown t_prev e = ground arith

-- Each entry against the one before it.
pub lines_after : Timespec → List Entry → List Line
lines_after t_prev [] = []
lines_after t_prev (e ∷ es) = shown t_prev e ∷ lines_after e.time es

dump_from-lines_after :
    (t : Timespec) (es : List Entry) → dump_from t es ≡ lines_after t (events es)
unfolding dump_from lines_after events
dump_from-lines_after t [] = refl
dump_from-lines_after t (e ∷ es) = elim (Bool-cases (ltb 0 (memlog_id e.event_id))) [
  | inl h ↦ rw h (ap₂ (λ a l. a ∷ l) (line-shown t e) (dump_from-lines_after e.time es))
  | inr h ↦ rw h (dump_from-lines_after t es)
]

-- The times of a run of entries, each as the kernel reports it and none before the one it follows.
abbrev pub InOrder : Timespec → List Entry → Type 0
InOrder t [] = Unit {0}
InOrder t (e ∷ es) =
    IsNormal e.time
    × (ns_above t + ns_below e.time ≤ ns_above e.time + ns_below t)
    × InOrder e.time es

abbrev pub Unmarked : List Line → Type 0
Unmarked [] = Unit {0}
Unmarked (l ∷ ls) = (l.not_in_order ≡ false) × Unmarked ls

line_unmarked :
    (t : Timespec) (e : Entry)
    → IsNormal t
    → IsNormal e.time
    → ns_above t + ns_below e.time ≤ ns_above e.time + ns_below t
    → (line t e).not_in_order ≡ false
unfolding line
line_unmarked t e nt ne le = elim (Bool-cases (timespec_subtract e.time t).1) [
  | inl h ↦ absurd (omega (arith, (timespec_subtract-negative ne nt).1.0 h))
  | inr h ↦ ground (arith, h)
]

lines_after-Unmarked :
    (t : Timespec) (es : List Entry) → IsNormal t → InOrder t es → Unmarked (lines_after t es)
unfolding lines_after
lines_after-Unmarked t [] n o = tt
lines_after-Unmarked t (e ∷ es) n o = (
  subst (λ l. l.not_in_order ≡ false) (line-shown t e) (line_unmarked t e n o.0 o.1),
  lines_after-Unmarked e.time es o.0 o.2,
)

-- The dump has one line for each entry that holds an event, in the log's order. A line has the
-- event's description and time, the difference from the event before it, the first from the log's
-- first entry, and either the 24-bit data or, if the time is the earlier of the two, the mark.
pub memlog_dump-events :
    (l : Memlog) → memlog_dump true l ≡ lines_after (get_or l.log 0 zeroed).time (events l.log)
unfolding memlog_dump
memlog_dump-events l = dump_from-lines_after _ l.log

-- If the events' times do not decrease, from the first entry's time on, then no line of the dump is
-- marked as not in order.
pub memlog_dump-Unmarked :
    (l : Memlog)
    → IsNormal (get_or l.log 0 zeroed).time
    → InOrder (get_or l.log 0 zeroed).time (events l.log)
    → Unmarked (memlog_dump true l)
memlog_dump-Unmarked l n o =
    subst Unmarked (sym (memlog_dump-events l)) (lines_after-Unmarked _ (events l.log) n o)
