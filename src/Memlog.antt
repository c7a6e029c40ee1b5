-- ===== src/Memlog.antt =====
-- simple-capture/memlog.c and memlog.h: the in-memory event log of a thread.
-- The log's length stands for MEMLOG_MAX. `x & 0xff` is written `x % 256`, `x >> 8` is `x / 256`.
mod Tests
pub mod Event
pub mod Ring
pub mod Dump
use Prim.Native.String.{String}
use synchronome.Base.{
  ℕ, ◌+◌, ◌-◌, ◌*◌, ◌/◌, ◌%◌, ◌^◌, Bool, true, false, ltb, leb, ◌==◌, ◌&&◌, if◌then◌else◌, List, [],
  ◌∷◌, Option, none, some, length, set, replicate, get_or,
}
use synchronome.Base.Int.{ℤ, pos, pos_part, neg_part}
use Event
use synchronome.Timetools.{Timespec, timespec_subtract}

pub record Entry : Type 0 where
  pub event_id : ℕ
  pub time : Timespec

pub record Memlog : Type 0 where
  pub index : ℕ
  pub log : List Entry

-- MEMLOG_MAX
memlog_max : ℕ
memlog_max = 250_000

-- What calloc(3) fills a log with.
abbrev pub zeroed : Entry
zeroed = record { event_id = 0; time = record { tv_sec = pos 0; tv_nsec = pos 0 } }

-- `none`: calloc failed, and the program exits.
pub memlog_init : Bool → Option Memlog
unfolding memlog_max
memlog_init calloc_ok =
    if calloc_ok then some (record { index = 0; log = replicate memlog_max zeroed }) else none

-- The write of one entry, and the step of the index. `none` is a failed assertion.
store : ℕ → Timespec → Memlog → Option Memlog
store event now l =
    let index' = l.index + 1 in
    if ltb l.index (length l.log)
    then some (record {
      index = if leb (length l.log) index' then 0 else index';
      log = set l.log l.index (record { event_id = event; time = now });
    })
    else none

-- `now` is what clock_gettime stores.
unfoldable pub memlog_log : ℕ → Timespec → Memlog → Option Memlog
unfolding store
memlog_log event now l = store event now l

unfoldable pub memlog_id : ℕ → ℕ
memlog_id x = x % 256

unfoldable pub memlog_data24 : ℕ → ℕ
memlog_data24 x = x / 256

-- The sum is taken in `uint32_t`.
pub memlog_encode24 : ℕ → ℕ → ℕ
memlog_encode24 event payload = (event + payload * 256 % 2 ^ 32) % 2 ^ 32

unfoldable pub memlog_log24 : ℕ → ℕ → Timespec → Memlog → Option Memlog
unfolding store memlog_encode24
memlog_log24 event payload now l =
    if ltb payload 0x1000000 && leb Event.adata_24 event
    then store (memlog_encode24 event payload) now l
    else none

pub memlog_event_desc : ℕ → String
memlog_event_desc e =
    if e == 0x0
    then "NONE"
    else if e == 0x1
    then "MEMLOG_E_S1_RUN"
    else if e == 0x2
    then "MEMLOG_E_S2_RUN"
    else if e == 0x3
    then "MEMLOG_E_S3_RUN"
    else if e == 0x4
    then "SEQUENCER_MARK"
    else if e == 0x11
    then "MEMLOG_E_S1_DONE"
    else if e == 0x12
    then "MEMLOG_E_S2_DONE"
    else if e == 0x13
    then "MEMLOG_E_S3_DONE"
    else if e == 0x1a
    then "MEMLOG_E_WCET_START"
    else if e == 0x1b
    then "MEMLOG_E_WCET_DONE"
    else if e == 0x20
    then "MEMLOG_E_ERROR_SCAN"
    else if e == 0x21
    then "MEMLOG_E_FORCE_FRAME"
    else if e == 0xf0
    then "MEMLOG_E_ADATA"
    else if e == 0xf1
    then "MEMLOG_E_BDATA"
    else if e == 0xf2
    then "MEMLOG_E_CDATA"
    else if e == 0xff
    then "FIBTEST_MARK"
    else "Event error"

-- One line of the dump: the time, the description, the difference to the line before, and either
-- the data or whether the line is marked as not in order.
pub record Line : Type 0 where
  pub time : Timespec
  pub desc : String
  pub diff : Timespec
  pub payload : Option ℕ
  pub not_in_order : Bool

-- The line for one entry, after a line of time `t_prev`.
line : Timespec → Entry → Line
unfolding memlog_event_desc memlog_id memlog_data24
line t_prev e =
    let (diff, not_increasing, _) = timespec_subtract e.time t_prev in
    let has_data = leb Event.adata_24 (memlog_id e.event_id) in
    record {
      time = e.time;
      desc = memlog_event_desc (memlog_id e.event_id);
      diff = diff;
      payload = if has_data then some (memlog_data24 e.event_id) else none;
      not_in_order = if has_data then false else not_increasing;
    }

-- The loop: entries whose event is MEMLOG_E_NONE give no line.
dump_from : Timespec → List Entry → List Line
unfolding line memlog_id
dump_from t_prev [] = []
dump_from t_prev (e ∷ es) =
    let rest = dump_from (if ltb 0 (memlog_id e.event_id) then e.time else t_prev) es in
    if ltb 0 (memlog_id e.event_id) then line t_prev e ∷ rest else rest

-- The lines that are written; none if the file does not open.
pub memlog_dump : Bool → Memlog → List Line
unfolding dump_from
memlog_dump opened l = if opened then dump_from (get_or l.log 0 zeroed).time l.log else []

-- The sum and the product are taken in `unsigned long`, of `bits` bits: 32 on the Raspberry Pi.
unfoldable pub time_in_us : ℕ → Timespec → ℕ
time_in_us bits t =
    let sec = (pos_part t.tv_sec + 2 ^ bits - neg_part t.tv_sec % 2 ^ bits) % 2 ^ bits in
    (sec * 1_000_000 + pos_part t.tv_nsec / 1000) % 2 ^ bits

-- The lines of `memlog_gnuplot_dump` for the entries of a log: a time and an event id.
pub memlog_gnuplot_dump : ℕ → List Entry → List (ℕ × ℕ)
memlog_gnuplot_dump bits [] = []
memlog_gnuplot_dump bits (e ∷ es) =
    let rest = memlog_gnuplot_dump bits es in
    if ltb 0 e.event_id then (time_in_us bits e.time, e.event_id) ∷ rest else rest
