-- ===== src/Memlog/Ring.antt =====
-- The log as a ring: what a write keeps, and which entries stay readable.
use synchronome.Base.{
  ℕ, ◌+◌, ◌-◌, ◌^◌, ◌≤◌, ◌<◌, ◌≡◌, ◌≢◌, sym, ltb, leb, Option, some, length, set, get_elem?,
  length-set, get_elem?-set_self, get_elem?-set_ne, arith, lt→ltb, le→leb, if◌then◌else◌,
}
use synchronome.Timetools.{Timespec}
use synchronome.Memlog.{
  Entry, Memlog, store, memlog_log, memlog_log24, memlog_encode24, memlog_id, memlog_data24,
}
use synchronome.Memlog.Event

-- The index lies within the log, as the assertions of the writers demand.
abbrev pub IsValid : Memlog → Type 0
IsValid l = l.index < length l.log

-- Where the entry written `k` writes before the last one lies.
slot : ℕ → ℕ → ℕ → ℕ
slot index size k = if ltb k index then index - 1 - k else index + size - 1 - k

-- The entry written `k` writes before the last one.
pub newest : Memlog → ℕ → Option Entry
unfolding slot
newest l k = get_elem? l.log (slot l.index (length l.log) k)

stored : Entry → Memlog → Memlog
stored e l = record {
  index = if leb (length l.log) (l.index + 1) then 0 else l.index + 1;
  log = set l.log l.index e;
}

slot_self : (i n : ℕ) → i < n → slot (if leb n (i + 1) then 0 else i + 1) n 0 ≡ i
unfolding slot
slot_self i n h = ground arith

slot_step :
    (i n k : ℕ)
    → i < n
    → k + 1 < n
    → (slot (if leb n (i + 1) then 0 else i + 1) n (k + 1) ≡ slot i n k) × (slot i n k ≢ i)
unfolding slot
slot_step i n k h m = (ground arith, ground arith)

-- What one write does: the new entry is the newest, and the others move back by one.
pub record Written (e : Entry) (l l' : Memlog) : Type 0 where
  pub valid : IsValid l'
  pub same_size : length l'.log ≡ length l.log
  pub first : newest l' 0 ≡ some e
  pub others : (k : ℕ) → k + 1 < length l.log → newest l' (k + 1) ≡ newest l k

stored-Written : (e : Entry) (l : Memlog) → IsValid l → Written e l (stored e l)
unfolding stored newest
stored-Written e l v =
    let size = length-set l.log l.index e in
    record {
      valid = rw size (ground arith);
      same_size = size;
      first = rw (size, slot_self l.index (length l.log) v) (get_elem?-set_self l.log l.index e v);
      others = λ k h.
          let s = slot_step l.index (length l.log) k v h in
          rw (size, s.0) (get_elem?-set_ne l.log e (λ x. s.1 (sym x)));
    }

store_lem :
    (event : ℕ) (now : Timespec) (l : Memlog)
    → IsValid l
    → store event now l ≡ some (stored (record { event_id = event; time = now }) l)
unfolding store stored
store_lem event now l v = rw (lt→ltb _ _ v)

-- A write to a log whose index is in range passes its assertion, keeps the index in range and the
-- size, makes the event with its time the newest entry, and keeps every other entry but the oldest.
pub memlog_log-Written :
    (event : ℕ) (now : Timespec) (l : Memlog)
    → IsValid l
    → (l' : Memlog) × (memlog_log event now l ≡ some l')
      × Written (record { event_id = event; time = now }) l l'
unfolding memlog_log
memlog_log-Written event now l v = (stored _ l, store_lem event now l v, stored-Written _ l v)

-- The same of a write with data: below 2^24 and for an event code from 0xf0 to 0xff it succeeds, and
-- the stored word gives back both the event and the data.
pub memlog_log24-Written :
    (event payload : ℕ) (now : Timespec) (l : Memlog)
    → IsValid l
    → Event.adata_24 ≤ event
    → event < 256
    → payload < 2 ^ 24
    → (l' : Memlog) × (word : ℕ) × (memlog_log24 event payload now l ≡ some l')
      × Written (record { event_id = word; time = now }) l l'
      × (memlog_id word ≡ event)
      × (memlog_data24 word ≡ payload)
unfolding memlog_log24 memlog_encode24 memlog_id memlog_data24
memlog_log24-Written event payload now l v low high small = (
  stored _ l,
  memlog_encode24 event payload,
  rw (lt→ltb payload 0x1000000 small, le→leb Event.adata_24 event low) (store_lem _ now l v),
  stored-Written _ l v,
  omega arith,
  omega arith,
)
