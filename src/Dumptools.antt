-- ===== src/Dumptools.antt =====
-- simple-capture/dumptools.c and dumptools.h: an image or a raw buffer becomes a file.
-- The model keeps the calls to the file system in their order, each open(2) with its reply. The
-- printing of a name is not modelled: a name is the three values it is printed from. In a call a
-- header is its type, timestamp and id, from which Header prints its text. A short write(2) only
-- prints a message.
pub mod Image
pub mod Header
use synchronome.Base.{
  ℕ, zero, ◌+◌, ◌%◌, Bool, true, false, ◌==◌, if◌then◌else◌, List, [], ◌∷◌, ◌++◌, Option, none,
  some,
}
use synchronome.Base.Int.{ℤ, pos, negsuc}
use synchronome.Timetools.{Timespec}
use synchronome.Buffer.{Buffer, Memory, buffer_get_timestamp}

abbrev pub debug_none : ℤ
debug_none = negsuc 0

abbrev pub ppm_buffer : ℕ
ppm_buffer = 1

abbrev pub pgm_buffer : ℕ
pgm_buffer = 2

abbrev pub file_number_max : ℕ
file_number_max = 1801

-- "./frames/frame" and "./errors/buffer"
pub data Prefix : Type 0 where
  frames errors : Prefix

pub data Suffix : Type 0 where
  yuv ppm pgm xxx : Suffix

pub record FileName : Type 0 where
  pub prefix : Prefix
  pub number : ℕ
  pub suffix : Suffix

pub data Call : Type 0 where
  open_file : Bool → FileName → Call
  write_header : ℕ → Timespec → ℤ → Call
  write_bytes : Memory → ℕ → Call
  close_file : Call

-- `frame_num_s` and the calls so far.
pub record Disk : Type 0 where
  pub frame_num_s : ℕ
  pub calls : List Call

abbrev call : Disk → Call → Disk
call d c = record d { calls = d.calls ++ (c ∷ []) }

-- A NULL prefix is the one of the frames; a file that does not open gives `none`.
open_for_write : Bool → ℕ → Option Prefix → Suffix → Disk → Bool × Disk
open_for_write reply index none suffix d =
    (reply, call d (open_file reply (record { prefix = frames; number = index; suffix = suffix })))
open_for_write reply index (some p) suffix d =
    (reply, call d (open_file reply (record { prefix = p; number = index; suffix = suffix })))

-- A raw buffer written behind the opening.
raw_body : Buffer → Bool × Disk → Disk
raw_body b (false, d) = d
raw_body b (true, d) = call (call d (write_bytes b.start b.size)) close_file

pub dump_buffer_raw : Bool → Buffer → ℕ → ℕ → Disk → Disk
unfolding open_for_write raw_body
dump_buffer_raw reply b id debug d =
    raw_body b (open_for_write reply id (if debug == 1 then some errors else none) yuv d)

-- The assertion on the header's size fails for any other type.
header_with_timestamp : Timespec → ℕ → ℤ → Disk → Option Disk
header_with_timestamp timestamp type id d =
    if type == ppm_buffer
    then some (call d (write_header type timestamp id))
    else if type == pgm_buffer
    then some (call d (write_header type timestamp id))
    else none

debug_prefix : ℤ → Option Prefix
debug_prefix (pos n) = some errors
debug_prefix (negsuc n) = none

-- The number of the file, an `uint16_t`.
file_number : ℤ → Disk → ℕ
file_number (pos n) d = n % 65_536
file_number (negsuc n) d = d.frame_num_s

suffix_of : ℕ → Suffix
suffix_of type = if type == ppm_buffer then ppm else if type == pgm_buffer then pgm else xxx

-- Only a dump with DEBUG_NONE counts its frame.
advance : ℤ → Disk → Disk
advance (negsuc zero) d =
    let next = (d.frame_num_s + 1) % 65_536 in
    record d { frame_num_s = if next == file_number_max then 0 else next }
advance debug_id d = d

-- What follows the opening.
image_body : Buffer → ℕ → ℤ → Bool × Disk → Option Disk
unfolding header_with_timestamp advance
image_body b type debug_id (false, d) = some d
image_body b type debug_id (true, d) =
    elim (header_with_timestamp (buffer_get_timestamp b) type b.id d) [
      | none ↦ none
      | some d' ↦ some (call (advance debug_id (call d' (write_bytes b.start b.size))) close_file)
    ]

-- `none` is a failed assertion; `reply` tells whether open(2) gave a descriptor.
pub dump_raw_buffer_with_header : Bool → Buffer → ℕ → ℤ → Disk → Option Disk
unfolding open_for_write image_body debug_prefix file_number suffix_of
dump_raw_buffer_with_header reply b type debug_id d =
    image_body b type debug_id
      (open_for_write reply (file_number debug_id d) (debug_prefix debug_id) (suffix_of type) d)
