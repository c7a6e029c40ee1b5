-- ===== src/Verify.antt =====
-- simple-capture/wcet/verify_frames.c: the program that reads the image files back, from their header,
-- and checks the time between them. It is the build for PGM files at 1 Hz.

pub mod Decimal
pub mod Comment
pub mod Pieces
pub mod Roundtrip
pub mod Check
pub mod Jitter
mod Tests
use synchronome.Base.{
  ℕ, zero, suc, ◌+◌, ◌-◌, ◌*◌, ◌/◌, Bool, true, false, ltb, leb, ◌==◌, ◌&&◌, ◌||◌, if◌then◌else◌,
  List, [], ◌∷◌, ◌++◌, Option, none, some, length, take, drop,
}
use synchronome.Base.Int.{ℤ, pos, negsuc, ◌-ℤ◌, ltb_ℤ}
use synchronome.Timetools.{Timespec, timespec_subtract}
use synchronome.Buffer.{frame_size, x_res}

-- COMMENT_LEN, TIMESTAMP_LEN and ID_LEN
abbrev pub comment_len : ℕ
comment_len = 42

abbrev pub timestamp_len : ℕ
timestamp_len = 20

abbrev pub id_len : ℕ
id_len = 6

-- strncpy(3): up to a NUL, and zeros from there on.
unfoldable pub strncpy : ℕ → List ℕ → List ℕ
strncpy zero l = []
strncpy (suc n) [] = 0 ∷ strncpy n []
strncpy (suc n) (zero ∷ l) = 0 ∷ strncpy n []
strncpy (suc n) (suc c ∷ l) = suc c ∷ strncpy n l

abbrev pub is_digit : ℕ → Bool
is_digit c = leb 48 c && leb c 57

-- The digits up to the first character that is none.
unfoldable pub digits_value : ℕ → List ℕ → ℕ
digits_value acc [] = acc
digits_value acc (c ∷ l) =
    let value = digits_value (acc * 10 + (c - 48)) l in if is_digit c then value else acc

abbrev pub is_space : ℕ → Bool
is_space c = (c == 32) || (leb 9 c && leb c 13)

skip_space : List ℕ → List ℕ
skip_space [] = []
skip_space (c ∷ l) = let rest = skip_space l in if is_space c then rest else c ∷ l

signed : List ℕ → ℤ
unfolding digits_value
signed [] = pos 0
signed (c ∷ l) =
    if c == 45
    then pos 0 -ℤ pos (digits_value 0 l)
    else if c == 43
    then pos (digits_value 0 l)
    else pos (digits_value 0 (c ∷ l))

-- atol(3) and atoi(3), without a limit on the value.
pub atol : List ℕ → ℤ
unfolding skip_space signed
atol l = signed (skip_space l)

-- The locals of the loop that burns off the header; `file` is what fread(3) has not read yet.
pub record Reader : Type 0 where
  pub file : List ℕ
  pub dummy : ℕ
  pub comment : List ℕ
  pub timestamp : List ℕ
  pub id_str : List ℕ
  pub header_count : ℕ
  pub header_token : ℕ

-- At the end of the file `dummy` stays as it was.
read_byte : Reader → Reader
read_byte r = elim r.file [ [] ↦ r | c ∷ rest ↦ record r { file = rest; dummy = c } ]

-- A comment that the file cuts short leaves the end of the array as it was.
pub read_comment : Reader → Reader
unfolding strncpy
read_comment r =
    let got = take comment_len r.file in
    let comment = got ++ drop (length got) r.comment in
    record r {
      file = drop comment_len r.file;
      comment = comment;
      timestamp = strncpy timestamp_len comment;
      id_str = strncpy id_len (drop 36 comment);
    }

-- How a round of the loop ends.
pub data Round : Type 0 where
  continues : Reader → Round
  breaks : Reader → Round
  corrupted : Round

counted : Reader → Round
counted r =
    let header_count = r.header_count + 1 in
    if ltb 255 header_count then corrupted else continues (record r { header_count = header_count })

-- A byte that is no comment.
plain : Reader → Round
unfolding counted
plain r =
    let token = if r.dummy == 10 then r.header_token + 1 else r.header_token in
    let r' = record r { header_token = token } in
    let checked = counted r' in if token == 4 then breaks r' else checked

pub round : Reader → Round
unfolding read_byte read_comment plain
round r = let r1 = read_byte r in if r1.dummy == 35 then continues (read_comment r1) else plain r1

-- What the loop comes to; the exit of a corrupted file ends the program.
pub data Burnt : Type 0 where
  out_of_fuel : Burnt
  exits : Burnt
  header_read : Reader → Burnt

-- The loop, on fuel.
pub burn_header : ℕ → Round → Burnt
unfolding round
burn_header fuel (breaks r) = header_read r
burn_header fuel corrupted = exits
burn_header zero (continues r) = out_of_fuel
burn_header (suc fuel) (continues r) = burn_header fuel (round r)

-- The image's bytes, in pieces of one line each; `none` is a failed assertion. `fuel` bounds the
-- pieces.
pub load_pieces : ℕ → List ℕ → List ℕ → Option (List ℕ)
load_pieces zero file start = none
load_pieces (suc fuel) file start =
    let start' = start ++ take x_res file in
    let rest = load_pieces fuel (drop x_res file) start' in
    if length (take x_res file) == 0
    then (if length start == frame_size then some start else none)
    else if leb (length start') frame_size
    then rest
    else none

-- `sec_string` and `nsec_string` are not terminated: atol(3) reads on into the bytes behind them.
pub decode_time : List ℕ → List ℕ → List ℕ → Timespec
unfolding strncpy atol
decode_time timestamp behind_sec behind_nsec = record {
  tv_sec = atol (strncpy 10 timestamp ++ behind_sec);
  tv_nsec = atol (strncpy 9 (drop 11 timestamp) ++ behind_nsec);
}
