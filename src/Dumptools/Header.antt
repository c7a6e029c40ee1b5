-- ===== src/Dumptools/Header.antt =====
-- simple-capture/dumptools.c: the bytes of an image's header, as snprintf(3) prints them.
use synchronome.Base.{
  if_then, true, ◌^◌, ◌<◌, ◌≤◌, ◌≡◌, ap, arith, ℕ, zero, suc, ◌+◌, ◌-◌, ◌/◌, ◌%◌, max, ltb, ◌==◌,
  if◌then◌else◌, List, [], ◌∷◌, ◌++◌, Option, none, some, length, take,
}
use synchronome.Base.Int.{ℤ, pos, negsuc}
use synchronome.Timetools.{Timespec}
use synchronome.Dumptools.{ppm_buffer, pgm_buffer}

-- The last `w` decimal digits, as characters.
unfoldable pub padded : ℕ → ℕ → List ℕ
padded zero n = []
padded (suc w) n = padded w (n / 10) ++ ((48 + n % 10) ∷ [])

-- How many digits a number has, with fuel for all but the last.
digits_of : ℕ → ℕ → ℕ
digits_of zero n = 1
digits_of (suc fuel) n = let more = digits_of fuel (n / 10) in if ltb n 10 then 1 else suc more

unfoldable pub num_digits : ℕ → ℕ
unfolding digits_of
num_digits n = digits_of n n

-- The conversion %0wd, which cuts nothing off.
unfoldable pub zero_filled : ℕ → ℤ → List ℕ
zero_filled w (pos n) = padded (max w (num_digits n)) n
zero_filled w (negsuc n) = 45 ∷ padded (max (w - 1) (num_digits (suc n))) (suc n)

-- PPM_HEADER_RES: "640 480\n".
abbrev pub header_res : List ℕ
header_res = 54 ∷ 52 ∷ 48 ∷ 32 ∷ 52 ∷ 56 ∷ 48 ∷ 10 ∷ []

-- " TIMESTAMP_E id:"
abbrev pub timestamp_e : List ℕ
timestamp_e = 32 ∷ 84 ∷ 73 ∷ 77 ∷ 69 ∷ 83 ∷ 84 ∷ 65 ∷ 77 ∷ 80 ∷ 95 ∷ 69 ∷ 32 ∷ 105 ∷ 100 ∷ 58 ∷ []

-- PPM_HEADER_DEPTH: "255\n".
abbrev pub header_depth : List ℕ
header_depth = 50 ∷ 53 ∷ 53 ∷ 10 ∷ []

-- What follows the `#`.
unfoldable pub comment_text : Timespec → ℤ → List ℕ
comment_text timestamp id =
    zero_filled 10 timestamp.tv_sec
    ++ (46 ∷ zero_filled 9 timestamp.tv_nsec ++ (timestamp_e ++ zero_filled 6 id))

-- "P6\n" or "P5\n" and the rest; of any other type the assertion on the size fails.
unfoldable pub header_text : ℕ → Timespec → ℤ → List ℕ
header_text type timestamp id =
    let rest = header_res ++ (35 ∷ comment_text timestamp id ++ (10 ∷ header_depth)) in
    if type == ppm_buffer
    then 80 ∷ 54 ∷ 10 ∷ rest
    else if type == pgm_buffer
    then 80 ∷ 53 ∷ 10 ∷ rest
    else []

-- PGM_HEADER_MAX_LEN
abbrev pub header_max_len : ℕ
header_max_len = 62

-- What is written of it: snprintf(3) cuts a text that does not fit and returns its whole size, which
-- is then written; `none` is a read past the buffer.
unfoldable pub header_written : List ℕ → Option (List ℕ)
header_written text =
    if ltb (length text) header_max_len
    then some text
    else if length text == header_max_len
    then some (take 61 text ++ (0 ∷ []))
    else none

digits_of-small : (fuel n w : ℕ) → n < 10 ^ suc w → digits_of fuel n ≤ suc w
unfolding digits_of
digits_of-small zero n w h = omega arith
digits_of-small (suc fuel) n zero h = ground (arith, h)
digits_of-small (suc fuel) n (suc w) h =
    let more : digits_of fuel (n / 10) ≤ suc w =
      digits_of-small fuel (n / 10) w (ground (arith, h)) in
    ground (arith, more)

-- A number that fits the field is printed in just that field.
pub zero_filled-fits : (w n : ℕ) → n < 10 ^ suc w → zero_filled (suc w) (pos n) ≡ padded (suc w) n
unfolding zero_filled num_digits
zero_filled-fits w n h =
    let small = digits_of-small n n w h in ap (λ k. padded k n) (omega (arith, small))

pub header_written-fits :
    (text : List ℕ) → length text < header_max_len → header_written text ≡ some text
unfolding header_written
header_written-fits text h =
    let e : ltb (length text) header_max_len ≡ true = ground (arith, h) in if_then _ _ e
