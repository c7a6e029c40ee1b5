-- ===== src/Verify/Decimal.antt =====
-- Decimal numbers printed with leading zeros and read back.
use mathlib.Core.List.{append_assoc}
use native.Mathlib.Nat.{pow-succ'}
use synchronome.Base.{
  ℕ, zero, suc, ◌+◌, ◌-◌, ◌*◌, ◌/◌, ◌%◌, ◌^◌, ◌<◌, ◌≤◌, ◌≡◌, refl, sym, ap, subst, ◌∙◌, true, false,
  List, [], ◌∷◌, ◌++◌, length, length-append, arith, if_then, if_else, ◌==◌,
}
use synchronome.Base.Int.{pos}
use synchronome.Dumptools.Header.{padded}
use synchronome.Verify.{strncpy, is_digit, digits_value, is_space, skip_space, signed, atol}

pub length-padded : (w n : ℕ) → length (padded w n) ≡ w
unfolding padded
length-padded zero n = refl
length-padded (suc w) n =
    length-append (padded w (n / 10)) ((48 + n % 10) ∷ []) ∙ omega (arith, length-padded w (n / 10))

-- A character of a decimal number.
abbrev pub IsDigit : ℕ → Type 0
IsDigit c = (48 ≤ c) × (c ≤ 57)

abbrev pub AllDigits : List ℕ → Type 0
AllDigits [] = Unit
AllDigits (c ∷ l) = IsDigit c × AllDigits l

AllDigits-append : (l m : List ℕ) → AllDigits l → AllDigits m → AllDigits (l ++ m)
AllDigits-append [] m h k = k
AllDigits-append (c ∷ l) m h k = (h.0, AllDigits-append l m h.1 k)

pub padded-AllDigits : (w n : ℕ) → AllDigits (padded w n)
unfolding padded
padded-AllDigits zero n = tt
padded-AllDigits (suc w) n =
    AllDigits-append (padded w (n / 10)) ((48 + n % 10) ∷ []) (padded-AllDigits w (n / 10))
      ((omega arith, omega arith), tt)

-- What is behind a number does not go on with it.
abbrev pub Ends : List ℕ → Type 0
Ends [] = Unit
Ends (c ∷ l) = is_digit c ≡ false

digits_value-digit :
    (acc c : ℕ) (l : List ℕ)
    → IsDigit c
    → digits_value acc (c ∷ l) ≡ digits_value (acc * 10 + (c - 48)) l
unfolding digits_value
digits_value-digit acc c l h = let e : is_digit c ≡ true = ground (arith, h.0, h.1) in if_then _ _ e

tens : (acc w : ℕ) → acc * 10 ^ suc w ≡ 10 * (acc * 10 ^ w)
tens acc w = ap (λ x. acc * x) (pow-succ' 10 w) ∙ moved acc (10 ^ w)
  where
    moved : (a p : ℕ) → a * (10 * p) ≡ 10 * (a * p)
    moved a p = grind arith

digits_value-padded :
    (w n acc : ℕ) (m : List ℕ)
    → n < 10 ^ w
    → digits_value acc (padded w n ++ m) ≡ digits_value (acc * 10 ^ w + n) m
unfolding padded
digits_value-padded zero n acc m h = ap (λ a. digits_value a m) (omega (arith, h))
digits_value-padded (suc w) n acc m h =
    let d = 48 + n % 10 in
    let value : (acc * 10 ^ w + n / 10) * 10 + (d - 48) ≡ acc * 10 ^ suc w + n =
      omega (arith, tens acc w) in
    ap (digits_value acc) (append_assoc (padded w (n / 10)) (d ∷ []) m)
    ∙ digits_value-padded w (n / 10) acc (d ∷ m) (omega (arith, h, pow-succ' 10 w))
    ∙ digits_value-digit (acc * 10 ^ w + n / 10) d m (omega arith, omega arith)
    ∙ ap (λ a. digits_value a m) value

-- A printed number is read back, if what is behind it does not go on with digits.
digits_value-Ends : (acc : ℕ) (m : List ℕ) → Ends m → digits_value acc m ≡ acc
unfolding digits_value
digits_value-Ends acc [] h = refl
digits_value-Ends acc (c ∷ l) h = if_else _ _ h

-- The sign and the spaces do not touch a number that begins with a digit.
atol-digits : (c : ℕ) (l : List ℕ) → IsDigit c → atol (c ∷ l) ≡ pos (digits_value 0 (c ∷ l))
unfolding atol skip_space signed
atol-digits c l h =
    let space : is_space c ≡ false = ground (arith, h.0, h.1) in
    let minus : (c == 45) ≡ false = ground (arith, h.0) in
    let plus : (c == 43) ≡ false = ground (arith, h.0) in
    ap signed (if_else _ _ space) ∙ if_else _ _ minus ∙ if_else _ _ plus

padded-head : (w n : ℕ) → (c : ℕ) × (l : List ℕ) × (padded (suc w) n ≡ c ∷ l) × IsDigit c
unfolding padded
padded-head zero n = (48 + n % 10, [], refl, (omega arith, omega arith))
padded-head (suc w) n =
    let (c, l, e, d) = padded-head w (n / 10) in
    (c, l ++ ((48 + n % 10) ∷ []), ap (λ x. x ++ ((48 + n % 10) ∷ [])) e, d)

pub atol-padded :
    (w n : ℕ) (m : List ℕ) → n < 10 ^ suc w → Ends m → atol (padded (suc w) n ++ m) ≡ pos n
atol-padded w n m h k =
    let (c, l, e, d) = padded-head w n in
    ap (λ x. atol (x ++ m)) e
    ∙ atol-digits c (l ++ m) d
    ∙ ap (λ x. pos (digits_value 0 (x ++ m))) (sym e)
    ∙ ap pos (
        digits_value-padded (suc w) n 0 m h
        ∙ digits_value-Ends (0 * 10 ^ suc w + n) m k
        ∙ omega arith)

-- Text without a NUL is copied as it stands.
abbrev pub NoNul : List ℕ → Type 0
NoNul [] = Unit
NoNul (c ∷ l) = (0 < c) × NoNul l

pub NoNul-append : (l m : List ℕ) → NoNul l → NoNul m → NoNul (l ++ m)
NoNul-append [] m h k = k
NoNul-append (c ∷ l) m h k = (h.0, NoNul-append l m h.1 k)

NoNul-digits : (l : List ℕ) → AllDigits l → NoNul l
NoNul-digits [] h = tt
NoNul-digits (c ∷ l) h = (omega (arith, h.0.0), NoNul-digits l h.1)

pub padded-NoNul : (w n : ℕ) → NoNul (padded w n)
padded-NoNul w n = NoNul-digits (padded w n) (padded-AllDigits w n)

pub strncpy-NoNul : (l m : List ℕ) → NoNul l → strncpy (length l) (l ++ m) ≡ l
unfolding strncpy
strncpy-NoNul [] m h = refl
strncpy-NoNul (zero ∷ l) m h = absurd (omega (arith, h.0))
strncpy-NoNul (suc c ∷ l) m h = ap (λ x. suc c ∷ x) (strncpy-NoNul l m h.1)

pub strncpy-padded : (w n : ℕ) (m : List ℕ) → strncpy w (padded w n ++ m) ≡ padded w n
strncpy-padded w n m =
    subst (λ k. strncpy k (padded w n ++ m) ≡ padded w n) (length-padded w n)
      (strncpy-NoNul (padded w n) m (padded-NoNul w n))
