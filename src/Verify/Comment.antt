-- ===== src/Verify/Comment.antt =====
-- The comment of a header, with the time and the id, as it is printed and as it is read.
use mathlib.Core.List.{append_assoc, append-nil}
use synchronome.Base.{
  ℕ, ◌^◌, ◌<◌, ◌≡◌, refl, sym, ap, subst, ◌∙◌, List, [], ◌∷◌, ◌++◌, length, length-append, take,
  drop, arith,
}
use synchronome.Base.Int.{pos}
use synchronome.Dumptools.Header.{padded, zero_filled-fits, timestamp_e, comment_text}
use synchronome.Verify.{
  strncpy, Reader, continues, read_byte, read_comment, plain, counted, round, burn_header,
  decode_time, atol, comment_len,
}
use synchronome.Verify.Decimal.{
  NoNul, NoNul-append, padded-NoNul, strncpy-NoNul, length-padded, Ends, atol-padded,
  strncpy-padded,
}

-- The comment of a time and an id that fit their fields.
pub text : ℕ → ℕ → ℕ → List ℕ
text sec nsec id = padded 10 sec ++ (46 ∷ padded 9 nsec ++ (timestamp_e ++ padded 6 id))

pub comment_text-fits :
    (sec nsec id : ℕ)
    → sec < 10 ^ 10
    → nsec < 10 ^ 9
    → id < 10 ^ 6
    → comment_text (record { tv_sec = pos sec; tv_nsec = pos nsec }) (pos id) ≡ text sec nsec id
unfolding comment_text text
comment_text-fits sec nsec id h k l =
    rw (zero_filled-fits 9 sec h, zero_filled-fits 8 nsec k, zero_filled-fits 5 id l) refl

pub length-text : (sec nsec id : ℕ) → length (text sec nsec id) ≡ comment_len
unfolding text
length-text sec nsec id = omega (
  arith,
  length-append (padded 10 sec) (46 ∷ padded 9 nsec ++ (timestamp_e ++ padded 6 id)),
  length-append (padded 9 nsec) (timestamp_e ++ padded 6 id),
  length-padded 10 sec,
  length-padded 9 nsec,
  length-padded 6 id,
)

take-length : (l m : List ℕ) → take (length l) (l ++ m) ≡ l
take-length [] m = refl
take-length (x ∷ l) m = ap (λ t. x ∷ t) (take-length l m)

drop-length : (l m : List ℕ) → drop (length l) (l ++ m) ≡ m
drop-length [] m = refl
drop-length (x ∷ l) m = drop-length l m

abbrev pub fresh : List ℕ → List ℕ → Reader
fresh file comment = record {
  file = file;
  dummy = 0;
  comment = comment;
  timestamp = [];
  id_str = [];
  header_count = 0;
  header_token = 0;
}

-- Up to the comment.
pub first_part :
    (tail comment : List ℕ)
    → burn_header 18 (
        continues
          (fresh (80 ∷ 53 ∷ 10 ∷ 54 ∷ 52 ∷ 48 ∷ 32 ∷ 52 ∷ 56 ∷ 48 ∷ 10 ∷ 35 ∷ tail) comment))
      ≡ burn_header 6 (
          continues (
            read_comment (record {
              file = tail;
              dummy = 35;
              comment = comment;
              timestamp = [];
              id_str = [];
              header_count = 11;
              header_token = 2;
            })))
unfolding burn_header round read_byte plain counted
first_part tail comment = refl

-- The time of the comment, as it is printed.
pub stamp : ℕ → ℕ → List ℕ
stamp sec nsec = padded 10 sec ++ (46 ∷ padded 9 nsec)

length-stamp : (sec nsec : ℕ) → length (stamp sec nsec) ≡ 20
unfolding stamp
length-stamp sec nsec = omega (
  arith,
  length-append (padded 10 sec) (46 ∷ padded 9 nsec),
  length-padded 10 sec,
  length-padded 9 nsec,
)

stamp-NoNul : (sec nsec : ℕ) → NoNul (stamp sec nsec)
unfolding stamp
stamp-NoNul sec nsec =
    NoNul-append (padded 10 sec) (46 ∷ padded 9 nsec) (padded-NoNul 10 sec)
      (omega arith, padded-NoNul 9 nsec)

text-stamp :
    (sec nsec id : ℕ) (extra : List ℕ)
    → text sec nsec id ++ extra ≡ stamp sec nsec ++ (timestamp_e ++ (padded 6 id ++ extra))
unfolding text stamp
text-stamp sec nsec id extra =
    append_assoc (padded 10 sec) (46 ∷ padded 9 nsec ++ (timestamp_e ++ padded 6 id)) extra
    ∙ ap (λ l. padded 10 sec ++ (46 ∷ l))
        (append_assoc (padded 9 nsec) (timestamp_e ++ padded 6 id) extra
          ∙ ap (λ l. padded 9 nsec ++ l) (append_assoc timestamp_e (padded 6 id) extra))
    ∙ sym
        (append_assoc (padded 10 sec) (46 ∷ padded 9 nsec) (timestamp_e ++ (padded 6 id ++ extra)))

timestamp_lem :
    (sec nsec id : ℕ) (extra : List ℕ) → strncpy 20 (text sec nsec id ++ extra) ≡ stamp sec nsec
timestamp_lem sec nsec id extra =
    ap (strncpy 20) (text-stamp sec nsec id extra)
    ∙ subst
        (λ k.
          strncpy k (stamp sec nsec ++ (timestamp_e ++ (padded 6 id ++ extra))) ≡ stamp sec nsec)
        (length-stamp sec nsec)
        (strncpy-NoNul (stamp sec nsec) (timestamp_e ++ (padded 6 id ++ extra))
          (stamp-NoNul sec nsec))

dropped : (n : ℕ) (l m : List ℕ) → length l ≡ n → drop n (l ++ m) ≡ m
dropped n l m h = subst (λ k. drop k (l ++ m) ≡ m) h (drop-length l m)

id_lem :
    (sec nsec id : ℕ) (extra : List ℕ)
    → strncpy 6 (drop 36 (text sec nsec id ++ extra)) ≡ padded 6 id
id_lem sec nsec id extra =
    let all = stamp sec nsec ++ timestamp_e in
    let long : length all ≡ 36 =
      omega (arith, length-append (stamp sec nsec) timestamp_e, length-stamp sec nsec) in
    ap (λ l. strncpy 6 (drop 36 l))
      (text-stamp sec nsec id extra
        ∙ sym (append_assoc (stamp sec nsec) timestamp_e (padded 6 id ++ extra)))
    ∙ ap (strncpy 6) (dropped 36 all (padded 6 id ++ extra) long)
    ∙ strncpy-padded 6 id extra

pub decode_lem :
    (sec nsec : ℕ) (behind_sec behind_nsec : List ℕ)
    → sec < 10 ^ 10
    → nsec < 10 ^ 9
    → Ends behind_sec
    → Ends behind_nsec
    → decode_time (stamp sec nsec) behind_sec behind_nsec
      ≡ record { tv_sec = pos sec; tv_nsec = pos nsec }
unfolding decode_time stamp
decode_lem sec nsec behind_sec behind_nsec h k e f =
    let s : atol (strncpy 10 (padded 10 sec ++ (46 ∷ padded 9 nsec)) ++ behind_sec) ≡ pos sec =
      ap (λ l. atol (l ++ behind_sec)) (strncpy-padded 10 sec (46 ∷ padded 9 nsec))
      ∙ atol-padded 9 sec behind_sec h e in
    let point : length (padded 10 sec ++ (46 ∷ [])) ≡ 11 =
      omega (arith, length-append (padded 10 sec) (46 ∷ []), length-padded 10 sec) in
    let behind : drop 11 (padded 10 sec ++ (46 ∷ padded 9 nsec)) ≡ padded 9 nsec =
      ap (drop 11) (sym (append_assoc (padded 10 sec) (46 ∷ []) (padded 9 nsec)))
      ∙ dropped 11 (padded 10 sec ++ (46 ∷ [])) (padded 9 nsec) point in
    let n : atol (strncpy 9 (drop 11 (padded 10 sec ++ (46 ∷ padded 9 nsec))) ++ behind_nsec)
        ≡ pos nsec =
      ap (λ l. atol (strncpy 9 l ++ behind_nsec)) behind
      ∙ ap (λ l. atol (l ++ behind_nsec))
          (ap (strncpy 9) (sym (append-nil (padded 9 nsec))) ∙ strncpy-padded 9 nsec [])
      ∙ atol-padded 8 nsec behind_nsec k f in
    λ i. record { tv_sec = s i; tv_nsec = n i }

taken : (n : ℕ) (l m : List ℕ) → length l ≡ n → take n (l ++ m) ≡ l
taken n l m h = subst (λ k. take k (l ++ m) ≡ l) h (take-length l m)

abbrev pub at_comment : List ℕ → List ℕ → Reader
at_comment file comment = record {
  file = file;
  dummy = 35;
  comment = comment;
  timestamp = [];
  id_str = [];
  header_count = 11;
  header_token = 2;
}

-- Behind the comment.
abbrev pub behind : ℕ → ℕ → ℕ → List ℕ → List ℕ → Reader
behind sec nsec id tail comment = record {
  file = tail;
  dummy = 35;
  comment = text sec nsec id ++ drop (length (text sec nsec id)) comment;
  timestamp = stamp sec nsec;
  id_str = padded 6 id;
  header_count = 11;
  header_token = 2;
}

pub read_comment_lem :
    (sec nsec id : ℕ) (tail comment : List ℕ)
    → read_comment (at_comment (text sec nsec id ++ tail) comment) ≡ behind sec nsec id tail comment
unfolding read_comment
read_comment_lem sec nsec id tail comment =
    let t : take comment_len (text sec nsec id ++ tail) ≡ text sec nsec id =
      taken comment_len (text sec nsec id) tail (length-text sec nsec id) in
    let d : drop comment_len (text sec nsec id ++ tail) ≡ tail =
      dropped comment_len (text sec nsec id) tail (length-text sec nsec id) in
    let extra = drop (length (text sec nsec id)) comment in
    (λ i. record {
      file = d i;
      dummy = 35;
      comment = t i ++ drop (length (t i)) comment;
      timestamp = strncpy 20 (t i ++ drop (length (t i)) comment);
      id_str = strncpy 6 (drop 36 (t i ++ drop (length (t i)) comment));
      header_count = 11;
      header_token = 2;
    })
    ∙ (λ i. record {
      file = tail;
      dummy = 35;
      comment = text sec nsec id ++ extra;
      timestamp = timestamp_lem sec nsec id extra i;
      id_str = id_lem sec nsec id extra i;
      header_count = 11;
      header_token = 2;
    })
