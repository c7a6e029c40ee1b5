-- ===== src/Verify/Roundtrip.antt =====
-- A header that dumptools.c writes is read back by verify_frames.c.
use mathlib.Core.List.{append_assoc, append-nil}
use synchronome.Base.{
  ℕ, suc, ◌^◌, ◌<◌, ◌≡◌, refl, sym, ap, ◌∙◌, List, [], ◌∷◌, ◌++◌, length, length-append, arith,
  some,
}
use synchronome.Base.Int.{pos}
use synchronome.Timetools.{Timespec}
use synchronome.Buffer.{frame_size}
use synchronome.Dumptools.{pgm_buffer}
use synchronome.Dumptools.Header.{
  padded, header_depth, header_text, header_written, header_written-fits,
}
use synchronome.Verify.{
  Reader, continues, read_byte, plain, counted, round, burn_header, header_read, load_pieces,
  decode_time, atol,
}
use synchronome.Verify.Decimal.{Ends, atol-padded}
use synchronome.Verify.Comment.{
  text, length-text, comment_text-fits, fresh, first_part, decode_lem, behind, read_comment_lem,
}
use synchronome.Verify.Pieces.{load_pieces_lem}

-- From behind the comment to the image.
last_part :
    (sec nsec id : ℕ) (image comment : List ℕ)
    → burn_header 6 (continues (behind sec nsec id (10 ∷ 50 ∷ 53 ∷ 53 ∷ 10 ∷ image) comment))
      ≡ header_read (record (behind sec nsec id image comment) {
        dummy = 10;
        header_count = 15;
        header_token = 4;
      })
unfolding burn_header round read_byte plain counted
last_part sec nsec id image comment = refl

header_text_lem :
    (sec nsec id : ℕ) (image : List ℕ)
    → sec < 10 ^ 10
    → nsec < 10 ^ 9
    → id < 10 ^ 6
    → header_text pgm_buffer (record { tv_sec = pos sec; tv_nsec = pos nsec }) (pos id) ++ image
      ≡ 80 ∷ 53 ∷ 10 ∷ 54 ∷ 52 ∷ 48 ∷ 32 ∷ 52 ∷ 56 ∷ 48 ∷ 10 ∷ 35 ∷ text sec nsec id
        ++ (10 ∷ 50 ∷ 53 ∷ 53 ∷ 10 ∷ image)
unfolding header_text
header_text_lem sec nsec id image h k l =
    ap
      (λ c.
        80 ∷ 53 ∷ 10 ∷ 54 ∷ 52 ∷ 48 ∷ 32 ∷ 52 ∷ 56 ∷ 48 ∷ 10 ∷ 35 ∷ c
        ++ (10 ∷ header_depth)
        ++ image)
      (comment_text-fits sec nsec id h k l)
    ∙ ap (λ c. 80 ∷ 53 ∷ 10 ∷ 54 ∷ 52 ∷ 48 ∷ 32 ∷ 52 ∷ 56 ∷ 48 ∷ 10 ∷ 35 ∷ c)
        (append_assoc (text sec nsec id) (10 ∷ header_depth) image)

written_whole :
    (sec nsec id : ℕ)
    → sec < 10 ^ 10
    → nsec < 10 ^ 9
    → id < 10 ^ 6
    → let written =
        header_text pgm_buffer (record { tv_sec = pos sec; tv_nsec = pos nsec }) (pos id) in
      header_written written ≡ some written
written_whole sec nsec id h k l =
    let written =
      header_text pgm_buffer (record { tv_sec = pos sec; tv_nsec = pos nsec }) (pos id) in
    let bytes = sym (append-nil written) ∙ header_text_lem sec nsec id [] h k l in
    header_written-fits written (
      omega (
        arith,
        ap length bytes,
        length-append (text sec nsec id) (10 ∷ header_depth),
        length-text sec nsec id,
      ))

-- A PGM file whose time has at most ten digits of seconds and whose id at most six: the header is
-- written whole, and verify_frames.c reads it, stops at the image's first byte, and has the time, the
-- id and all bytes of the image again, unless what lies in memory behind its two strings goes on with
-- a digit.
pub header_text-burn_header :
    (sec nsec id : ℕ) (image comment behind_sec behind_nsec : List ℕ)
    → sec < 10 ^ 10
    → nsec < 10 ^ 9
    → id < 10 ^ 6
    → Ends behind_sec
    → Ends behind_nsec
    → length image ≡ frame_size
    → let time : Timespec = record { tv_sec = pos sec; tv_nsec = pos nsec } in
      let written = header_text pgm_buffer time (pos id) in
      (header_written written ≡ some written)
      × (r : Reader) × (burn_header 18 (continues (fresh (written ++ image) comment))
          ≡ header_read r)
      × (r.file ≡ image)
      × (decode_time r.timestamp behind_sec behind_nsec ≡ time)
      × (atol r.id_str ≡ pos id)
      × (load_pieces (suc frame_size) r.file [] ≡ some image)
header_text-burn_header sec nsec id image comment behind_sec behind_nsec h k l e f whole =
    let tail = 10 ∷ 50 ∷ 53 ∷ 53 ∷ 10 ∷ image in
    (
      written_whole sec nsec id h k l,
      record (behind sec nsec id image comment) { dummy = 10; header_count = 15; header_token = 4 },
      ap (λ t. burn_header 18 (continues (fresh t comment)))
            (header_text_lem sec nsec id image h k l)
          ∙ first_part (text sec nsec id ++ tail) comment
          ∙ ap (λ r. burn_header 6 (continues r)) (read_comment_lem sec nsec id tail comment)
          ∙ last_part sec nsec id image comment,
      refl,
      decode_lem sec nsec behind_sec behind_nsec h k e f,
      ap atol (sym (append-nil (padded 6 id))) ∙ atol-padded 5 id [] l tt,
      load_pieces_lem (suc frame_size) image [] (omega (arith, whole)) (omega (arith, whole)),
    )
