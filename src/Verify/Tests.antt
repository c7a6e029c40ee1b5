-- ===== src/Verify/Tests.antt =====
-- A header written and read back, and two images a second and 80 ms apart.
use synchronome.Base.{ℕ, zero, suc, ap, length, ◌≡◌, ◌++◌, refl, List, [], ◌∷◌, some, arith}
use synchronome.Base.Int.{pos}
use synchronome.Timetools.{Timespec}
use synchronome.Buffer.{Buffer, live, frame_size}
use synchronome.Dumptools.{pgm_buffer}
use synchronome.Dumptools.Header.{header_text, header_written}
use synchronome.Verify.{Reader, continues, burn_header, header_read, load_pieces, decode_time, atol}
use synchronome.Verify.Comment.{fresh}
use synchronome.Verify.Roundtrip.{header_text-burn_header}
use synchronome.Verify.Check.{Line, check_from}
use synchronome.Verify.Jitter.{IsImage, TellAll, check_from-TellAll}

abbrev time : Timespec
time = record { tv_sec = pos 351_847; tv_nsec = pos 726_530_079 }

abbrev written : List ℕ
written = header_text pgm_buffer time (pos 11)

-- A list of equal bytes, which the check of a test never writes out.
filled : ℕ → List ℕ
filled zero = []
filled (suc n) = 7 ∷ filled n

length-filled : (n : ℕ) → length (filled n) ≡ n
unfolding filled
length-filled zero = refl
length-filled (suc n) = ap suc (length-filled n)

header_text-burn_header_example :
    (header_written written ≡ some written)
    × (r : Reader) × (burn_header 18 (continues (fresh (written ++ (filled 307_200)) []))
        ≡ header_read r)
    × (r.file ≡ filled 307_200)
    × (decode_time r.timestamp (0 ∷ []) (7 ∷ []) ≡ time)
    × (atol r.id_str ≡ pos 11)
    × (load_pieces (suc frame_size) r.file [] ≡ some (filled 307_200))
header_text-burn_header_example =
    header_text-burn_header 351_847 726_530_079 11 (filled 307_200) [] (0 ∷ []) (7 ∷ [])
      (omega arith) (omega arith) (omega arith) refl refl (length-filled 307_200)

abbrev image : ℕ → ℕ → ℕ → Buffer
image b sec nsec = record {
  start = live (b ∷ b ∷ b ∷ []);
  size = 3;
  time = record { tv_sec = pos sec; tv_nsec = pos nsec };
  index = pos 0;
  id = pos 0;
}

image-IsImage : (b sec : ℕ) → IsImage 3 (image b sec 900_000_000)
image-IsImage b sec = record {
  bytes = b ∷ b ∷ b ∷ [];
  held = refl;
  size = refl;
  normal = record { low = omega arith; high = omega arith };
}

abbrev later : Buffer
later = image 90 7 980_000_000

later-IsImage : IsImage 3 later
later-IsImage = record {
  bytes = 90 ∷ 90 ∷ 90 ∷ [];
  held = refl;
  size = refl;
  normal = record { low = omega arith; high = omega arith };
}

check_from-TellAll_example :
    (lines : List Line) × (bs : List Buffer) × (check_from 1 50_000_000
        (image 10 6 900_000_000)
        (later ∷ [])
      ≡ some (lines, bs))
    × TellAll 3 1 50_000_000 (image 10 6 900_000_000) (later ∷ []) lines
check_from-TellAll_example =
    check_from-TellAll 3 1 50_000_000 (image 10 6 900_000_000) (later ∷ []) (omega arith) refl
      (image-IsImage 10 6) (later-IsImage, tt)
