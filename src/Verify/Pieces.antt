-- ===== src/Verify/Pieces.antt =====
-- The image's bytes, read piece by piece.
use mathlib.Core.List.{append_assoc, append-nil}
use synchronome.Base.{
  ℕ, zero, suc, ◌+◌, ◌<◌, ◌≡◌, refl, sym, ap, ◌∙◌, false, List, [], ◌∷◌, ◌++◌, length,
  length-append, take, drop, arith, some, true, ◌≤◌, ◌==◌, leb, if_then, if_else, length-take,
  length-drop, take-append-drop,
}
use synchronome.Buffer.{frame_size, x_res}
use synchronome.Verify.{load_pieces}

-- The pieces make up the image, which is as long as the assertion at the end wants it.
load_some :
    (fuel : ℕ) (file start : List ℕ) (piece : ℕ)
    → length (take x_res file) ≡ suc piece
    → length (start ++ take x_res file) ≤ frame_size
    → load_pieces (suc fuel) file start
      ≡ load_pieces fuel (drop x_res file) (start ++ take x_res file)
unfolding load_pieces
load_some fuel file start piece e h =
    let some_read : (length (take x_res file) == 0) ≡ false = ground (arith, e) in
    let fits : leb (length (start ++ take x_res file)) frame_size ≡ true = ground (arith, h) in
    if_else _ _ some_read ∙ if_then _ _ fits

load_last :
    (fuel : ℕ) (start : List ℕ)
    → length start ≡ frame_size
    → load_pieces (suc fuel) [] start ≡ some start
unfolding load_pieces
load_last fuel start e =
    let whole : (length start == frame_size) ≡ true = ground (arith, e) in if_then _ _ whole

pub load_pieces_lem :
    (fuel : ℕ) (file start : List ℕ)
    → length file < fuel
    → length start + length file ≡ frame_size
    → load_pieces fuel file start ≡ some (start ++ file)
load_pieces_lem zero file start h e = absurd (omega (arith, h))
load_pieces_lem (suc fuel) [] start h e =
    load_last fuel start (omega (arith, e)) ∙ ap some (sym (append-nil start))
load_pieces_lem (suc fuel) (c ∷ rest) start h e =
    let file = c ∷ rest in
    let piece = take x_res file in
    let short : length (drop x_res file) < fuel = omega (arith, h, length-drop x_res file) in
    let both = length-append start piece in
    load_some fuel file start (length (take 639 rest)) refl
      (omega (arith, e, both, length-take x_res file))
    ∙ load_pieces_lem fuel (drop x_res file) (start ++ piece) short
        (omega (arith, e, both, length-take x_res file, length-drop x_res file))
    ∙ ap some (
        append_assoc start piece (drop x_res file)
        ∙ ap (λ l. start ++ l) (take-append-drop x_res file))
