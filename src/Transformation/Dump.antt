-- ===== src/Transformation/Dump.antt =====
-- What `do_transformations` leaves in the output buffer and in the file.
use synchronome.Base.{
  Bool, ℕ, ◌<◌, ◌≡◌, refl, sym, ap, ◌∙◌, true, false, List, [], ◌∷◌, Option, some, none, length,
  take, le→leb, if_then, arith,
}
use mathlib.Core.List.{append-nil}
use mathlib.Core.Option
use synchronome.Buffer.{Buffer, live, copy_buffer_timestamp}
use synchronome.Dumptools.{
  Disk, file_number_max, dump_raw_buffer_with_header, ppm_buffer, debug_none,
}
use synchronome.Dumptools.Image.{filed, refused, dump_image, dump_refused}
use synchronome.Transformation.{Converted, ok, yuv422torgb888, into, dumped, do_transformations}
use synchronome.Transformation.Layout.{rgb_of, yuv422torgb888_lem}

take_all : (l : List ℕ) → take (length l) l ≡ l
take_all [] = refl
take_all (x ∷ l) = ap (λ t. x ∷ t) (take_all l)

whole_image :
    (src dest : List ℕ)
    → length dest ≡ length (rgb_of src)
    → yuv422torgb888 src dest 0 ≡ ok (rgb_of src)
whole_image src dest h =
    ap (λ t. yuv422torgb888 src t 0) (sym (append-nil dest))
    ∙ yuv422torgb888_lem src [] dest [] h
    ∙ ap ok (append-nil (rgb_of src))

into_lem :
    (src dest : List ℕ) (out : Buffer)
    → length dest ≡ length (rgb_of src)
    → into (live src) (length src) (live dest) out ≡ some (record out { start = live (rgb_of src) })
unfolding into synchronome.Transformation.converted
into_lem src dest out h =
    if_then _ _ (le→leb (length src) (length src) (omega arith))
    ∙ ap (λ l. synchronome.Transformation.converted (yuv422torgb888 l dest 0) out) (take_all src)
    ∙ ap (λ c. synchronome.Transformation.converted c out) (whole_image src dest h)

-- The output buffer with the image of a source's bytes and the source's timestamp and id.
abbrev pub image_of : List ℕ → Buffer → Buffer → Buffer
image_of src b out = record {
  start = live (rgb_of src);
  size = out.size;
  time = b.time;
  index = out.index;
  id = b.id;
}

dumped_lem :
    (reply : Bool) (b out : Buffer) (d d' : Disk)
    → dump_raw_buffer_with_header reply
        (record (copy_buffer_timestamp out b) { id = b.id })
        ppm_buffer
        debug_none
        d
      ≡ some d'
    → dumped reply ppm_buffer (some out) b d
      ≡ some (record (copy_buffer_timestamp out b) { id = b.id }, d')
unfolding dumped
dumped_lem reply b out d d' e =
    ap
      (λ o. elim o [
        | none ↦ none
        | some d' ↦ some (record (copy_buffer_timestamp out b) { id = b.id }, d')
      ])
      e

written :
    (reply : Bool) (b out : Buffer) (d : Disk) (src dest : List ℕ)
    → b.start ≡ live src
    → b.size ≡ length src
    → out.start ≡ live dest
    → length dest ≡ length (rgb_of src)
    → (d' : Disk)
    → dump_raw_buffer_with_header reply (image_of src b out) ppm_buffer debug_none d ≡ some d'
    → do_transformations reply b out d ≡ some (image_of src b out, d')
unfolding do_transformations copy_buffer_timestamp
written reply b out d src dest eb es eo h d' e =
    ap (λ o. dumped reply ppm_buffer o b d)
      ((λ i. into (eb i) (es i) (eo i) out) ∙ into_lem src dest out h)
    ∙ dumped_lem reply b (record out { start = live (rgb_of src) }) d d' e

-- A buffer of YUYV bytes whose output buffer has the size of its RGB image: `do_transformations`
-- succeeds, and the output buffer has the converted image with the timestamp and the id of the source.
-- If the file opens, the calls are those that write this image to the frame file of the counter's
-- number, and the counter moves on, from 1800 to 0; if not, the opening is the only call and the
-- counter stays.
pub do_transformations_lem :
    (b out : Buffer) (d : Disk) (src dest : List ℕ)
    → b.start ≡ live src
    → b.size ≡ length src
    → out.start ≡ live dest
    → length dest ≡ length (rgb_of src)
    → d.frame_num_s < file_number_max
    → let image = image_of src b out in
      (do_transformations true b out d ≡ some (image, filed image d))
      × (do_transformations false b out d ≡ some (image, refused d))
do_transformations_lem b out d src dest eb es eo h hn =
    let image = image_of src b out in
    (
      written true b out d src dest eb es eo h (filed image d) (dump_image image d hn),
      written false b out d src dest eb es eo h (refused d) (dump_refused image d),
    )

-- How a dump leaves the counter and the calls.
abbrev pub after : Bool → Buffer → Disk → Disk
after true image d = filed image d
after false image d = refused d

dump_any :
    (reply : Bool) (image : Buffer) (d : Disk)
    → d.frame_num_s < file_number_max
    → dump_raw_buffer_with_header reply image ppm_buffer debug_none d ≡ some (after reply image d)
dump_any true image d h = dump_image image d h
dump_any false image d h = dump_refused image d

dumped-after :
    (reply : Bool) (o : Option Buffer) (b : Buffer) (d : Disk) {out' : Buffer} {d' : Disk}
    → d.frame_num_s < file_number_max
    → dumped reply ppm_buffer o b d ≡ some (out', d')
    → d' ≡ after reply out' d
dumped-after reply none b d {out'} {d'} hn e =
    unfold dumped in absurd (Option.none-ne-some (out', d') e)
dumped-after reply (some out) b d hn e =
    let image = record (copy_buffer_timestamp out b) { id = b.id } in
    let same =
      Option.some-injective _ _
        (sym (dumped_lem reply b out d _ (dump_any reply image d hn)) ∙ e) in
    sym (ap (λ p. p.1) same) ∙ ap (λ i. after reply i d) (ap (λ p. p.0) same)

pub do_transformations-after :
    (reply : Bool) (b out : Buffer) (d : Disk) {out' : Buffer} {d' : Disk}
    → d.frame_num_s < file_number_max
    → do_transformations reply b out d ≡ some (out', d')
    → d' ≡ after reply out' d
unfolding do_transformations
do_transformations-after reply b out d hn e =
    dumped-after reply (into b.start b.size out.start out) b d hn e
