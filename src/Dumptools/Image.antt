-- ===== src/Dumptools/Image.antt =====
-- The calls and the counter of `dump_raw_buffer_with_header` for a frame.
use synchronome.Base.{
  ℕ, ◌+◌, ◌%◌, ◌<◌, ◌≡◌, refl, ap, true, false, List, [], ◌∷◌, ◌++◌, some, arith, ◌==◌,
  if◌then◌else◌,
}
use synchronome.Buffer.{Buffer}
use synchronome.Dumptools.{
  Disk, Call, open_file, write_header, write_bytes, close_file, frames, ppm, ppm_buffer, debug_none,
  file_number_max, dump_raw_buffer_with_header,
}

-- The calls that write one frame.
unfoldable pub frame_file : ℕ → Buffer → List Call
frame_file number b =
    open_file true (record { prefix = frames; number = number; suffix = ppm })
    ∷ write_header ppm_buffer b.time b.id
    ∷ write_bytes b.start b.size
    ∷ close_file
    ∷ []

unfoldable pub filed : Buffer → Disk → Disk
filed image d = record {
  frame_num_s = if d.frame_num_s + 1 == file_number_max then 0 else d.frame_num_s + 1;
  calls = d.calls ++ frame_file d.frame_num_s image;
}

unfoldable pub refused : Disk → Disk
refused d = record d {
  calls =
      d.calls
      ++ (open_file false (record { prefix = frames; number = d.frame_num_s; suffix = ppm }) ∷ []);
}

four :
    (l : List Call) (a b c e : Call)
    → (((l ++ (a ∷ [])) ++ (b ∷ [])) ++ (c ∷ [])) ++ (e ∷ []) ≡ l ++ (a ∷ b ∷ c ∷ e ∷ [])
four [] a b c e = refl
four (x ∷ l) a b c e = ap (λ t. x ∷ t) (four l a b c e)

small : (n : ℕ) → n < file_number_max → (n + 1) % 65_536 ≡ n + 1
small n h = omega (arith, h)

pub dump_image :
    (image : Buffer) (d : Disk)
    → d.frame_num_s < file_number_max
    → dump_raw_buffer_with_header true image ppm_buffer debug_none d ≡ some (filed image d)
unfolding dump_raw_buffer_with_header filed frame_file
dump_image image d h = ap some (λ i. record {
  frame_num_s = if small d.frame_num_s h i == file_number_max then 0 else small d.frame_num_s h i;
  calls =
      four d.calls
        (open_file true (record { prefix = frames; number = d.frame_num_s; suffix = ppm }))
        (write_header ppm_buffer image.time image.id) (write_bytes image.start image.size)
        close_file i;
})

pub dump_refused :
    (image : Buffer) (d : Disk)
    → dump_raw_buffer_with_header false image ppm_buffer debug_none d ≡ some (refused d)
unfolding dump_raw_buffer_with_header refused
dump_refused image d = refl
