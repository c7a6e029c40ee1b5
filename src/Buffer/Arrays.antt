-- ===== src/Buffer/Arrays.antt =====
-- Predicates of a buffer's memory, and of each buffer of an array.
use mathlib.Core.List.{append-nil}
use synchronome.Base.{
  zero, suc, replicate, leb, ◌&&◌, ℕ, ◌*◌, ◌<◌, ◌≡◌, refl, sym, ap, ap₂, subst, ◌∙◌, ◌==◌, List, [],
  ◌∷◌, ◌++◌, some, length, take, drop, get_elem?, set, arith, true, ==_iff, if_then,
}
use synchronome.Buffer.{
  Buffer, Memory, null, live, freed, frame_size, native_camera_format_size, copy_bytes, copy_buffer,
}

abbrev pub IsLive : Memory → Type 0
IsLive null = ⊥
IsLive (live bytes) = Unit {0}
IsLive freed = ⊥

-- Memory of a given size.
abbrev pub HasBytes : ℕ → Memory → Type 0
HasBytes n null = ⊥
HasBytes n (live bytes) = length bytes ≡ n
HasBytes n freed = ⊥

-- A run of one byte.
pub filled : ℕ → ℕ → List ℕ
filled zero byte = []
filled (suc n) byte = byte ∷ filled n byte

pub length-filled : (n byte : ℕ) → length (filled n byte) ≡ n
unfolding filled
length-filled zero byte = refl
length-filled (suc n) byte = ap suc (length-filled n byte)

abbrev pub All : (Buffer → Type 0) → List Buffer → Type 0
All P [] = Unit {0}
All P (b ∷ bs) = P b × All P bs

-- Memory of a camera frame's size, and the field that says so.
abbrev pub IsFrame : Buffer → Type 0
IsFrame b =
    HasBytes (frame_size * native_camera_format_size) b.start
    × (b.size ≡ frame_size * native_camera_format_size)

pub All-get_elem? :
    (P : Buffer → Type 0) (bs : List Buffer) (i : ℕ)
    → All P bs
    → i < length bs
    → (b : Buffer) × (get_elem? bs i ≡ some b) × P b
All-get_elem? P [] i h lt = absurd (omega arith)
All-get_elem? P (b ∷ bs) zero h lt = (b, refl, h.0)
All-get_elem? P (b ∷ bs) (suc i) h lt = All-get_elem? P bs i h.1 (omega arith)

pub All-set :
    (P : Buffer → Type 0) (bs : List Buffer) (i : ℕ) (b : Buffer)
    → All P bs
    → P b
    → All P (set bs i b)
All-set P [] i b h p = tt
All-set P (x ∷ bs) zero b h p = (p, h.1)
All-set P (x ∷ bs) (suc i) b h p = (h.0, All-set P bs i b h.1 p)

take_whole : (l : List ℕ) → take (length l) l ≡ l
take_whole [] = refl
take_whole (x ∷ l) = ap (λ t. x ∷ t) (take_whole l)

drop_whole : (l : List ℕ) → drop (length l) l ≡ []
drop_whole [] = refl
drop_whole (x ∷ l) = drop_whole l

-- A copy between memories of the size copied.
copy_bytes-whole : (n : ℕ) (m k : Memory) → HasBytes n m → HasBytes n k → copy_bytes n m k ≡ some k
unfolding copy_bytes
copy_bytes-whole n null k g h = absurd g
copy_bytes-whole n freed k g h = absurd g
copy_bytes-whole n (live old) null g h = absurd h
copy_bytes-whole n (live old) freed g h = absurd h
copy_bytes-whole n (live old) (live bytes) g h =
    let all : take n bytes ≡ bytes = subst (λ k. take k bytes ≡ bytes) h (take_whole bytes) in
    let none_left : drop n old ≡ [] = subst (λ k. drop k old ≡ []) g (drop_whole old) in
    let fits : (leb n (length old) && leb n (length bytes)) ≡ true = ground (arith, g, h) in
    if_then _ _ fits
    ∙ ap₂ (λ a b. some (live (a ++ b))) all none_left
    ∙ ap (λ l. some (live l)) (append-nil bytes)

-- A copy between two frames passes its assertion and stays within both memories.
pub copy_buffer-frame :
    (dst src : Buffer)
    → IsFrame dst
    → IsFrame src
    → copy_buffer dst src ≡ some (record dst { start = src.start })
unfolding copy_buffer
copy_buffer-frame dst src h k =
    let n = frame_size * native_camera_format_size in
    let same : (dst.size == src.size) ≡ true = (==_iff _ _).1 (h.1 ∙ sym k.1) in
    let whole : copy_bytes dst.size dst.start src.start ≡ some src.start =
      ap (λ s. copy_bytes s dst.start src.start) h.1
      ∙ copy_bytes-whole n dst.start src.start h.0 k.0 in
    rw (same, whole)

pub All-replicate : (P : Buffer → Type 0) (n : ℕ) (b : Buffer) → P b → All P (replicate n b)
All-replicate P zero b h = tt
All-replicate P (suc n) b h = (h, All-replicate P n b h)
