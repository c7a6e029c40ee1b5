-- ===== src/Buffer/Allocation.antt =====
-- Which buffers hold memory after the arrays are set up and torn down.
use mathlib.Core.List.{head?}
use synchronome.Base.{
  ℕ, zero, suc, ◌+◌, ◌*◌, ◌≡◌, refl, ap, subst, length, inl, inr, ◌⊎◌, List, [], ◌∷◌, Option, none,
  some, arith,
}
use synchronome.Buffer.Arrays.{All, IsLive, HasBytes, IsFrame}
use synchronome.Buffer.{
  Buffer, Memory, null, live, freed, Ret, ok, err, Malloc, Reply, bytes_given, allocated,
  allocate_buffer, frame_size, native_camera_format_size, request, round, freed_both, clean_up,
  allocate_frame_buffer, allocate_all, init_processing, init_writeout, release, deallocate_buffer,
  deallocate_all, deallocate_processing, deallocate_writeout,
}

abbrev pub IsNull : Buffer → Type 0
IsNull b = b.start ≡ null

abbrev pub IsReleased : Buffer → Type 0
IsReleased b = (b.start ≡ null) ⊎ (b.start ≡ freed)

-- Not freed yet, so that freeing it is no fault.
abbrev IsFreeable : Buffer → Type 0
IsFreeable b = (b.start ≡ freed) → ⊥

abbrev AfterAllocate : Ret × List Buffer → Type 0
AfterAllocate (ok, bs) = All IsFrame bs
AfterAllocate (err, bs) = All IsFreeable bs

Freeable_of_null : (bs : List Buffer) → All IsNull bs → All IsFreeable bs
Freeable_of_null [] n = tt
Freeable_of_null (b ∷ bs) n = ((λ e. ground (arith, n.0, e)), Freeable_of_null bs n.1)

-- The memory has the size asked for.
length-bytes_given : (n : ℕ) (content : ℕ → ℕ) → length (bytes_given n content) ≡ n
unfolding bytes_given
length-bytes_given zero content = refl
length-bytes_given (suc n) content = ap suc (length-bytes_given n (λ i. content (suc i)))

round-After :
    (reply : Reply) (b : Buffer) (bs : List Buffer) (later : Ret × List Buffer)
    → All IsNull bs
    → AfterAllocate later
    → AfterAllocate (round (allocate_frame_buffer reply b) bs later)
unfolding round allocate_frame_buffer allocate_buffer allocated
round-After none b bs later n a = ((λ e. cc), Freeable_of_null bs n)
round-After (some content) b bs (ok, bs') n a =
    ((length-bytes_given (request native_camera_format_size) content, refl), a)
round-After (some content) b bs (err, bs') n a = ((λ e. cc), a)

allocate_all-After :
    (malloc : Malloc) (call : ℕ) (bs : List Buffer)
    → All IsNull bs
    → AfterAllocate (allocate_all malloc call bs)
unfolding allocate_all
allocate_all-After malloc call [] n = tt
allocate_all-After malloc call (b ∷ bs) n =
    round-After (malloc call (request native_camera_format_size)) b bs _ n.1
      (allocate_all-After malloc (call + 1) bs n.1)

abbrev pub Released : Option (List Buffer) → Type 0
Released none = ⊥
Released (some bs) = All IsReleased bs

freed-Released :
    (b : Buffer) (m : Memory) (later : Option (List Buffer))
    → b.start ≡ m
    → IsFreeable b
    → Released later
    → Released (freed_both (deallocate_buffer b) later)
unfolding freed_both deallocate_buffer
freed-Released b m none e f l = absurd l
freed-Released b null (some bs) e f l = rw (e, release) (inl refl, l)
freed-Released b (live bytes) (some bs) e f l = rw (e, release) (inr refl, l)
freed-Released b freed (some bs) e f l = absurd (f e)

deallocate_all-Released : (bs : List Buffer) → All IsFreeable bs → Released (deallocate_all bs)
unfolding deallocate_all
deallocate_all-Released [] f = tt
deallocate_all-Released (b ∷ bs) f =
    freed-Released b b.start (deallocate_all bs) refl f.0 (deallocate_all-Released bs f.1)

Freeable_of_frame : (bs : List Buffer) → All IsFrame bs → All IsFreeable bs
Freeable_of_frame [] n = tt
Freeable_of_frame (b ∷ bs) n = (live_ne_freed b.start n.0.0, Freeable_of_frame bs n.1)
  where
    live_ne_freed :
        (m : Memory) → HasBytes (frame_size * native_camera_format_size) m → (m ≡ freed) → ⊥
    live_ne_freed null x e = absurd x
    live_ne_freed (live bytes) x e = cc
    live_ne_freed freed x e = absurd x

-- Arrays of frames can be freed.
pub deallocate_processing-Released :
    (bs : List Buffer) → All IsFrame bs → Released (deallocate_processing bs)
unfolding deallocate_processing
deallocate_processing-Released bs f = deallocate_all-Released bs (Freeable_of_frame bs f)

pub deallocate_writeout-Released :
    (bs : List Buffer) → All IsFrame bs → Released (deallocate_writeout bs)
unfolding deallocate_writeout
deallocate_writeout-Released bs f = deallocate_all-Released bs (Freeable_of_frame bs f)

abbrev pub Initialised : Option (Ret × List Buffer) → Type 0
Initialised none = ⊥
Initialised (some (ok, bs)) = All IsFrame bs
Initialised (some (err, bs)) = All IsReleased bs

clean_up-Initialised : (r : Ret × List Buffer) → AfterAllocate r → Initialised (clean_up r)
unfolding clean_up deallocate_writeout
clean_up-Initialised (ok, bs) a = a
clean_up-Initialised (err, bs) a = freed_all (deallocate_all bs) (deallocate_all-Released bs a)
  where
    freed_all :
        (r : Option (List Buffer))
        → Released r
        → Initialised (elim r [ none ↦ none | some bs' ↦ some (err, bs') ])
    freed_all none x = absurd x
    freed_all (some bs') x = x

-- From an array of null pointers `init_writeout` returns, whatever malloc replies: either with every
-- buffer holding a camera frame's memory, or with an error and every buffer null or freed.
pub init_writeout-Initialised :
    (malloc : Malloc) (bs : List Buffer) → All IsNull bs → Initialised (init_writeout malloc bs)
unfolding init_writeout
init_writeout-Initialised malloc bs n =
    clean_up-Initialised (allocate_all malloc 0 bs) (allocate_all-After malloc 0 bs n)

-- The scan buffers that `init_processing` sets up with success can all be freed once.
pub init_processing-deallocate_processing :
    (malloc : Malloc) (bs bs' : List Buffer)
    → All IsNull bs
    → init_processing malloc bs ≡ (ok, bs')
    → All IsFrame bs'
      × ((bs'' : List Buffer) × (deallocate_processing bs' ≡ some bs'') × All IsReleased bs'')
unfolding init_processing deallocate_processing
init_processing-deallocate_processing malloc bs bs' n e =
    let frames = subst AfterAllocate e (allocate_all-After malloc 0 bs n) in
    (
      frames,
      returned (deallocate_all bs') refl
          (deallocate_all-Released bs' (Freeable_of_frame bs' frames)),
    )
  where
    returned :
        (r : Option (List Buffer))
        → deallocate_all bs' ≡ r
        → Released r
        → (bs'' : List Buffer) × (deallocate_all bs' ≡ some bs'') × All IsReleased bs''
    returned none h x = absurd x
    returned (some bs'') h x = (bs'', h, x)

-- `init_processing` frees nothing when it fails: what it had set up stays allocated.
pub init_processing_leak :
    (malloc : Malloc) (b c : Buffer) (content : ℕ → ℕ) (rest : List Buffer)
    → malloc 0 (request native_camera_format_size) ≡ some content
    → malloc 1 (request native_camera_format_size) ≡ none
    → (bs' : List Buffer) × (init_processing malloc (b ∷ c ∷ rest) ≡ (err, bs'))
      × ((b' : Buffer) × (head? bs' ≡ some b') × IsLive b'.start)
unfolding init_processing allocate_all round allocate_frame_buffer
init_processing_leak malloc b c content rest e f = rw (e, f) (_, refl, (_, refl, tt))
