-- ===== src/Buffer.antt =====
-- simple-capture/buffer.c, buffer.h and resources.c: image buffers, their memory and their arrays.
-- The memory behind a buffer's pointer is part of the buffer; malloc(3) gives memory of the size asked
-- for, with any bytes.
mod Tests
pub mod Arrays
pub mod Allocation
pub mod Single
use synchronome.Base.{
  ℕ, zero, suc, ◌+◌, ◌*◌, ◌==◌, leb, ◌&&◌, if◌then◌else◌, List, [], ◌∷◌, ◌++◌, Option, none, some,
  length, take, drop,
}
use synchronome.Base.Int.{ℤ, pos, negsuc}
use synchronome.Timetools.{Timespec}

-- X_RES, Y_RES, FRAME_SIZE, NATIVE_CAMERA_FORMAT_SIZE and BYTES_PER_PIXEL of setup.h, with
-- PPM_CAPTURE.
abbrev pub x_res : ℕ
x_res = 640

abbrev pub y_res : ℕ
y_res = 480

abbrev pub frame_size : ℕ
frame_size = x_res * y_res

abbrev pub native_camera_format_size : ℕ
native_camera_format_size = 2

abbrev pub bytes_per_pixel : ℕ
bytes_per_pixel = 3

-- SCAN_BUF_SIZE and NUM_WO_BUF of resources.h
abbrev pub scan_buf_size : ℕ
scan_buf_size = 90

abbrev pub num_wo_buf : ℕ
num_wo_buf = 100

-- What a pointer leads to: NULL, memory with its bytes, or memory that was freed.
pub data Memory : Type 0 where
  null : Memory
  live : List ℕ → Memory
  freed : Memory

-- `buffer_t`
pub record Buffer : Type 0 where
  pub start : Memory
  pub size : ℕ
  pub time : Timespec
  pub index : ℤ
  pub id : ℤ

-- 0 and -1
pub data Ret : Type 0 where
  ok err : Ret

-- memcpy(3) of `size` bytes: `none` is a copy through a bad pointer or past the end of either memory.
copy_bytes : ℕ → Memory → Memory → Option Memory
copy_bytes size (live old) (live bytes) =
    if leb size (length old) && leb size (length bytes)
    then some (live (take size bytes ++ drop size old))
    else none
copy_bytes size dst src = none

-- COPY_BUFFER: `none` is also a failed assertion on the sizes.

unfoldable pub copy_buffer : Buffer → Buffer → Option Buffer
unfolding copy_bytes
copy_buffer dst src =
    if dst.size == src.size
    then elim (copy_bytes dst.size dst.start src.start) [
      | none ↦ none
      | some m ↦ some (record dst { start = m })
    ]
    else none

-- COPY_BUFFER_TIMESTAMP
unfoldable pub copy_buffer_timestamp : Buffer → Buffer → Buffer
copy_buffer_timestamp dst src = record dst { time = src.time }

-- BUFFER_GET_TIMESTAMP
abbrev pub buffer_get_timestamp : Buffer → Timespec
buffer_get_timestamp b = b.time

-- BUFFER_SET_TIMESTAMP
unfoldable pub buffer_set_timestamp : Buffer → Timespec → Buffer
buffer_set_timestamp b timestamp = record b { time = timestamp }

-- malloc's reply: NULL, or memory and what its bytes happen to be.
abbrev pub Reply : Type 0
Reply = Option (ℕ → ℕ)

-- The bytes of a memory of a given size.
pub bytes_given : ℕ → (ℕ → ℕ) → List ℕ
bytes_given zero content = []
bytes_given (suc n) content = content 0 ∷ bytes_given n (λ i. content (suc i))

-- The reply of malloc to the call of a given number for a given size.
abbrev pub Malloc : Type 0
Malloc = ℕ → ℕ → Reply

allocated : Reply → ℕ → Buffer → Ret × Buffer
allocated (some content) size b =
    (ok, record b { index = negsuc 0; start = live (bytes_given size content); size = size })
allocated none size b = (err, record b { index = negsuc 0; start = null; size = size })

-- The size that `allocate_buffer` asks malloc for.
abbrev pub request : ℕ → ℕ
request blocks = frame_size * blocks

unfoldable pub allocate_buffer : Reply → ℕ → Buffer → Ret × Buffer
unfolding allocated
allocate_buffer reply blocks b = allocated reply (request blocks) b

pub allocate_frame_buffer : Reply → Buffer → Ret × Buffer
unfolding allocate_buffer
allocate_frame_buffer reply b = allocate_buffer reply native_camera_format_size b

-- `none` is a second free of the same memory.
release : Memory → Option Memory
release null = some null
release (live _) = some freed
release freed = none

pub deallocate_buffer : Buffer → Option Buffer
unfolding release
deallocate_buffer b = elim (release b.start) [
  | none ↦ none
  | some m ↦ some (record b { start = m })
]

-- One round of the loop of `init_processing`, from the buffer's result and that of later rounds.
round : Ret × Buffer → List Buffer → Ret × List Buffer → Ret × List Buffer
round (ok, b) untouched (r, bs) = (r, b ∷ bs)
round (err, b) untouched later = (err, b ∷ untouched)

-- The loop from call number `call` on; it returns at the first failure.
allocate_all : Malloc → ℕ → List Buffer → Ret × List Buffer
unfolding allocate_frame_buffer round
allocate_all malloc call [] = (ok, [])
allocate_all malloc call (b ∷ bs) =
    let reply = malloc call (request native_camera_format_size) in
    round (allocate_frame_buffer reply b) bs (allocate_all malloc (call + 1) bs)

unfoldable pub init_processing : Malloc → List Buffer → Ret × List Buffer
unfolding allocate_all
init_processing malloc scan_buffer = allocate_all malloc 0 scan_buffer

freed_both : Option Buffer → Option (List Buffer) → Option (List Buffer)
freed_both (some b) (some bs) = some (b ∷ bs)
freed_both b bs = none

deallocate_all : List Buffer → Option (List Buffer)
unfolding deallocate_buffer freed_both
deallocate_all [] = some []
deallocate_all (b ∷ bs) = freed_both (deallocate_buffer b) (deallocate_all bs)

pub deallocate_processing : List Buffer → Option (List Buffer)
unfolding deallocate_all
deallocate_processing scan_buffer = deallocate_all scan_buffer

pub deallocate_writeout : List Buffer → Option (List Buffer)
unfolding deallocate_all
deallocate_writeout wo_buffers = deallocate_all wo_buffers

-- The end of `init_writeout`: on a failure it frees the whole array. `none` is a double free.
clean_up : Ret × List Buffer → Option (Ret × List Buffer)
unfolding deallocate_writeout
clean_up (ok, bs) = some (ok, bs)
clean_up (err, bs) = elim (deallocate_writeout bs) [ none ↦ none | some bs' ↦ some (err, bs') ]

pub init_writeout : Malloc → List Buffer → Option (Ret × List Buffer)
unfolding allocate_all clean_up
init_writeout malloc wo_buffers = clean_up (allocate_all malloc 0 wo_buffers)

-- `allocate_single_wo_buffer`, `allocate_single_er_buffer` and `allocate_sharpen_buffer`
unfoldable pub allocate_single_buffer : Reply → Buffer → Ret × Buffer
allocate_single_buffer reply b = allocate_buffer reply bytes_per_pixel b
