-- ===== src/Memlog/Event.antt =====
-- The event codes of simple-capture/memlog.h that the program logs.
use synchronome.Base.{ℕ}

abbrev pub s1_run : ℕ
s1_run = 0x1

abbrev pub s2_run : ℕ
s2_run = 0x2

abbrev pub s3_run : ℕ
s3_run = 0x3

abbrev pub s1_done : ℕ
s1_done = 0x11

abbrev pub s2_done : ℕ
s2_done = 0x12

abbrev pub s3_done : ℕ
s3_done = 0x13

abbrev pub wcet_start : ℕ
wcet_start = 0x1a

abbrev pub adata_24 : ℕ
adata_24 = 0xf0

abbrev pub bdata_24 : ℕ
bdata_24 = 0xf1
