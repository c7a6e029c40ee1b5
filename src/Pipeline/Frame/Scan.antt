-- ===== src/Pipeline/Frame/Scan.antt =====
-- The copy of a camera frame into a scan buffer.
use synchronome.Base.{
  ℕ, ◌+◌, ◌<◌, ◌≡◌, ◌≢◌, false, ◌==◌, List, [], ◌∷◌, ◌++◌, some, length, get_elem?, set, arith,
  if◌then◌else◌,
}
use synchronome.Base.Int.{ℤ, pos, ◌+ℤ◌}
use synchronome.Timetools.{Timespec}
use synchronome.Memlog.{Memlog}
use synchronome.Memlog.Ring.{IsValid, memlog_log-Written}
use synchronome.Buffer.{Buffer, Memory, scan_buf_size, buffer_set_timestamp}
use synchronome.Buffer.Arrays.{All, IsFrame, All-get_elem?, copy_buffer-frame}
use synchronome.Queue.{Mqueue}
use synchronome.Queue.Fifo.{held}
use synchronome.Pipeline.Outcome.{Outcome, next, leave, fault}
use synchronome.Pipeline.Frame.{Round, FrameState, log, scan}

module _ (os : Mqueue) where
  -- The arrays hold frames, and the index and the log's index lie within them.
  pub record Ready (s : FrameState os) : Type 0 where
    pub logging : IsValid s.frame_log
    pub cameras : All IsFrame s.frame_buffers
    pub scans : All IsFrame s.scan_buffer
    pub size : length s.scan_buffer ≡ scan_buf_size
    pub within : s.scan_buffer_index < scan_buf_size

  -- What a round starts from, less the log and the camera's count.
  pub record Before : Type 0 where
    pub frame_buffers : List Buffer
    pub scan_buffer : List Buffer
    pub scan_buffer_index : ℕ
    pub frame_id : ℤ
    pub queued : List ℕ

  abbrev pub before : FrameState os → Before
  before s = record {
    frame_buffers = s.frame_buffers;
    scan_buffer = s.scan_buffer;
    scan_buffer_index = s.scan_buffer_index;
    frame_id = s.frame_id;
    queued = held os s.frame_q;
  }

  -- Camera buffer `i` has been copied to the scan buffer at the index, with the time and the id; the
  -- index was handed over; and the ring's index and the ids move on by one.
  pub record Copied (i : ℕ) (timestamp : Timespec) (s : Before) (s' : FrameState os) : Type 0 where
    pub ready : Ready s'
    pub source : Buffer
    pub target : Buffer
    pub from : get_elem? s.frame_buffers i ≡ some source
    pub to : get_elem? s'.scan_buffer s.scan_buffer_index ≡ some target
    pub bytes : target.start ≡ source.start
    pub stamped : target.time ≡ timestamp
    pub named : target.id ≡ s.frame_id
    pub others :
        (k : ℕ) → k ≢ s.scan_buffer_index → get_elem? s'.scan_buffer k ≡ get_elem? s.scan_buffer k
    pub handed : held os s'.frame_q ≡ s.queued ++ (s.scan_buffer_index ∷ [])
    pub moved :
        s'.scan_buffer_index
        ≡ (if s.scan_buffer_index + 1 == scan_buf_size then 0 else s.scan_buffer_index + 1)
    pub counted : s'.frame_id ≡ s.frame_id +ℤ pos 1

  -- A round ends with a frame copied, or by stopping the system; it makes no fault.
  abbrev pub Ends : Round → FrameState os → Outcome (FrameState os) (FrameState os) → Type 0
  Ends r s (next s') = (i : ℕ) × (r.dqbuf ≡ some i) × Copied i r.timestamp (before s) s'
  Ends r s (leave code s') = s'.running ≡ false
  Ends r s fault = ⊥

  pub log_lem :
      (event : ℕ) (now : Timespec) (s : FrameState os)
      → IsValid s.frame_log
      → (l : Memlog) × IsValid l × (log os event now s ≡ next (record s { frame_log = l }))
  unfolding log
  log_lem event now s v =
      let (l, e, w) = memlog_log-Written event now s.frame_log v in (l, w.valid, rw e)

  unfoldable pub scanned : Buffer → Memory → Timespec → FrameState os → Buffer
  scanned dst m timestamp s = record (buffer_set_timestamp (record dst { start = m }) timestamp) {
    id = s.frame_id;
  }

  unfoldable pub after_scan : Buffer → FrameState os → FrameState os
  after_scan b s = record s {
    scan_buffer = set s.scan_buffer s.scan_buffer_index b;
    frame_id = s.frame_id +ℤ pos 1;
  }

  pub scan_found :
      (i : ℕ) (timestamp : Timespec) (s : FrameState os) (src dst : Buffer)
      → get_elem? s.frame_buffers i ≡ some src
      → get_elem? s.scan_buffer s.scan_buffer_index ≡ some dst
      → IsFrame src
      → IsFrame dst
      → scan os i timestamp s ≡ next (after_scan (scanned dst src.start timestamp s) s)
  unfolding scan after_scan scanned
  scan_found i timestamp s src dst e f fs fd = rw (e, f, copy_buffer-frame dst src fd fs)

  pub scan_lem :
      (i : ℕ) (timestamp : Timespec) (s : FrameState os)
      → Ready s
      → i < length s.frame_buffers
      → (src dst : Buffer) × (get_elem? s.frame_buffers i ≡ some src)
        × IsFrame src
        × IsFrame dst
        × (scan os i timestamp s ≡ next (after_scan (scanned dst src.start timestamp s) s))
  scan_lem i timestamp s v h =
      let (src, e, fs) = All-get_elem? IsFrame s.frame_buffers i v.cameras h in
      let (dst, f, fd) =
        All-get_elem? IsFrame s.scan_buffer s.scan_buffer_index v.scans (rw v.size v.within) in
      (src, dst, e, fs, fd, scan_found i timestamp s src dst e f fs fd)

  pub ring_index : (i n : ℕ) → i < n → (if i + 1 == n then 0 else i + 1) < n
  ring_index i n h = ground arith
