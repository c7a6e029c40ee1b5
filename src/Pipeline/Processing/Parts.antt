-- ===== src/Pipeline/Processing/Parts.antt =====
-- The selection of a frame and the audit after it, on buffers that are frames.
use synchronome.Base.{
  ℕ, ◌+◌, ◌<◌, ◌^◌, ◌≡◌, refl, ◌∙◌, ◌==◌, some, length, get_elem?, set, length-set, arith,
  if◌then◌else◌,
}
use synchronome.Memlog.{Memlog, memlog_log24}
use synchronome.Memlog.Event
use synchronome.Memlog.Ring.{IsValid, memlog_log24-Written}
use synchronome.Buffer.{Buffer, scan_buf_size, num_wo_buf, copy_buffer_timestamp}
use synchronome.Buffer.Arrays.{All, IsFrame, All-get_elem?, All-set, copy_buffer-frame}
use synchronome.Queue.{Mqueue, enqueue_p}
use synchronome.Pipeline.Outcome.{next}
use synchronome.Pipeline.Processing.{ProcState, Clock, outer, word, select, audit, is_adrift}

module _ (os : Mqueue) where
  -- The arrays hold frames, and the index and the log's index lie within them.
  pub record Ready (s : ProcState os) : Type 0 where
    pub logging : IsValid s.processing_log
    pub scans : All IsFrame s.scan_buffer
    pub scan_count : length s.scan_buffer ≡ scan_buf_size
    pub wos : All IsFrame s.wo_buffers
    pub wo_count : length s.wo_buffers ≡ num_wo_buf
    pub within : s.wo_buffer_index < num_wo_buf

  unfoldable pub after_select : Buffer → ProcState os → ProcState os
  after_select b s = record s {
    wo_buffers = set s.wo_buffers s.wo_buffer_index b;
    writeout_q = (enqueue_p os s.writeout_q (some s.wo_buffer_index)).1;
    total_frames_selected = s.total_frames_selected + 1;
    wo_buffer_index = if s.wo_buffer_index + 1 == num_wo_buf then 0 else s.wo_buffer_index + 1;
  }

  -- A copy of a frame: its bytes, its time and its id.
  pub record IsCopy (b src : Buffer) : Type 0 where
    pub bytes : b.start ≡ src.start
    pub stamped : b.time ≡ src.time
    pub named : b.id ≡ src.id

  pub select_lem :
      (current : ℕ) (s : ProcState os) (src : Buffer)
      → Ready s
      → get_elem? s.scan_buffer current ≡ some src
      → IsFrame src
      → (b : Buffer) × IsFrame b × IsCopy b src × (select os current s ≡ next (after_select b s))
  unfolding select after_select copy_buffer_timestamp
  select_lem current s src v e fs =
      let (dst, f, fd) =
        All-get_elem? IsFrame s.wo_buffers s.wo_buffer_index v.wos (rw v.wo_count v.within) in
      (
        record dst { start = src.start; time = src.time; id = src.id },
        (fs.0, fd.1),
        record { bytes = refl; stamped = refl; named = refl },
        rw (e, f, copy_buffer-frame dst src fd fs),
      )

  next_index : (i n : ℕ) → i < n → (if i + 1 == n then 0 else i + 1) < n
  next_index i n h = ground arith

  pub after_select-Ready :
      (b : Buffer) (s : ProcState os) → Ready s → IsFrame b → Ready (after_select b s)
  unfolding after_select
  after_select-Ready b s v h = record {
    logging = v.logging;
    scans = v.scans;
    scan_count = v.scan_count;
    wos = All-set IsFrame s.wo_buffers s.wo_buffer_index b v.wos h;
    wo_count = length-set s.wo_buffers s.wo_buffer_index b ∙ v.wo_count;
    within = next_index s.wo_buffer_index num_wo_buf v.within;
  }

  unfoldable pub after_audit : Memlog → ProcState os → ProcState os
  after_audit l s = record s { processing_log = l; num_frames_till_selection = 0; phase = outer }

  audit_run :
      (c : Clock) (s : ProcState os) (current : ℕ) (b : Buffer) (l l' : Memlog)
      → memlog_log24 Event.adata_24 25 c.first s.processing_log ≡ some l
      → memlog_log24 Event.bdata_24 (word b.id) c.second l ≡ some l'
      → s.last_buffer_index ≡ some current
      → get_elem? s.scan_buffer current ≡ some b
      → s.num_frames_till_selection ≡ 25
      → audit os c s ≡ next (after_audit l' s)
  unfolding audit after_audit is_adrift
  audit_run c s current b l l' f f' last e n = rw (n, f, last, e, f')

  -- After 25 frames the timing is right, and the audit only logs.
  pub audit_lem :
      (c : Clock) (s : ProcState os) (current : ℕ) (b : Buffer)
      → IsValid s.processing_log
      → s.last_buffer_index ≡ some current
      → get_elem? s.scan_buffer current ≡ some b
      → word b.id < 2 ^ 24
      → s.num_frames_till_selection ≡ 25
      → (l : Memlog) × IsValid l × (audit os c s ≡ next (after_audit l s))
  audit_lem c s current b v last e small n =
      let (l, w, f, wr, _, _) =
        memlog_log24-Written Event.adata_24 25 c.first s.processing_log v (omega arith)
          (omega arith) (omega arith) in
      let (l', w', f', wr', _, _) =
        memlog_log24-Written Event.bdata_24 (word b.id) c.second l wr.valid (omega arith)
          (omega arith) small in
      (l', wr'.valid, audit_run c s current b l l' f f' last e n)
