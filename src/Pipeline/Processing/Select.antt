-- ===== src/Pipeline/Processing/Select.antt =====
-- A round of the synchronised processing thread: it counts a frame, or selects the 25th.
use synchronome.Base.{
  ℕ, ◌+◌, ◌<◌, ◌^◌, ◌≡◌, refl, sym, ap, ◌∙◌, inl, inr, true, false, ◌==◌, some, get_elem?,
  get_elem?-set_self, arith, Bool-cases, if◌then◌else◌, if_then, if_else, ==_iff,
}
use synchronome.Memlog.{Memlog}
use synchronome.Memlog.Ring.{IsValid}
use synchronome.Buffer.{Buffer, scan_buf_size}
use synchronome.Buffer.Arrays.{IsFrame, All-get_elem?}
use synchronome.Queue
use synchronome.Queue.{Mqueue, QueueContainer, enqueue_p, dequeue_p}
use synchronome.Motion.{quiet, detected}
use synchronome.Pipeline.Outcome.{next, ◌>>=◌}
use synchronome.Pipeline.Processing.{
  ProcState, Clock, outer, inner, motion_frames_sec, word, select, conclude, count_frame, judge,
  examine, dequeued, inner_round, audit, after_inner, step_from, processing_step, is_detected,
}
use synchronome.Pipeline.Processing.Parts.{
  Ready, after_select, IsCopy, select_lem, after_select-Ready, after_audit, audit_lem,
}

module _ (os : Mqueue) where
  -- What a round of the synchronised thread does with frame `current`, after `n` others.
  pub record Counted (current n : ℕ) (s s' : ProcState os) : Type 0 where
    pub ready : Ready os s'
    pub synced : s'.is_startup ≡ false
    pub last : s'.last_buffer_index ≡ some current
    pub count : s'.num_frames_till_selection ≡ (if n + 1 == motion_frames_sec then 0 else n + 1)
    pub phase : s'.phase ≡ (if n + 1 == motion_frames_sec then outer else inner)
    pub selected :
        s'.total_frames_selected
        ≡ s.total_frames_selected + (if n + 1 == motion_frames_sec then 1 else 0)
    pub thawed : s'.freeze_system ≡ s.freeze_system
    pub copied :
        n + 1 ≡ motion_frames_sec
        → (b src : Buffer) × (get_elem? s'.wo_buffers s.wo_buffer_index ≡ some b)
          × (get_elem? s.scan_buffer current ≡ some src)
          × IsCopy os b src

  -- A state that a frame is judged in.
  judged : ProcState os → QueueContainer os → ProcState os
  judged s q = record s {
    frame_q = q;
    num_frames_till_selection = s.num_frames_till_selection + 1;
    did_frame_tick = quiet;
  }

  judge_synced :
      (l current : ℕ) (s : ProcState os)
      → s.is_startup ≡ false
      → judge os l current s ≡ conclude os current (count_frame os s)
  unfolding judge
  judge_synced l current s e = if_else _ _ e

  inner_round_lem :
      (l current : ℕ) (s : ProcState os) (q : QueueContainer os)
      → s.is_startup ≡ false
      → s.last_buffer_index ≡ some l
      → dequeue_p os s.frame_q ≡ (Queue.ok, some current, q)
      → inner_round os s ≡ conclude os current (count_frame os (judged s q))
  unfolding inner_round dequeued judged
  inner_round_lem l current s q e last d = rw d (
      ap (λ o. examine os o current (record s { frame_q = q })) last
      ∙ unfold examine in judge_synced l current (judged s q) e)

  counted_only :
      (c : Clock) (current : ℕ) (s : ProcState os) (q : QueueContainer os)
      → (s.num_frames_till_selection + 1 == motion_frames_sec) ≡ false
      → conclude os current (count_frame os (judged s q)) >>= after_inner os c
        ≡ next (record (judged s q) { last_buffer_index = some current })
  unfolding conclude count_frame after_inner judged is_detected
  counted_only c current s q e = rw e

  counted_only-Counted :
      (current : ℕ) (s : ProcState os) (q : QueueContainer os)
      → Ready os s
      → s.phase ≡ inner
      → s.is_startup ≡ false
      → (s.num_frames_till_selection + 1 == motion_frames_sec) ≡ false
      → Counted current s.num_frames_till_selection s
          (record (judged s q) { last_buffer_index = some current })
  unfolding judged
  counted_only-Counted current s q v p e n = record {
    ready = record {
      logging = v.logging;
      scans = v.scans;
      scan_count = v.scan_count;
      wos = v.wos;
      wo_count = v.wo_count;
      within = v.within;
    };
    synced = e;
    last = refl;
    count = sym (if_else _ _ n);
    phase = p ∙ sym (if_else _ _ n);
    selected = sym (ap (λ k. s.total_frames_selected + k) (if_else _ _ n) ∙ omega arith);
    thawed = refl;
    copied = λ h. absurd (ground (arith, h, n));
  }

  -- The 25th frame, judged and found to be a tick.
  found : ProcState os → QueueContainer os → ProcState os
  unfolding judged
  found s q = record (judged s q) { did_frame_tick = detected }

  found-Ready : (s : ProcState os) (q : QueueContainer os) → Ready os s → Ready os (found s q)
  unfolding found
  found-Ready s q v = record {
    logging = v.logging;
    scans = v.scans;
    scan_count = v.scan_count;
    wos = v.wos;
    wo_count = v.wo_count;
    within = v.within;
  }

  selected_state : Buffer → ℕ → ProcState os → QueueContainer os → ProcState os
  unfolding after_select found
  selected_state b current s q = record (after_select os b (found s q)) {
    last_buffer_index = some current;
  }

  selecting :
      (c : Clock) (current : ℕ) (s : ProcState os) (q : QueueContainer os) (b : Buffer)
      → s.is_startup ≡ false
      → (s.num_frames_till_selection + 1 == motion_frames_sec) ≡ true
      → select os current (found s q) ≡ next (after_select os b (found s q))
      → conclude os current (count_frame os (judged s q)) >>= after_inner os c
        ≡ audit os c (selected_state b current s q)
  unfolding conclude count_frame after_inner is_detected selected_state found
  selecting c current s q b e n h = rw (n, h, after_select os) (if_else _ _ e)

  selected-Counted :
      (current : ℕ) (s : ProcState os) (q : QueueContainer os) (b src : Buffer) (l : Memlog)
      → Ready os s
      → s.is_startup ≡ false
      → s.num_frames_till_selection + 1 ≡ motion_frames_sec
      → IsFrame b
      → IsCopy os b src
      → get_elem? s.scan_buffer current ≡ some src
      → IsValid l
      → Counted current s.num_frames_till_selection s
          (after_audit os l (selected_state b current s q))
  unfolding after_audit selected_state
  selected-Counted current s q b src l v e n fb cp at w =
      let ready = after_select-Ready os b (found s q) (found-Ready s q v) fb in
      let test : (s.num_frames_till_selection + 1 == motion_frames_sec) ≡ true = (==_iff _ _).1 n in
      record {
        ready = record {
          logging = w;
          scans = ready.scans;
          scan_count = ready.scan_count;
          wos = ready.wos;
          wo_count = ready.wo_count;
          within = ready.within;
        };
        synced = e;
        last = refl;
        count = sym (if_then _ _ test);
        phase = sym (if_then _ _ test);
        selected = sym (ap (λ k. s.total_frames_selected + k) (if_then _ _ test));
        thawed = refl;
        copied = λ h. (
          b,
          src,
          get_elem?-set_self s.wo_buffers s.wo_buffer_index b (rw v.wo_count v.within),
          at,
          cp,
        );
      }

  audit_selected :
      (c : Clock) (current : ℕ) (s : ProcState os) (q : QueueContainer os) (b src : Buffer)
      → IsValid s.processing_log
      → get_elem? s.scan_buffer current ≡ some src
      → word src.id < 2 ^ 24
      → s.num_frames_till_selection + 1 ≡ motion_frames_sec
      → (m : Memlog) × IsValid m
        × (audit os c (selected_state b current s q)
            ≡ next (after_audit os m (selected_state b current s q)))
  unfolding selected_state
  audit_selected c current s q b src v at small n =
      audit_lem os c (selected_state b current s q) current src v refl at small n

  select-found :
      (current : ℕ) (s : ProcState os) (q : QueueContainer os) (src : Buffer)
      → Ready os s
      → get_elem? s.scan_buffer current ≡ some src
      → IsFrame src
      → (b : Buffer) × IsFrame b
        × IsCopy os b src
        × (select os current (found s q) ≡ next (after_select os b (found s q)))
  unfolding found
  select-found current s q src v at fs =
      select_lem os current (found s q) src (found-Ready s q v) at fs

  -- One step of the thread on frame `current`, whatever the write-out queue replies.
  abbrev pub Frame : ℕ → QueueContainer os → ProcState os → Type 0
  Frame current q s =
      (dequeue_p os s.frame_q ≡ (Queue.ok, some current, q))
      × (current < scan_buf_size)
      × ((b : Buffer) → get_elem? s.scan_buffer current ≡ some b → word b.id < 2 ^ 24)

  inner_step :
      (c : Clock) (l current : ℕ) (s : ProcState os) (q : QueueContainer os)
      → Ready os s
      → s.phase ≡ inner
      → s.is_startup ≡ false
      → s.last_buffer_index ≡ some l
      → s.num_frames_till_selection < motion_frames_sec
      → Frame current q s
      → (s' : ProcState os) × (inner_round os s >>= after_inner os c ≡ next s')
        × Counted current s.num_frames_till_selection s s'
  inner_step c l current s q v p e last small (d, range, ids) =
      elim (Bool-cases (s.num_frames_till_selection + 1 == motion_frames_sec)) [
        | inr n ↦ (
          record (judged s q) { last_buffer_index = some current },
          ap (λ r. r >>= after_inner os c) (inner_round_lem l current s q e last d)
              ∙ counted_only c current s q n,
          counted_only-Counted current s q v p e n,
        )
        | inl n ↦
            let n' = (==_iff _ _).0 n in
            let (src, at, fs) =
              All-get_elem? IsFrame s.scan_buffer current v.scans (rw v.scan_count range) in
            let (b, fb, cp, h) = select-found current s q src v at fs in
            let (m, w, a) = audit_selected c current s q b src v.logging at (ids src at) n' in
            (
              after_audit os m (selected_state b current s q),
              ap (λ r. r >>= after_inner os c) (inner_round_lem l current s q e last d)
                  ∙ selecting c current s q b e n h
                  ∙ a,
              selected-Counted current s q b src m v e n' fb cp at w,
            )
      ]

  -- Once the thread is synchronised, and while its arrays hold frames, its indices are in range and
  -- the ids of its frames are below 2^24, a step inside the inner loop on the next frame of the
  -- queue makes no fault and keeps all of this. After fewer than 24 frames it only counts the frame;
  -- the 25th it copies, with its bytes, time and id, to the write-out buffer, counts it as selected,
  -- and starts over; and it never freezes the system.
  pub processing_step-Counted :
      (c : Clock) (l current : ℕ) (s : ProcState os) (q : QueueContainer os)
      → Ready os s
      → s.phase ≡ inner
      → s.is_startup ≡ false
      → s.last_buffer_index ≡ some l
      → s.num_frames_till_selection < motion_frames_sec
      → Frame current q s
      → (s' : ProcState os) × (processing_step os c s ≡ next s')
        × Counted current s.num_frames_till_selection s s'
  unfolding processing_step step_from
  processing_step-Counted c l current s q v p e last small f =
      let (s', h, k) = inner_step c l current s q v p e last small f in
      (s', ap (λ ph. step_from os ph c s) p ∙ h, k)
