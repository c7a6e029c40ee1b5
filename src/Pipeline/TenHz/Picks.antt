-- ===== src/Pipeline/TenHz/Picks.antt =====
-- The synchronised thread at 10 Hz: which frames it selects.
use synchronome.Base.{
  ℕ, ◌+◌, ◌*◌, ◌/◌, ◌%◌, ◌<◌, ◌≡◌, refl, sym, subst, ◌∙◌, inl, inr, Bool, true, false, not, ltb,
  ◌==◌, Bool-cases, if◌then◌else◌, if_then, if_else, some, length, get_elem?, get_elem?-set_self,
  set, length-set, arith, ap,
}
use synchronome.Timetools.{Timespec}
use synchronome.Memlog.Ring.{IsValid}
use synchronome.Buffer.{Buffer, scan_buf_size, num_wo_buf, copy_buffer_timestamp}
use synchronome.Buffer.Arrays.{All, IsFrame, All-get_elem?, All-set, copy_buffer-frame}
use synchronome.Queue
use synchronome.Queue.{Mqueue, QueueContainer, enqueue_p, dequeue_p}
use synchronome.Pipeline.Outcome.{Outcome, Safely, Safely->>=, Safely-leave}
use synchronome.Pipeline.Processing.{Turn}
use synchronome.Pipeline.Processing.Parts.{IsCopy}
use synchronome.Pipeline.TenHz.{
  TenState, counted_tick, sent, select, count_frame, examine, dequeued, after_inner, inner_round,
  ten_step,
}

-- Of the first `n` frames, the third and the fifth of every five.
unfoldable pub picks : ℕ → ℕ
picks n = 2 * (n / 5) + (if ltb 2 (n % 5) then 1 else 0)

module _ (os : Mqueue) where
  -- The place in the five frames.
  abbrev pub place : TenState os → ℕ
  place s = (if s.is_even then 3 else 0) + s.num_frames_till_selection

  -- The arrays hold frames, the indices are in range, and the startup is over.
  pub record IsSynced (s : TenState os) : Type 0 where
    pub logging : IsValid s.processing_log
    pub scans : All IsFrame s.scan_buffer
    pub scan_count : length s.scan_buffer ≡ scan_buf_size
    pub wos : All IsFrame s.wo_buffers
    pub wo_count : length s.wo_buffers ≡ num_wo_buf
    pub within : s.wo_buffer_index < num_wo_buf
    pub started : s.is_startup ≡ false
    pub last : ℕ
    pub has_last : s.last_buffer_index ≡ some last
    pub counting : s.num_frames_till_selection < (if s.is_even then 2 else 3)

  -- What the write-out queue replies to the index of the buffer to be written.
  abbrev pub reply : TenState os → Queue.Ret × QueueContainer os
  reply s = enqueue_p os s.writeout_q (some s.wo_buffer_index)

  -- The scan buffer `current` is copied to the write-out buffer whose index the queue accepts.
  pub record Stored (current : ℕ) (s t : TenState os) : Type 0 where
    pub accepted : (reply s).0 ≡ Queue.ok
    pub queue : t.writeout_q ≡ (reply s).1
    pub copied :
        (b src : Buffer) × (get_elem? t.wo_buffers s.wo_buffer_index ≡ some b)
        × (get_elem? s.scan_buffer current ≡ some src)
        × IsCopy os b src

  -- One more frame is taken, from scan buffer `current`.
  pub record Counted (current : ℕ) (s t : TenState os) : Type 0 where
    pub synced : IsSynced t
    pub moved : place t ≡ (place s + 1) % 5
    pub total :
        t.total_frames_selected + picks (place s) ≡ s.total_frames_selected + picks (place s + 1)
    pub stored : picks (place s) < picks (place s + 1) → Stored current s t

  -- The frame is one to select, the write-out queue refuses it, and the system is stopped.
  pub record Refused (s t : TenState os) : Type 0 where
    pub refused : (reply s).0 ≡ Queue.err
    pub stopped : t.running ≡ false
    pub turn : picks (place s) < picks (place s + 1)
    pub none_counted : t.total_frames_selected ≡ s.total_frames_selected

  abbrev Ends : ℕ → TenState os → Outcome (Turn × TenState os) (TenState os) → Type 0
  Ends current s m = Safely (λ r. Counted current s (after_inner os r)) (Refused s) m

  next_index : (i n : ℕ) → i < n → (if i + 1 == n then 0 else i + 1) < n
  next_index i n h = ground arith

  -- A frame that is only counted.
  skipped :
      (even : Bool) (n total : ℕ)
      → n < (if even then 2 else 3)
      → counted_tick even (n + 1) ≡ false
      → (n + 1 < (if even then 2 else 3))
        × ((if even then 3 else 0) + (n + 1) ≡ ((if even then 3 else 0) + n + 1) % 5)
        × (total + picks ((if even then 3 else 0) + n)
            ≡ total + picks ((if even then 3 else 0) + n + 1))
  unfolding counted_tick picks
  skipped true n total h e = ground (arith, h, e)
  skipped false n total h e = ground (arith, h, e)

  -- A frame that is selected.
  picked :
      (even : Bool) (n total : ℕ)
      → n < (if even then 2 else 3)
      → counted_tick even (n + 1) ≡ true
      → (0 < (if not even then 2 else 3))
        × ((if not even then 3 else 0) + 0 ≡ ((if even then 3 else 0) + n + 1) % 5)
        × (total + 1 + picks ((if even then 3 else 0) + n)
            ≡ total + picks ((if even then 3 else 0) + n + 1))
  unfolding counted_tick picks
  picked true n total h e = ground (arith, h, e)
  picked false n total h e = ground (arith, h, e)

  -- The selection of the frame, once it is copied to the write-out buffer.
  chosen : Buffer → TenState os → TenState os
  chosen b s = record s {
    num_frames_till_selection = s.num_frames_till_selection + 1;
    is_even = not s.is_even;
    wo_buffers = set s.wo_buffers s.wo_buffer_index b;
  }

  sent-Counted :
      (out : Queue.Ret × QueueContainer os) (current : ℕ) (b src : Buffer) (s : TenState os)
      → reply s ≡ out
      → get_elem? s.scan_buffer current ≡ some src
      → IsCopy os b src
      → IsSynced s
      → IsFrame b
      → counted_tick s.is_even (s.num_frames_till_selection + 1) ≡ true
      → Ends current s (sent os out current (chosen b s))
  unfolding sent after_inner chosen
  sent-Counted (Queue.err, q) current b src s r at c v h e =
      let (_, _, total) =
        picked s.is_even s.num_frames_till_selection s.total_frames_selected v.counting e in
      record {
        refused = ap (λ p. p.0) r;
        stopped = refl;
        turn = omega (arith, total);
        none_counted = refl;
      }
  sent-Counted (Queue.ok, q) current b src s r at c v h e =
      let (small, moved, total) =
        picked s.is_even s.num_frames_till_selection s.total_frames_selected v.counting e in
      record {
        synced = record {
          logging = v.logging;
          scans = v.scans;
          scan_count = v.scan_count;
          wos = All-set IsFrame s.wo_buffers s.wo_buffer_index b v.wos h;
          wo_count = length-set s.wo_buffers s.wo_buffer_index b ∙ v.wo_count;
          within = next_index s.wo_buffer_index num_wo_buf v.within;
          started = v.started;
          last = current;
          has_last = refl;
          counting = small;
        };
        moved = moved;
        total = total;
        stored = λ _. record {
          accepted = ap (λ p. p.0) r;
          queue = ap (λ p. p.1) (sym r);
          copied = (
            b,
            src,
            get_elem?-set_self s.wo_buffers s.wo_buffer_index b (rw v.wo_count v.within),
            at,
            c,
          );
        };
      }

  select-Counted :
      (current : ℕ) (s : TenState os)
      → IsSynced s
      → current < scan_buf_size
      → counted_tick s.is_even (s.num_frames_till_selection + 1) ≡ true
      → Ends current s (
          select os current (record s {
            num_frames_till_selection = s.num_frames_till_selection + 1;
            is_even = not s.is_even;
          }))
  unfolding select copy_buffer_timestamp chosen
  select-Counted current s v h e =
      let (src, f, fs) = All-get_elem? IsFrame s.scan_buffer current v.scans (rw v.scan_count h) in
      let (dst, g, fd) =
        All-get_elem? IsFrame s.wo_buffers s.wo_buffer_index v.wos (rw v.wo_count v.within) in
      let b = record dst { start = src.start; time = src.time; id = src.id } in
      rw (f, g, copy_buffer-frame dst src fd fs)
        (sent-Counted (reply s) current b src s refl f
          (record { bytes = refl; stamped = refl; named = refl }) v (fs.0, fd.1) e)

  count_frame-Counted :
      (current : ℕ) (s : TenState os)
      → IsSynced s
      → current < scan_buf_size
      → Ends current s (count_frame os current s)
  unfolding count_frame after_inner
  count_frame-Counted current s v h =
      elim (Bool-cases (counted_tick s.is_even (s.num_frames_till_selection + 1))) [
        | inl e ↦ subst (Ends current s) (sym (if_then _ _ e)) (select-Counted current s v h e)
        | inr e ↦
            let (small, moved, total) =
              skipped s.is_even s.num_frames_till_selection s.total_frames_selected v.counting e in
            subst (Ends current s) (sym (if_else _ _ e)) (record {
              synced = record {
                logging = v.logging;
                scans = v.scans;
                scan_count = v.scan_count;
                wos = v.wos;
                wo_count = v.wo_count;
                within = v.within;
                started = v.started;
                last = current;
                has_last = refl;
                counting = small;
              };
              moved = moved;
              total = total;
              stored = λ h. absurd (omega (arith, total, h));
            })
      ]

  examine-Counted :
      (current : ℕ) (s : TenState os)
      → IsSynced s
      → current < scan_buf_size
      → Ends current s (examine os s.last_buffer_index current s)
  unfolding examine
  examine-Counted current s v h =
      subst (λ o. Ends current s (examine os o current s)) (sym v.has_last)
        (subst (Ends current s) (sym (if_else _ _ v.started)) (count_frame-Counted current s v h))

  -- The queue delivers the index of a scan buffer.
  abbrev pub Delivers : ℕ → QueueContainer os → TenState os → Type 0
  Delivers current q s =
      (dequeue_p os s.frame_q ≡ (Queue.ok, some current, q)) × (current < scan_buf_size)

  inner_round-Counted :
      (current : ℕ) (q : QueueContainer os) (s : TenState os)
      → IsSynced s
      → Delivers current q s
      → Safely (Counted current s) (Refused s) (inner_round os s)
  unfolding inner_round dequeued
  inner_round-Counted current q s v d =
      let s' : TenState os = record s { frame_q = q } in
      let v' : IsSynced s' = record {
        logging = v.logging;
        scans = v.scans;
        scan_count = v.scan_count;
        wos = v.wos;
        wo_count = v.wo_count;
        within = v.within;
        started = v.started;
        last = v.last;
        has_last = v.has_last;
        counting = v.counting;
      } in
      rw d.0 (
        Safely->>= (λ r. Counted current s' (after_inner os r)) (Counted current s) (Refused s)
          (examine os s.last_buffer_index current s') _
          (Safely-leave _ (Refused s') (Refused s) (examine os s.last_buffer_index current s')
            (examine-Counted current s' v' d.1)
            λ t h. record {
              refused = h.refused;
              stopped = h.stopped;
              turn = h.turn;
              none_counted = h.none_counted;
            })
          λ r h. record {
            synced = h.synced;
            moved = h.moved;
            total = h.total;
            stored = λ p.
                let g = h.stored p in
                record { accepted = g.accepted; queue = g.queue; copied = g.copied };
          })

  -- While the startup is over, the arrays hold frames and the indices are in range, a round of the
  -- inner loop on the next frame of the queue makes no fault. It keeps all this and moves on by one of
  -- every five frames, of which it selects the third and the fifth: it copies the frame's bytes, time
  -- and id to the write-out buffer whose index the write-out queue accepts. When the queue refuses the
  -- index, the round stops the system and counts no selection.
  pub ten_step-Counted :
      (now : Timespec) (current : ℕ) (q : QueueContainer os) (s : TenState os)
      → IsSynced s
      → s.in_loop ≡ true
      → Delivers current q s
      → Safely (Counted current s) (Refused s) (ten_step os now s)
  unfolding ten_step
  ten_step-Counted now current q s v l d =
      subst (Safely (Counted current s) (Refused s)) (sym (if_then _ _ l))
        (inner_round-Counted current q s v d)
