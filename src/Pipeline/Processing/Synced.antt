-- ===== src/Pipeline/Processing/Synced.antt =====
-- A synchronised thread over many frames: it selects one in 25.
use synchronome.Base.{
  ℕ, zero, suc, ◌+◌, ◌/◌, ◌%◌, ◌<◌, ◌≡◌, refl, sym, ap, subst, ◌∙◌, true, false, some, arith,
  if_then, Bool, List, length, get_elem?,
}
use synchronome.Memlog.Event
use synchronome.Memlog.Ring.{IsValid, memlog_log-Written}
use synchronome.Buffer.{Buffer, scan_buf_size}
use synchronome.Buffer.Arrays.{All, IsFrame}
use synchronome.Queue.{Mqueue, QueueContainer}
use synchronome.Pipeline.Outcome.{Outcome, next}
use synchronome.Pipeline.Processing.{
  ProcState, Clock, outer, inner, motion_frames_sec, enter, step_from, processing_step,
}
use synchronome.Pipeline.Processing.Parts.{Ready, IsCopy}
use synchronome.Pipeline.Processing.Select.{Frame, Counted, processing_step-Counted}

module _ (os : Mqueue) where
  -- Steps of the thread from `s` in which it takes `k` frames from its queue, whatever the clock and
  -- the queues reply, as long as the queue delivers indices of the ring with ids below 2^24. Between
  -- two steps the other threads may put frames into the ring and its queue, take from the write-out
  -- queue, and clear the running flag.
  pub data Run (s : ProcState os) : ℕ → ProcState os → Type 0 where
    start : Run s zero s
    frame :
        {k : ℕ} {t u : ProcState os}
        → Run s k t
        → (c : Clock) (current : ℕ) (q : QueueContainer os) → t.phase ≡ inner
        → Frame os current q t
        → processing_step os c t ≡ next u
        → Run s (suc k) u
    head :
        {k : ℕ} {t u : ProcState os}
        → Run s k t
        → (c : Clock) → t.phase ≡ outer
        → t.running ≡ true
        → processing_step os c t ≡ next u
        → Run s k u
    others :
        {k : ℕ} {t : ProcState os}
        → Run s k t
        → (running : Bool) (ring : List Buffer) (frame_q writeout_q : QueueContainer os)
        → All IsFrame ring
        → length ring ≡ scan_buf_size
        → Run s k (record t {
          running = running;
          scan_buffer = ring;
          frame_q = frame_q;
          writeout_q = writeout_q;
        })

  -- Every 25th frame of a run is copied, with its time and id, to a write-out buffer.
  abbrev pub AllCopied : {s t : ProcState os} {k : ℕ} → Run s k t → Type 0
  AllCopied start = Unit {0}
  AllCopied (frame {k} {t} {u} r c current q p f e) =
      (t.num_frames_till_selection + 1 ≡ motion_frames_sec
        → (b src : Buffer) × (get_elem? u.wo_buffers t.wo_buffer_index ≡ some b)
          × (get_elem? t.scan_buffer current ≡ some src)
          × IsCopy os b src)
      × AllCopied r
  AllCopied (head r c p run e) = AllCopied r
  AllCopied (others r running ring frame_q writeout_q v n) = AllCopied r

  -- The arrays hold frames, the indices are in range, and startup is over.
  pub record IsSynced (s : ProcState os) : Type 0 where
    pub ready : Ready os s
    pub started : s.is_startup ≡ false
    pub last : ℕ
    pub has_last : s.last_buffer_index ≡ some last
    pub counting : s.num_frames_till_selection < motion_frames_sec

  pub record Selected (k : ℕ) (s t : ProcState os) : Type 0 where
    pub synced : IsSynced t
    pub total :
        t.total_frames_selected
        ≡ s.total_frames_selected + (s.num_frames_till_selection + k) / motion_frames_sec
    pub count : t.num_frames_till_selection ≡ (s.num_frames_till_selection + k) % motion_frames_sec
    pub thawed : t.freeze_system ≡ s.freeze_system

  next-injective :
      {t u : ProcState os}
      → ◌≡◌ {A = Outcome (ProcState os) (ProcState os)} (next t) (next u)
      → t ≡ u
  next-injective e = cc

  step-Selected :
      (k current : ℕ) (s t u : ProcState os)
      → Selected k s t
      → Counted os current t.num_frames_till_selection t u
      → Selected (suc k) s u
  step-Selected k current s t u p c = record {
    synced = record {
      ready = c.ready;
      started = c.synced;
      last = current;
      has_last = c.last;
      counting = ground (arith, c.count, p.synced.counting);
    };
    total = ground (arith, c.selected, p.total, p.count, p.synced.counting);
    count = ground (arith, c.count, p.count, p.synced.counting);
    thawed = c.thawed ∙ p.thawed;
  }

  enter_lem :
      (c : Clock) (t : ProcState os)
      → IsValid t.processing_log
      → (u : ProcState os) × (enter os c t ≡ next u)
        × IsValid u.processing_log
        × (u ≡ record t { processing_log = u.processing_log; phase = inner })
  unfolding enter
  enter_lem c t v =
      let (l, e, w) = memlog_log-Written Event.s2_done c.first t.processing_log v in
      let (l', e', w') = memlog_log-Written Event.s2_run c.second l w.valid in
      (record t { processing_log = l'; phase = inner }, rw (e, e'), w'.valid, refl)

  head-Selected :
      (k : ℕ) (s t u : ProcState os)
      → IsValid u.processing_log
      → u ≡ record t { processing_log = u.processing_log; phase = inner }
      → Selected k s t
      → Selected k s u
  head-Selected k s t u v e p = subst (Selected k s) (sym e) (record {
    synced = record {
      ready = record {
        logging = v;
        scans = p.synced.ready.scans;
        scan_count = p.synced.ready.scan_count;
        wos = p.synced.ready.wos;
        wo_count = p.synced.ready.wo_count;
        within = p.synced.ready.within;
      };
      started = p.synced.started;
      last = p.synced.last;
      has_last = p.synced.has_last;
      counting = p.synced.counting;
    };
    total = p.total;
    count = p.count;
    thawed = p.thawed;
  })

  entered :
      (c : Clock) (t u : ProcState os)
      → t.phase ≡ outer
      → t.running ≡ true
      → processing_step os c t ≡ next u
      → enter os c t ≡ next u
  unfolding processing_step step_from
  entered c t u p r e = sym (ap (λ ph. step_from os ph c t) p ∙ if_then _ _ r) ∙ e

  step-Counted :
      (c : Clock) (current : ℕ) (t u : ProcState os) (q : QueueContainer os)
      → IsSynced t
      → t.phase ≡ inner
      → Frame os current q t
      → processing_step os c t ≡ next u
      → Counted os current t.num_frames_till_selection t u
  step-Counted c current t u q v ph f e =
      let (u', h, x) =
        processing_step-Counted os c v.last current t q v.ready ph v.started v.has_last v.counting
          f in
      subst (Counted os current t.num_frames_till_selection t) (next-injective (sym h ∙ e)) x

  run-Selected :
      (s : ProcState os) → IsSynced s → (k : ℕ) (t : ProcState os) → Run s k t → Selected k s t
  run-Selected s v _ _ start = record {
    synced = v;
    total = omega (arith, v.counting);
    count = omega (arith, v.counting);
    thawed = refl;
  }
  run-Selected s v _ _ (frame {k} {t} {u} r c current q ph f e) =
      let p = run-Selected s v k t r in
      step-Selected k current s t u p (step-Counted c current t u q p.synced ph f e)
  run-Selected s v _ _ (head {k} {t} {u} r c ph run e) =
      let p = run-Selected s v k t r in
      let (u', h, w, same) = enter_lem c t p.synced.ready.logging in
      subst (Selected k s) (next-injective (sym h ∙ entered c t u ph run e))
        (head-Selected k s t u' w same p)
  run-Selected s v _ _ (others {k} {t} r running ring frame_q writeout_q fs n) =
      let p = run-Selected s v k t r in
      record {
        synced = record {
          ready = record {
            logging = p.synced.ready.logging;
            scans = fs;
            scan_count = n;
            wos = p.synced.ready.wos;
            wo_count = p.synced.ready.wo_count;
            within = p.synced.ready.within;
          };
          started = p.synced.started;
          last = p.synced.last;
          has_last = p.synced.has_last;
          counting = p.synced.counting;
        };
        total = p.total;
        count = p.count;
        thawed = p.thawed;
      }

  run-AllCopied :
      (s : ProcState os) → IsSynced s → (k : ℕ) (t : ProcState os) (r : Run s k t) → AllCopied r
  run-AllCopied s v _ _ start = tt
  run-AllCopied s v _ _ (frame {k} {t} {u} r c current q ph f e) =
      let p = run-Selected s v k t r in
      ((step-Counted c current t u q p.synced ph f e).copied, run-AllCopied s v k t r)
  run-AllCopied s v _ _ (head {k} {t} r c ph run e) = run-AllCopied s v k t r
  run-AllCopied s v _ _ (others {k} {t} r running ring frame_q writeout_q fs n) =
      run-AllCopied s v k t r

  -- However long a synchronised thread runs, with frames arriving whose ids are below 2^24, it has
  -- selected one frame for every 25 that it took from its queue, counted on from where it started,
  -- and each of these is copied with its time and id to the write-out buffer of that turn. It stays
  -- synchronised and never freezes the system.
  pub Run-Selected :
      (s : ProcState os)
      → IsSynced s
      → (k : ℕ) (t : ProcState os) (r : Run s k t) → Selected k s t × AllCopied r
  Run-Selected s v k t r = (run-Selected s v k t r, run-AllCopied s v k t r)
