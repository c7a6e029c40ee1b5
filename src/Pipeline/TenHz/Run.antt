-- ===== src/Pipeline/TenHz/Run.antt =====
-- The synchronised thread at 10 Hz over many frames.
use synchronome.Base.{
  ℕ, zero, suc, ◌+◌, ◌%◌, ◌<◌, ◌≡◌, sym, ap, subst, ◌∙◌, Bool, true, false, if◌then◌else◌, if_then,
  if_else, arith, List, length,
}
use synchronome.Timetools.{Timespec}
use synchronome.Memlog.{Memlog}
use synchronome.Memlog.Event
use synchronome.Memlog.Ring.{IsValid, memlog_log-Written}
use synchronome.Buffer.{Buffer, scan_buf_size}
use synchronome.Buffer.Arrays.{All, IsFrame}
use synchronome.Queue.{Mqueue, QueueContainer}
use synchronome.Pipeline.Outcome.{Outcome, next, Safely}
use synchronome.Pipeline.TenHz.{TenState, enter, ten_step}
use synchronome.Pipeline.TenHz.Picks.{
  picks, place, IsSynced, Stored, Counted, Refused, Delivers, ten_step-Counted,
}

module _ (os : Mqueue) where
  -- Steps of the thread from `s` in which it takes `k` frames from its queue, whatever the clock and
  -- the queues reply, as long as the queue delivers indices of the ring. Between two steps the other
  -- threads may put frames into the ring and its queue, take from the write-out queue, and clear the
  -- running flag.
  pub data Run (s : TenState os) : ℕ → TenState os → Type 0 where
    start : Run s zero s
    frame :
        {k : ℕ} {t u : TenState os}
        → Run s k t
        → (now : Timespec) (current : ℕ) (q : QueueContainer os) → t.in_loop ≡ true
        → Delivers os current q t
        → ten_step os now t ≡ next u
        → Run s (suc k) u
    head :
        {k : ℕ} {t u : TenState os}
        → Run s k t
        → (now : Timespec) → t.in_loop ≡ false
        → t.running ≡ true
        → ten_step os now t ≡ next u
        → Run s k u
    others :
        {k : ℕ} {t : TenState os}
        → Run s k t
        → (running : Bool) (ring : List Buffer) (frame_q writeout_q : QueueContainer os)
        → All IsFrame ring
        → length ring ≡ scan_buf_size
        → Run s k (record t {
          running = running;
          scan_buffer = ring;
          frame_q = frame_q;
          writeout_q = writeout_q;
        })

  -- Every frame of a run that comes third or fifth is copied to a write-out buffer and handed on.
  abbrev pub AllStored : {s t : TenState os} {k : ℕ} → Run s k t → Type 0
  AllStored start = Unit {0}
  AllStored (frame {k} {t} {u} r now current q l d e) =
      (picks (place os t) < picks (place os t + 1) → Stored os current t u) × AllStored r
  AllStored (head r now l run e) = AllStored r
  AllStored (others r running ring frame_q writeout_q v n) = AllStored r

  pub record Picked (k : ℕ) (s t : TenState os) : Type 0 where
    pub synced : IsSynced os t
    pub place_now : place os t ≡ (place os s + k) % 5
    pub total :
        t.total_frames_selected + picks (place os s)
        ≡ s.total_frames_selected + picks (place os s + k)

  next-Counted :
      (m : Outcome (TenState os) (TenState os)) (current : ℕ) (t u : TenState os)
      → Safely (Counted os current t) (Refused os t) m
      → m ≡ next u
      → Counted os current t u
  next-Counted m current t u h e = subst (Safely (Counted os current t) (Refused os t)) e h

  picks-next : (n b : ℕ) → b ≡ n % 5 → picks (n + 1) + picks b ≡ picks n + picks (b + 1)
  unfolding picks
  picks-next n b e = ground (arith, e)

  step-Picked :
      (k current : ℕ) (s t u : TenState os)
      → Picked k s t
      → Counted os current t u
      → Picked (suc k) s u
  step-Picked k current s t u p c =
      let same : place os s + k + 1 ≡ place os s + suc k = omega arith in
      let total : u.total_frames_selected + picks (place os s)
          ≡ s.total_frames_selected + picks (place os s + k + 1) =
        omega (arith, c.total, p.total, picks-next (place os s + k) (place os t) p.place_now) in
      record {
        synced = c.synced;
        place_now = omega (arith, c.moved, p.place_now);
        total = total ∙ ap (λ n. s.total_frames_selected + picks n) same;
      }

  enter_lem :
      (now : Timespec) (t : TenState os)
      → IsValid t.processing_log
      → (l : Memlog) × IsValid l
        × (enter os now t ≡ next (record t { processing_log = l; in_loop = true }))
  unfolding enter
  enter_lem now t v =
      let (l, e, w) = memlog_log-Written Event.s2_done now t.processing_log v in (l, w.valid, rw e)

  place_small : (s : TenState os) → IsSynced os s → place os s ≡ (place os s + 0) % 5
  place_small s v = below s.is_even s.num_frames_till_selection v.counting
    where
      below :
          (even : Bool) (n : ℕ)
          → n < (if even then 2 else 3)
          → (if even then 3 else 0) + n ≡ ((if even then 3 else 0) + n + 0) % 5
      below true n h = omega (arith, h)
      below false n h = omega (arith, h)

  head-Picked :
      (k : ℕ) (s t : TenState os) (l : Memlog)
      → IsValid l
      → Picked k s t
      → Picked k s (record t { processing_log = l; in_loop = true })
  head-Picked k s t l h p = record {
    synced = record {
      logging = h;
      scans = p.synced.scans;
      scan_count = p.synced.scan_count;
      wos = p.synced.wos;
      wo_count = p.synced.wo_count;
      within = p.synced.within;
      started = p.synced.started;
      last = p.synced.last;
      has_last = p.synced.has_last;
      counting = p.synced.counting;
    };
    place_now = p.place_now;
    total = p.total;
  }

  entered :
      (now : Timespec) (t u : TenState os)
      → t.in_loop ≡ false
      → t.running ≡ true
      → ten_step os now t ≡ next u
      → enter os now t ≡ next u
  unfolding ten_step
  entered now t u l r e = sym (if_else _ _ l ∙ if_then _ _ r) ∙ e

  next-injective :
      (t u : TenState os) → ◌≡◌ {A = Outcome (TenState os) (TenState os)} (next t) (next u) → t ≡ u
  next-injective t u e = cc

  run-Picked :
      (s : TenState os) → IsSynced os s → (k : ℕ) (t : TenState os) → Run s k t → Picked k s t
  run-Picked s v _ _ start =
      let same : place os s ≡ place os s + 0 = omega arith in
      record {
        synced = v;
        place_now = place_small s v;
        total = ap (λ n. s.total_frames_selected + picks n) same;
      }
  run-Picked s v _ _ (frame {k} {t} {u} r now current q l d e) =
      let p = run-Picked s v k t r in
      step-Picked k current s t u p (
        next-Counted (ten_step os now t) current t u
          (ten_step-Counted os now current q t p.synced l d) e)
  run-Picked s v _ _ (head {k} {t} {u} r now l run e) =
      let p = run-Picked s v k t r in
      let (log, w, f) = enter_lem now t p.synced.logging in
      subst (Picked k s) (next-injective _ u (sym f ∙ entered now t u l run e))
        (head-Picked k s t log w p)
  run-Picked s v _ _ (others {k} {t} r running ring frame_q writeout_q fs n) =
      let p = run-Picked s v k t r in
      record {
        synced = record {
          logging = p.synced.logging;
          scans = fs;
          scan_count = n;
          wos = p.synced.wos;
          wo_count = p.synced.wo_count;
          within = p.synced.within;
          started = p.synced.started;
          last = p.synced.last;
          has_last = p.synced.has_last;
          counting = p.synced.counting;
        };
        place_now = p.place_now;
        total = p.total;
      }

  run-AllStored :
      (s : TenState os) → IsSynced os s → (k : ℕ) (t : TenState os) (r : Run s k t) → AllStored r
  run-AllStored s v _ _ start = tt
  run-AllStored s v _ _ (frame {k} {t} {u} r now current q l d e) =
      let p = run-Picked s v k t r in
      (
        (next-Counted (ten_step os now t) current t u
            (ten_step-Counted os now current q t p.synced l d) e).stored,
        run-AllStored s v k t r,
      )
  run-AllStored s v _ _ (head {k} {t} r now l run e) = run-AllStored s v k t r
  run-AllStored s v _ _ (others {k} {t} r running ring frame_q writeout_q fs n) =
      run-AllStored s v k t r

  -- However long the synchronised thread runs without a refusal, with frames arriving, it selects the
  -- third and the fifth of every five frames that it takes from its queue, counted on from its place
  -- in the five at the start: each is copied, with its time and id, from the scan buffer taken to the
  -- write-out buffer whose index the queue accepts. The thread stays synchronised, its arrays hold
  -- frames and its indices are in range.
  pub Run-Picked :
      (s : TenState os)
      → IsSynced os s
      → (k : ℕ) (t : TenState os) (r : Run s k t) → Picked k s t × AllStored r
  Run-Picked s v k t r = (run-Picked s v k t r, run-AllStored s v k t r)
