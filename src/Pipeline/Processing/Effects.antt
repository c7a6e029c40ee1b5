-- ===== src/Pipeline/Processing/Effects.antt =====
-- What each part of a round of the processing thread changes of the state it shares with the frame
-- thread.
use synchronome.Base.{
  ℕ, ◌+◌, ◌≡◌, refl, Bool, true, false, Option, none, some, get_elem?, ◌==◌, Bool-cases, inl, inr,
}
use synchronome.Memlog.{memlog_log, memlog_log24}
use synchronome.Memlog.Event
use synchronome.Buffer.{copy_buffer, buffer_get_timestamp}
use synchronome.Queue.{Mqueue}
use synchronome.Motion.{quiet, is_motion}
use synchronome.Pipeline.Outcome.{
  Outcome, next, checked, require, ◌>>◌, Every, Every-mono, Every->>=, Every-checked, Every-if,
}
use synchronome.Pipeline.Processing.{
  ProcState, Clock, Turn, again, broken, buffer_changes, compare_frames, synchronise, select,
  conclude, count_frame, judge, examine, audit, is_adrift, word, is_detected, in_sync, after_inner,
  enter,
}

module _ (os : Mqueue) where
  -- The ring, the queue, the last frame and the running flag stay.
  pub record Kept (s s' : ProcState os) : Type 0 where
    pub ring : s'.scan_buffer ≡ s.scan_buffer
    pub queue : s'.frame_q ≡ s.frame_q
    pub last : s'.last_buffer_index ≡ s.last_buffer_index

  -- The ring and the queue stay, and `current` is the last frame.
  pub record Judged (current : ℕ) (s s' : ProcState os) : Type 0 where
    pub ring : s'.scan_buffer ≡ s.scan_buffer
    pub queue : s'.frame_q ≡ s.frame_q
    pub last : s'.last_buffer_index ≡ some current

  Kept-Judged :
      (current : ℕ) (s t u : ProcState os) → Kept s t → Judged current t u → Judged current s u
  Kept-Judged current s t u h k = record {
    ring = rw (k.ring, h.ring);
    queue = rw (k.queue, h.queue);
    last = k.last;
  }

  abbrev Ends : ℕ → ProcState os → Outcome (Turn × ProcState os) (ProcState os) → Type 0
  Ends current s m = Every (λ x. Judged current s x.1) m

  -- A part, after one that kept the shared state.
  later :
      (current : ℕ) (s t : ProcState os) (m : Outcome (Turn × ProcState os) (ProcState os))
      → Kept s t
      → Ends current t m
      → Ends current s m
  later current s t m h k =
      Every-mono (λ x. Judged current t x.1) (λ x. Judged current s x.1) m k
        (λ u. Kept-Judged current s t u.1 h)

  select-Kept : (current : ℕ) (s : ProcState os) → Every (Kept s) (select os current s)
  unfolding select
  select-Kept current s =
      Every->>= _ (Kept s) (checked (get_elem? s.scan_buffer current)) _ (Every-checked _ _)
        λ src e.
          Every->>= _ (Kept s) (checked (get_elem? s.wo_buffers s.wo_buffer_index)) _
            (Every-checked _ _)
            λ dst f.
              Every->>= _ (Kept s) (checked (copy_buffer dst src)) _ (Every-checked _ _)
                λ b g. record { ring = refl; queue = refl; last = refl }

  compare_frames-Kept :
      (l current : ℕ) (s : ProcState os) → Every (Kept s) (compare_frames os l current s)
  unfolding compare_frames
  compare_frames-Kept l current s =
      Every->>= _ (Kept s) (checked (get_elem? s.scan_buffer l)) _ (Every-checked _ _) λ a e.
        Every->>= _ (Kept s) (checked (get_elem? s.scan_buffer current)) _ (Every-checked _ _)
          λ b f. Every->>= _ (Kept s) (checked (buffer_changes a b)) _ (Every-checked _ _) λ n g.
            Every->>= _ (Kept s) (checked (get_elem? s.wo_buffers s.wo_buffer_index)) _
              (Every-checked _ _) λ wo h. required (b.size == wo.size) n
    where
      required :
          (b : Bool) (n : ℕ)
          → Every (Kept s) (
              require {S = ProcState os} b
              >> next (record s {
                changed_pixels = n;
                did_frame_tick = (is_motion n s.motion).0;
                motion = (is_motion n s.motion).1;
              }))
      required true n = record { ring = refl; queue = refl; last = refl }
      required false n = tt

  conclude-Ends : (current : ℕ) (s : ProcState os) → Ends current s (conclude os current s)
  unfolding conclude
  conclude-Ends current s = elim (Bool-cases (is_detected s.did_frame_tick)) [
    | inl e ↦ rw e (
        Every->>= (Kept s) (λ x. Judged current s x.1) (select os current s) _
          (select-Kept current s) λ t h. record { ring = h.ring; queue = h.queue; last = refl })
    | inr e ↦ rw e (record { ring = refl; queue = refl; last = refl })
  ]

  synchronise-Ends :
      (l current : ℕ) (s : ProcState os) → Ends current s (synchronise os l current s)
  unfolding synchronise
  synchronise-Ends l current s =
      Every->>= _ (λ x. Judged current s x.1) (checked (get_elem? s.scan_buffer current)) _
        (Every-checked _ _)
        λ a e.
          Every->>= _ (λ x. Judged current s x.1) (checked (get_elem? s.scan_buffer l)) _
            (Every-checked _ _)
            λ b f. elim (Bool-cases (in_sync (buffer_get_timestamp a) (buffer_get_timestamp b))) [
              | inl g ↦ rw g (record { ring = refl; queue = refl; last = refl })
              | inr g ↦ rw g (record { ring = refl; queue = refl; last = refl })
            ]

  count_frame-Kept : (s : ProcState os) → Kept s (count_frame os s)
  unfolding count_frame
  count_frame-Kept s = elim (Bool-cases (s.num_frames_till_selection == 25)) [
    | inl g ↦ rw g (record { ring = refl; queue = refl; last = refl })
    | inr g ↦ rw g (record { ring = refl; queue = refl; last = refl })
  ]

  judge-Ends : (l current : ℕ) (s : ProcState os) → Ends current s (judge os l current s)
  unfolding judge
  judge-Ends l current s =
      let P : Turn × ProcState os → Type 0 = λ x. Judged current s x.1 in
      Every-if P s.is_startup _ _
        (Every->>= (Kept s) P (compare_frames os l current s) _ (compare_frames-Kept l current s)
          λ t h.
            Every-if P (is_detected t.did_frame_tick) _ _
              (later current s t _ h (synchronise-Ends l current t))
              (later current s t _ h (conclude-Ends current t)))
        (later current s _ _ (count_frame-Kept s) (conclude-Ends current (count_frame os s)))

  -- A judged frame becomes the last one.
  pub examine-Judged :
      (last : Option ℕ) (current : ℕ) (s : ProcState os)
      → Ends current s (examine os last current s)
  unfolding examine
  examine-Judged none current s = record { ring = refl; queue = refl; last = refl }
  examine-Judged (some l) current s =
      let t : ProcState os = record s {
        num_frames_till_selection = s.num_frames_till_selection + 1;
        did_frame_tick = quiet;
      } in
      later current s t (judge os l current t) (record { ring = refl; queue = refl; last = refl })
        (judge-Ends l current t)

  audit-Kept : (c : Clock) (s : ProcState os) → Every (Kept s) (audit os c s)
  unfolding audit
  audit-Kept c s =
      Every->>= _ (Kept s)
        (checked (memlog_log24 Event.adata_24 s.num_frames_till_selection c.first s.processing_log))
        _ (Every-checked _ _)
        λ l e. Every->>= _ (Kept s) (checked s.last_buffer_index) _ (Every-checked _ _) λ last f.
          Every->>= _ (Kept s) (checked (get_elem? s.scan_buffer last)) _ (Every-checked _ _) λ b g.
            Every->>= _ (Kept s) (checked (memlog_log24 Event.bdata_24 (word b.id) c.second l)) _
              (Every-checked _ _)
              λ l' h.
                Every-if (Kept s) (is_adrift os s.num_frames_till_selection) _ _
                  (record { ring = refl; queue = refl; last = refl })
                  (record { ring = refl; queue = refl; last = refl })

  pub after_inner-Kept :
      (c : Clock) (turn : Turn) (s : ProcState os) → Every (Kept s) (after_inner os c (turn, s))
  unfolding after_inner
  after_inner-Kept c again s = record { ring = refl; queue = refl; last = refl }
  after_inner-Kept c broken s =
      Every-if (Kept s) s.is_startup _ _ (record { ring = refl; queue = refl; last = refl })
        (audit-Kept c s)

  pub enter-Kept : (c : Clock) (s : ProcState os) → Every (Kept s) (enter os c s)
  unfolding enter
  enter-Kept c s =
      Every->>= _ (Kept s) (checked (memlog_log Event.s2_done c.first s.processing_log)) _
        (Every-checked _ _)
        λ l e.
          Every->>= _ (Kept s) (checked (memlog_log Event.s2_run c.second l)) _ (Every-checked _ _)
            λ l' e'. record { ring = refl; queue = refl; last = refl }
