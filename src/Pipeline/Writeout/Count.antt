-- ===== src/Pipeline/Writeout/Count.antt =====
-- How many frames are written, and to which files.
use synchronome.Base.{
  ℕ, ◌+◌, ◌<◌, ◌≤◌, ◌≡◌, refl, sym, subst, ◌∙◌, ◌⊎◌, inl, inr, Bool, true, false, Bool-cases, List,
  [], ◌∷◌, ◌++◌, Option, some, none, Option-cases, get_elem?, arith, ◌==◌, ==_iff, if◌then◌else◌,
  if_then, if_else,
}
use synchronome.Base.Int.{pos, negsuc}
use synchronome.Timetools.{Timespec}
use synchronome.Memlog.{Memlog, memlog_log}
use synchronome.Memlog.Event
use synchronome.Buffer.{Buffer}
use synchronome.Dumptools.{
  Disk, Call, open_file, write_header, write_bytes, close_file, file_number_max,
}
use synchronome.Dumptools.Image.{filed, refused, frame_file}
use synchronome.Transformation.{do_transformations}
use synchronome.Transformation.Dump.{after, do_transformations-after}
use synchronome.Queue.{Mqueue, QueueContainer, dequeue_p}
use synchronome.Queue
use synchronome.Pipeline.Outcome.{Outcome, next, leave, fault, ◌>>=◌}
use synchronome.Pipeline.Writeout.{
  WriteState, writeout_total_frames, writeout_round, loop_body, log, received, write,
}

-- Every file opened so far has a number below a bound.
unfoldable pub Below : ℕ → List Call → Type 0
Below n [] = Unit
Below n (open_file true name ∷ cs) = (name.number < n) × Below n cs
Below n (_ ∷ cs) = Below n cs

-- `wide` goes from a bound to the next.
Below-wide : (n m : ℕ) (cs : List Call) → n ≤ m → Below n cs → Below m cs
unfolding Below
Below-wide n m [] h b = tt
Below-wide n m (open_file true name ∷ cs) h (k, b) = (omega (arith, h, k), Below-wide n m cs h b)
Below-wide n m (open_file false name ∷ cs) h b = Below-wide n m cs h b
Below-wide n m (write_header t s i ∷ cs) h b = Below-wide n m cs h b
Below-wide n m (write_bytes p s ∷ cs) h b = Below-wide n m cs h b
Below-wide n m (close_file ∷ cs) h b = Below-wide n m cs h b

Below-append : (n : ℕ) (cs ds : List Call) → Below n cs → Below n ds → Below n (cs ++ ds)
unfolding Below
Below-append n [] ds b c = c
Below-append n (open_file true name ∷ cs) ds (k, b) c = (k, Below-append n cs ds b c)
Below-append n (open_file false name ∷ cs) ds b c = Below-append n cs ds b c
Below-append n (write_header t s i ∷ cs) ds b c = Below-append n cs ds b c
Below-append n (write_bytes p s ∷ cs) ds b c = Below-append n cs ds b c
Below-append n (close_file ∷ cs) ds b c = Below-append n cs ds b c

-- The counter of the files is not ahead of the number of frames, and is above every file's number.
unfoldable pub IsNumbered : ℕ → Disk → Type 0
IsNumbered total d = (d.frame_num_s ≤ total) × Below d.frame_num_s d.calls

after-IsNumbered :
    (reply : Bool) (image : Buffer) (total : ℕ) (d : Disk)
    → IsNumbered total d
    → total + 1 < file_number_max
    → IsNumbered (total + 1) (after reply image d)
unfolding IsNumbered filed refused
after-IsNumbered true image total d (h, b) lt =
    let n = d.frame_num_s in
    let e : (if n + 1 == file_number_max then 0 else n + 1) ≡ n + 1 = ground (arith, h, lt) in
    (
      subst (λ k. k ≤ total + 1) (sym e) (omega (arith, h)),
      subst (λ k. Below k (d.calls ++ frame_file n image)) (sym e)
          (Below-append (n + 1) d.calls (frame_file n image)
            (Below-wide n (n + 1) d.calls (omega arith) b)
            (unfold Below frame_file in (omega arith, tt))),
    )
after-IsNumbered false image total d (h, b) lt =
    (omega (arith, h), Below-append d.frame_num_s d.calls _ b (unfold Below in tt))

module _ (os : Mqueue) where
  -- What a round that began with `total` frames written and the files `d` may come to, when its file
  -- opens or not.
  unfoldable pub Counted : Bool → ℕ → Disk → Outcome (WriteState os) (WriteState os) → Type 0
  Counted opened total d (next s) =
      (s.total_frames_written ≡ total + 1)
      × (total + 1 < writeout_total_frames)
      × IsNumbered (total + 1) s.disk
      × (s.disk ≡ after opened s.wo_buffer d)
  Counted opened total d (leave (pos code) s) =
      (code ≡ 0)
      × (s.running ≡ false)
      × (s.total_frames_written ≡ writeout_total_frames)
      × (total + 1 ≡ writeout_total_frames)
      × (s.disk ≡ after opened s.wo_buffer d)
  Counted opened total d (leave (negsuc code) s) =
      (code ≡ 0) × (s.running ≡ false) × (s.total_frames_written ≡ total) × (s.disk ≡ d)
  Counted opened total d fault = Unit

  settle :
      (s : WriteState os) (d : Disk) (reply : Bool)
      → IsNumbered s.total_frames_written d
      → s.total_frames_written < writeout_total_frames
      → (s' : WriteState os) → s'.total_frames_written ≡ s.total_frames_written + 1
      → s'.disk ≡ after reply s'.wo_buffer d
      → Counted reply s.total_frames_written d (
          if s.total_frames_written + 1 == writeout_total_frames
          then leave (pos 0) (record s' { running = false })
          else next s')
  settle s d reply num lt s' et ed =
      let total = s.total_frames_written in
      elim (Bool-cases (total + 1 == writeout_total_frames)) [
        | inl e ↦ subst (Counted reply total d) (sym (if_then _ _ e)) (
            unfold Counted in
            (
              refl,
              refl,
              et ∙ (==_iff (total + 1) writeout_total_frames).0 e,
              (==_iff (total + 1) writeout_total_frames).0 e,
              ed,
            ))
        | inr e ↦
            let below : total + 1 < writeout_total_frames = ground (arith, e, lt) in
            subst (Counted reply total d) (sym (if_else _ _ e)) (
              unfold Counted in
              (
                et,
                below,
                subst (IsNumbered (total + 1)) (sym ed)
                    (after-IsNumbered reply s'.wo_buffer total d num below),
                ed,
              ))
      ]

  num_bound :
      (s : WriteState os)
      → IsNumbered s.total_frames_written s.disk
      → s.disk.frame_num_s ≤ s.total_frames_written
  unfolding IsNumbered
  num_bound s num = num.0

  write-Counted :
      (opened : Bool) (i : ℕ) (s : WriteState os)
      → IsNumbered s.total_frames_written s.disk
      → s.total_frames_written < writeout_total_frames
      → Counted opened s.total_frames_written s.disk (write os opened i s)
  unfolding write
  write-Counted opened i s num lt = elim (Option-cases (get_elem? s.wo_buffers i)) [
    | inl e ↦ rw e (unfold Counted in tt)
    | inr (b, e) ↦ elim (Option-cases (do_transformations opened b s.wo_buffer s.disk)) [
      | inl t ↦ rw (e, t) (unfold Counted in tt)
      | inr ((out, d), t) ↦
          rw (e, t)
            (settle s s.disk opened num lt
              (record s {
                wo_buffer = out;
                disk = d;
                total_frames_written = s.total_frames_written + 1;
              })
              refl
              (do_transformations-after opened b s.wo_buffer s.disk
                (omega (arith, num_bound s num, lt)) t))
    ]
  ]

  log-cases :
      (event : ℕ) (now : Timespec) (s : WriteState os)
      → (log os event now s ≡ fault)
        ⊎ ((l : Memlog) × (log os event now s ≡ next (record s { writeout_log = l })))
  unfolding log
  log-cases event now s = elim (Option-cases (memlog_log event now s.writeout_log)) [
    | inl e ↦ inl (rw e)
    | inr (l, e) ↦ inr (l, rw e)
  ]

  run_round :
      (run_time : Timespec) (opened : Bool) (i : ℕ) (s : WriteState os)
      → IsNumbered s.total_frames_written s.disk
      → s.total_frames_written < writeout_total_frames
      → Counted opened s.total_frames_written s.disk
          (log os Event.s3_run run_time s >>= λ s3. write os opened i s3)
  run_round run_time opened i s num lt = elim (log-cases Event.s3_run run_time s) [
    | inl e ↦ rw e (unfold Counted in tt)
    | inr (l, e) ↦ rw e (write-Counted opened i (record s { writeout_log = l }) num lt)
  ]

  dequeued_round :
      (run_time : Timespec) (opened : Bool) (r : Queue.Ret × Option ℕ × QueueContainer os)
      (s : WriteState os)
      → IsNumbered s.total_frames_written s.disk
      → s.total_frames_written < writeout_total_frames
      → Counted opened s.total_frames_written s.disk (
          received os r s >>= λ p.
          log os Event.s3_run run_time p.1 >>= λ s3. write os opened p.0 s3)
  unfolding received Counted
  dequeued_round run_time opened (Queue.ok, some i, q) s num lt =
      run_round run_time opened i (record s { writeout_q = q }) num lt
  dequeued_round run_time opened (Queue.ok, none, q) s num lt = (refl, refl, refl, refl)
  dequeued_round run_time opened (Queue.err, o, q) s num lt = (refl, refl, refl, refl)

  -- A round of a running write-out thread, begun with fewer than 1801 frames written and a file
  -- counter that is at most their number and above the number of every file opened, ends in one of
  -- four ways. It counts one more frame, and 1801 are not yet reached. It counts the last of the 1801
  -- and stops the system. In both, if the file opens, the calls are those that write the image in the
  -- output buffer to the file of the counter's number, which no earlier file of the run has; if not,
  -- the opening is the only call, and the frame counts all the same. Or the queue fails, which stops
  -- the system with -1, counts nothing and makes no call; or an assertion fails.
  pub writeout_round-Counted :
      (done_time run_time : Timespec) (opened : Bool) (s : WriteState os)
      → s.running ≡ true
      → IsNumbered s.total_frames_written s.disk
      → s.total_frames_written < writeout_total_frames
      → Counted opened s.total_frames_written s.disk (writeout_round os done_time run_time opened s)
  unfolding writeout_round loop_body
  writeout_round-Counted done_time run_time opened s run num lt =
      subst (Counted opened s.total_frames_written s.disk) (sym (if_then _ _ run))
        (elim (log-cases Event.s3_done done_time s) [
          | inl e ↦ rw e (unfold Counted in tt)
          | inr (l, e) ↦ rw e (
              dequeued_round run_time opened (dequeue_p os s.writeout_q)
                (record s { writeout_log = l }) num lt)
        ])
