-- ===== src/Pipeline/Writeout/Sound.antt =====
-- What keeps the write-out thread from a failed assertion and from an access out of range.
use synchronome.Base.{
  ℕ, ◌+◌, ◌<◌, ◌≡◌, refl, sym, subst, ◌∙◌, Bool, true, false, ◌==◌, List, [], ◌∷◌, Option, some,
  none, length, arith, if◌then◌else◌,
}
use synchronome.Base.Int.{pos}
use synchronome.Timetools.{Timespec}
use synchronome.Memlog.Ring.{IsValid, memlog_log-Written}
use synchronome.Memlog.Event
use synchronome.Buffer.{Buffer, live}
use synchronome.Buffer.Arrays.{All, All-get_elem?}
use synchronome.Dumptools.{Disk, file_number_max}
use synchronome.Dumptools.Image.{filed, refused}
use synchronome.Transformation.{do_transformations}
use synchronome.Transformation.Layout.{rgb_of}
use synchronome.Transformation.Dump.{image_of, after, do_transformations_lem}
use synchronome.Queue.{Mqueue, QueueContainer, dequeue_p}
use synchronome.Queue
use synchronome.Queue.Fifo.{held, Dequeued, dequeue_p-Dequeued}
use synchronome.Pipeline.Outcome.{next, leave, Safely, Safely->>=, Safely-if}
use synchronome.Pipeline.Writeout.{
  WriteState, writeout_total_frames, writeout_round, loop_body, log, received, write,
}

-- A buffer of YUYV bytes whose RGB image has `n` bytes.
pub record IsYuyv (n : ℕ) (b : Buffer) : Type 0 where
  pub bytes : List ℕ
  pub memory : b.start ≡ live bytes
  pub whole : b.size ≡ length bytes
  pub image_size : n ≡ length (rgb_of bytes)

-- A buffer with memory for `n` bytes.
pub record IsRoom (n : ℕ) (b : Buffer) : Type 0 where
  pub bytes : List ℕ
  pub memory : b.start ≡ live bytes
  pub room : length bytes ≡ n

-- The indices of an array of `n` buffers.
abbrev pub Indices : ℕ → List ℕ → Type 0
Indices n [] = Unit {0}
Indices n (i ∷ is) = (i < n) × Indices n is

after_small :
    (opened : Bool) (image : Buffer) (d : Disk)
    → d.frame_num_s < file_number_max
    → (after opened image d).frame_num_s < file_number_max
unfolding filed refused
after_small true image d h = ground arith
after_small false image d h = h

module _ (os : Mqueue) where
  -- Every write-out buffer has an image of `n` bytes, the output buffer has room for it, the file
  -- counter is in its range, the log's index is in the log, and the queue holds indices of write-out
  -- buffers.
  pub record IsSound (n : ℕ) (s : WriteState os) : Type 0 where
    pub sources : All (IsYuyv n) s.wo_buffers
    pub target : IsRoom n s.wo_buffer
    pub counter : s.disk.frame_num_s < file_number_max
    pub logged : IsValid s.writeout_log
    pub indices : Indices (length s.wo_buffers) (held os s.writeout_q)

  -- The system has been stopped.
  abbrev pub Stopped : WriteState os → Type 0
  Stopped s = s.running ≡ false

  log-Sound :
      (n event : ℕ) (now : Timespec) (s : WriteState os)
      → IsSound n s
      → Safely (λ t. IsSound n t × (t.wo_buffers ≡ s.wo_buffers)) Stopped (log os event now s)
  unfolding log
  log-Sound n event now s v =
      let (l, e, w) = memlog_log-Written event now s.writeout_log v.logged in
      rw e (
        record {
          sources = v.sources;
          target = v.target;
          counter = v.counter;
          logged = w.valid;
          indices = v.indices;
        },
        refl,
      )

  received-Sound :
      (n : ℕ) (s : WriteState os) (r : Queue.Ret × Option ℕ × QueueContainer os)
      → Dequeued os s.writeout_q r
      → IsSound n s
      → Safely (λ p. IsSound n p.1 × (p.0 < length p.1.wo_buffers)) Stopped (received os r s)
  unfolding received
  received-Sound n s (Queue.ok, some i, q) d v =
      let h = subst (Indices (length s.wo_buffers)) d.0 v.indices in
      (
        record {
          sources = v.sources;
          target = v.target;
          counter = v.counter;
          logged = v.logged;
          indices = h.1;
        },
        h.0,
      )
  received-Sound n s (Queue.ok, none, q) d v = absurd d
  received-Sound n s (Queue.err, o, q) d v = refl

  transformed :
      (n : ℕ) (opened : Bool) (b out : Buffer) (d : Disk) (y : IsYuyv n b) (r : IsRoom n out)
      → d.frame_num_s < file_number_max
      → do_transformations opened b out d
        ≡ some (image_of y.bytes b out, after opened (image_of y.bytes b out) d)
  transformed n true b out d y r h =
      (do_transformations_lem b out d y.bytes r.bytes y.memory y.whole r.memory
        (r.room ∙ y.image_size) h).0
  transformed n false b out d y r h =
      (do_transformations_lem b out d y.bytes r.bytes y.memory y.whole r.memory
        (r.room ∙ y.image_size) h).1

  write-Sound :
      (n : ℕ) (opened : Bool) (i : ℕ) (s : WriteState os)
      → IsSound n s
      → i < length s.wo_buffers
      → Safely (IsSound n) Stopped (write os opened i s)
  unfolding write
  write-Sound n opened i s v h =
      let (b, e, y) = All-get_elem? (IsYuyv n) s.wo_buffers i v.sources h in
      let done = transformed n opened b s.wo_buffer s.disk y v.target v.counter in
      let image = image_of y.bytes b s.wo_buffer in
      let s' : WriteState os = record s {
        wo_buffer = image;
        disk = after opened image s.disk;
        total_frames_written = s.total_frames_written + 1;
      } in
      let v' : IsSound n s' = record {
        sources = v.sources;
        target = record { bytes = rgb_of y.bytes; memory = refl; room = sym y.image_size };
        counter = after_small opened image s.disk v.counter;
        logged = v.logged;
        indices = v.indices;
      } in
      rw (e, done)
        (Safely-if (IsSound n) Stopped (s'.total_frames_written == writeout_total_frames)
          (leave (pos 0) (record s' { running = false })) (next s') refl v')

  loop_body-Sound :
      (n : ℕ) (done_time run_time : Timespec) (opened : Bool) (s : WriteState os)
      → IsSound n s
      → Safely (IsSound n) Stopped (loop_body os done_time run_time opened s)
  unfolding loop_body
  loop_body-Sound n done_time run_time opened s v =
      Safely->>= _ (IsSound n) Stopped (log os Event.s3_done done_time s) _ (log-Sound n _ _ s v)
        λ s1 v1.
          Safely->>= _ (IsSound n) Stopped (received os (dequeue_p os s1.writeout_q) s1) _
            (received-Sound n s1 _ (dequeue_p-Dequeued os s1.writeout_q) v1.0)
            λ p v2.
              Safely->>= _ (IsSound n) Stopped (log os Event.s3_run run_time p.1) _
                (log-Sound n _ _ p.1 v2.0)
                λ s3 v3.
                  write-Sound n opened p.0 s3 v3.0 (subst (λ l. p.0 < length l) (sym v3.1) v2.1)

  -- A round of the write-out thread makes no fault when every write-out buffer has an image of some
  -- size, the output buffer has room for it, the file counter is below 1801, the log's index is in
  -- the log and the queue holds indices of write-out buffers: it ends with all this standing, or
  -- leaves with the system stopped, whether or not the file opens and the queue's calls fail.
  pub writeout_round-Sound :
      (n : ℕ) (done_time run_time : Timespec) (opened : Bool) (s : WriteState os)
      → IsSound n s
      → Safely (IsSound n) Stopped (writeout_round os done_time run_time opened s)
  unfolding writeout_round
  writeout_round-Sound n done_time run_time opened s v = running_or_not s.running refl
    where
      running_or_not :
          (b : Bool)
          → s.running ≡ b
          → Safely
              (IsSound n)
              Stopped
              (if b then loop_body os done_time run_time opened s else leave (pos 0) s)
      running_or_not true e = loop_body-Sound n done_time run_time opened s v
      running_or_not false e = e
