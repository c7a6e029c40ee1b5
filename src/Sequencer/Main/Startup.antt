-- ===== src/Sequencer/Main/Startup.antt =====
-- What stands when `main` creates its threads.
use synchronome.Base.{
  ℕ, ◌<◌, ◌≤◌, ◌≡◌, inl, inr, refl, Bool, true, false, if◌then◌else◌, List, [], Option, none, some,
  length,
}
use synchronome.Buffer
use synchronome.Buffer.{Buffer, init_processing, init_writeout}
use synchronome.Buffer.Arrays.{All, IsFrame}
use synchronome.Buffer.Allocation.{
  Initialised, init_writeout-Initialised, init_processing-deallocate_processing,
}
use synchronome.Queue.{Mqueue}
use synchronome.CameraDriver.{open_camera}
use synchronome.Camera.{Video, camera_num_buf, camera_init_all, camera_start_streaming}
use synchronome.Camera.Levels.{Settled}
use synchronome.Camera.Cleanup.{Opened, camera_init_all-Settled}
use synchronome.Camera.Streaming.{camera_start_streaming-Settled}
use synchronome.Realtime.{Pthreads, Sched, set_main_realtime}
use synchronome.Pipeline.Outcome.{next, checked, ◌>>=◌, Safely, Safely->>=}
use synchronome.Sequencer.Main.{
  Thread, frame_thread, processing_thread, writeout_thread, Replies, MainState, exit, set_up_queues,
  sem_init, set_up_semaphores, with_sched, enter_realtime, with_scan_buffer, with_wo_buffers,
  set_up_resources, with_video, set_up_camera, create, create_threads, create_timer, start_up,
}
use synchronome.Sequencer.Main.Stages.{Fresh, IsEmpty, Started, Exits, Queued, Resourced, Ready}
use synchronome.Sequencer.Main.Queues.{set_up_queues-Queued}

module _ (os : Mqueue) (pt : Pthreads) where
  -- The steps between the queues and the buffers change neither.
  sem_init-Queued :
      (b : Bool) (s : MainState os pt)
      → Queued os pt s
      → Safely (Queued os pt) (Exits os pt) (sem_init os pt b s)
  unfolding sem_init exit
  sem_init-Queued true s q = record {
    fresh = record {
      threads = q.fresh.threads;
      scans = q.fresh.scans;
      wos = q.fresh.wos;
      camera = q.fresh.camera;
    };
    frame_q = q.frame_q;
    writeout_q = q.writeout_q;
  }
  sem_init-Queued false s q = inl q.fresh.threads

  with_sched-Queued :
      (out : Buffer.Ret × Sched) (s : MainState os pt)
      → Queued os pt s
      → Safely (Queued os pt) (Exits os pt) (with_sched os pt out s)
  unfolding with_sched exit
  with_sched-Queued (Buffer.ok, sched) s q = record {
    fresh = record {
      threads = q.fresh.threads;
      scans = q.fresh.scans;
      wos = q.fresh.wos;
      camera = q.fresh.camera;
    };
    frame_q = q.frame_q;
    writeout_q = q.writeout_q;
  }
  with_sched-Queued (Buffer.err, sched) s q = inl q.fresh.threads

  set_up_semaphores-Queued :
      (r : Replies os pt) (s : MainState os pt)
      → Queued os pt s
      → Safely (Queued os pt) (Exits os pt) (set_up_semaphores os pt r s)
  unfolding set_up_semaphores
  set_up_semaphores-Queued r s q =
      Safely->>= (Queued os pt) (Queued os pt) (Exits os pt) (sem_init os pt r.sem_framegrab_ok s) _
        (sem_init-Queued _ s q)
        λ s1 q1.
          Safely->>= (Queued os pt) (Queued os pt) (Exits os pt)
            (sem_init os pt r.sem_processing_ok s1) _ (sem_init-Queued _ s1 q1)
            λ s2 q2.
              Safely->>= (Queued os pt) (Queued os pt) (Exits os pt)
                (sem_init os pt r.sem_writeout_ok s2) _ (sem_init-Queued _ s2 q2)
                λ s3 q3. sem_init-Queued r.sem_teardown_ok s3 q3

  with_wo_buffers-Resourced :
      (o : Option (Buffer.Ret × List Buffer)) (s : MainState os pt)
      → s.threads ≡ []
      → IsEmpty os pt s.frame_q
      → IsEmpty os pt s.writeout_q
      → All IsFrame s.scan_buffer
      → Opened s.video
      → Initialised o
      → Safely (Ready os pt) (Exits os pt) (checked o >>= λ wo. with_wo_buffers os pt wo s)
  unfolding with_wo_buffers exit
  with_wo_buffers-Resourced none s t e e' f v h = absurd h
  with_wo_buffers-Resourced (some (Buffer.ok, bs)) s t e e' f v h =
      (record { threads = t; frame_q = e; writeout_q = e'; scans = f; wos = h }, v)
  with_wo_buffers-Resourced (some (Buffer.err, bs)) s t e e' f v h = inl t

  after_scan_buffer :
      (r : Replies os pt) (s : MainState os pt) (out : Buffer.Ret × List Buffer)
      → init_processing r.malloc_processing s.scan_buffer ≡ out
      → Queued os pt s
      → Safely (Ready os pt) (Exits os pt) (
          with_scan_buffer os pt out s >>= λ s1.
          checked (init_writeout r.malloc_writeout s1.wo_buffers) >>= λ wo.
          with_wo_buffers os pt wo s1)
  unfolding with_scan_buffer exit
  after_scan_buffer r s (Buffer.err, bs) e q = inl q.fresh.threads
  after_scan_buffer r s (Buffer.ok, bs) e q =
      let (frames, _) =
        init_processing-deallocate_processing r.malloc_processing s.scan_buffer bs q.fresh.scans
          e in
      with_wo_buffers-Resourced (init_writeout r.malloc_writeout s.wo_buffers)
        (record s { scan_buffer = bs }) q.fresh.threads q.frame_q q.writeout_q frames q.fresh.camera
        (init_writeout-Initialised r.malloc_writeout s.wo_buffers q.fresh.wos)

  set_up_resources-Resourced :
      (r : Replies os pt) (s : MainState os pt)
      → Queued os pt s
      → Safely (Ready os pt) (Exits os pt) (set_up_resources os pt r s)
  unfolding set_up_resources
  set_up_resources-Resourced r s q = after_scan_buffer r s _ refl q

  with_video-Started :
      (o : Option (Buffer.Ret × Video)) (s : MainState os pt)
      → Resourced os pt s
      → Settled o
      → Safely
          (λ t. Started os pt t × (t.threads ≡ []))
          (Exits os pt)
          (checked o >>= λ v. with_video os pt v s)
  unfolding with_video exit
  with_video-Started none s q h = unfold Settled in h
  with_video-Started (some (Buffer.ok, v)) s q h = (
    record {
      frame_q = q.frame_q;
      writeout_q = q.writeout_q;
      scans = q.scans;
      wos = q.wos;
      camera = h;
    },
    q.threads,
  )
  with_video-Started (some (Buffer.err, v)) s q h = inl q.threads

  streaming-Started :
      (r : Replies os pt) (o : Option (Buffer.Ret × Video)) (s : MainState os pt)
      → Resourced os pt s
      → Settled o
      → Safely
          (λ t. Started os pt t × (t.threads ≡ []))
          (Exits os pt)
          (checked o >>= λ v. with_video os pt v s >>= λ s2.
            checked (camera_start_streaming r.camera s2.video) >>= λ w. with_video os pt w s2)
  unfolding with_video exit
  streaming-Started r none s q h = unfold Settled in h
  streaming-Started r (some (Buffer.err, v)) s q h = inl q.threads
  streaming-Started r (some (Buffer.ok, v)) s q h =
      with_video-Started (camera_start_streaming r.camera v) (record s { video = v })
        (record {
          threads = q.threads;
          frame_q = q.frame_q;
          writeout_q = q.writeout_q;
          scans = q.scans;
          wos = q.wos;
        })
        (camera_start_streaming-Settled r.camera v h)

  -- The driver grants at most the buffers asked for.
  abbrev pub Modest : Replies os pt → Type 0
  Modest r = (n : ℕ) → r.camera.reqbufs ≡ some n → n ≤ camera_num_buf

  set_up_camera-Started :
      (r : Replies os pt) (s : MainState os pt)
      → Modest r
      → Ready os pt s
      → Safely (λ t. Started os pt t × (t.threads ≡ [])) (Exits os pt) (set_up_camera os pt r s)
  unfolding set_up_camera exit
  set_up_camera-Started r s most (q, v) = opened_camera (open_camera r.camera.device)
    where
      opened_camera :
          (b : Bool)
          → Safely
              (λ t. Started os pt t × (t.threads ≡ []))
              (Exits os pt)
              ((if b then next s else exit os pt s) >>= λ s1.
                checked (camera_init_all r.camera s1.video) >>= λ camera.
                with_video os pt camera s1 >>= λ s2.
                checked (camera_start_streaming r.camera s2.video) >>= λ streaming.
                with_video os pt streaming s2)
      opened_camera true =
          streaming-Started r (camera_init_all r.camera s.video) s q
            (camera_init_all-Settled r.camera s.video v most)
      opened_camera false = inl q.threads

  create_threads-Started :
      (r : Replies os pt) (s : MainState os pt)
      → Started os pt s
      → (Started os pt) (create_threads os pt r s)
  unfolding create_threads create
  create_threads-Started r s v = created r.writeout_created writeout_thread _ (
      created r.processing_created processing_thread _
        (created r.framegrab_created frame_thread s v))
    where
      created :
          (b : Bool) (t : Thread) (s : MainState os pt)
          → Started os pt s
          → (Started os pt) (create os pt b t s)
      created true t s v = record {
        frame_q = v.frame_q;
        writeout_q = v.writeout_q;
        scans = v.scans;
        wos = v.wos;
        camera = v.camera;
      }
      created false t s v = v

  create_timer-Started :
      (b : Bool) (s : MainState os pt)
      → Started os pt s
      → Safely (Started os pt) (Exits os pt) (if b then next s else exit os pt s)
  unfolding exit
  create_timer-Started true s v = v
  create_timer-Started false s v = inr v

  -- From fresh globals, with fuel for the messages that an earlier run left in either queue and a
  -- driver that grants at most the buffers asked for, `main` comes to the barrier or exits, whatever
  -- else fails, and makes no fault. At the barrier both queues are empty, every scan buffer and every
  -- write-out buffer has a frame's memory, and the camera is set up; it exits with all this standing,
  -- or before it has created a thread.
  pub start_up-Started :
      (r : Replies os pt) (s : MainState os pt)
      → Fresh os pt s
      → length (os.contents r.frame_opened) < r.fuel
      → length (os.contents r.writeout_opened) < r.fuel
      → Modest r
      → Safely (Started os pt) (Exits os pt) (start_up os pt r s)
  unfolding start_up enter_realtime create_timer
  start_up-Started r s f h k most =
      Safely->>= (Queued os pt) (Started os pt) (Exits os pt) (set_up_queues os pt r s) _
        (set_up_queues-Queued os pt r s f h k)
        λ s1 q1.
          Safely->>= (Queued os pt) (Started os pt) (Exits os pt) (set_up_semaphores os pt r s1) _
            (set_up_semaphores-Queued r s1 q1)
            λ s2 q2.
              Safely->>= (Queued os pt) (Started os pt) (Exits os pt)
                (with_sched os pt (set_main_realtime pt r.realtime s2.sched) s2) _
                (with_sched-Queued (set_main_realtime pt r.realtime s2.sched) s2 q2)
                λ s3 q3.
                  Safely->>= (Ready os pt) (Started os pt) (Exits os pt)
                    (set_up_resources os pt r s3) _ (set_up_resources-Resourced r s3 q3)
                    λ s4 q4.
                      Safely->>= _ (Started os pt) (Exits os pt) (set_up_camera os pt r s4) _
                        (set_up_camera-Started r s4 most q4)
                        λ s5 q5.
                          create_timer-Started r.timer_create_ok (create_threads os pt r s5)
                            (create_threads-Started r s5 q5.0)
