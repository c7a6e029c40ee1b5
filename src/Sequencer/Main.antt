-- ===== src/Sequencer/Main.antt =====
-- simple-capture/sequencer.c: `main`, from the queues to the timer, and from the teardown to the freed
-- resources. The replies of the system are a parameter; an exit is a `leave` with its code.

pub mod Stages
pub mod Queues
pub mod Startup
pub mod Teardown
mod Tests
use synchronome.Base.{
  ℕ, ◌+◌, Bool, true, false, if◌then◌else◌, List, [], ◌∷◌, ◌++◌, Option, none, some,
}
use synchronome.Base.Int.{ℤ, pos, negsuc}
use synchronome.Buffer
use synchronome.Buffer.{
  Buffer, Malloc, init_processing, init_writeout, deallocate_processing, deallocate_writeout,
}
use synchronome.Queue
use synchronome.Queue.{Mqueue, Setup, QueueContainer, init_queue, flush_queue}
use synchronome.CameraDriver.{open_camera}
use synchronome.Camera.{Video, camera_init_all, camera_start_streaming, cleanup_full}
use synchronome.Camera
use synchronome.Realtime.{Pthreads, MainReplies, Sched, set_main_realtime}
use synchronome.Sequencer.{SeqState, install_timer}
use synchronome.Pipeline.Outcome.{Outcome, next, leave, fault, checked, ◌>>=◌}

-- The threads that `main` creates.
pub data Thread : Type 0 where
  frame_thread processing_thread writeout_thread : Thread

module _ (os : Mqueue) (pt : Pthreads) where
  -- What the calls of `main` reply; the queues that mq_open(3) returns come with what an earlier run
  -- left, and `fuel` bounds the flushing of them.
  pub record Replies : Type 0 where
    pub frame_setup : Setup
    pub frame_opened : os.Mq
    pub writeout_setup : Setup
    pub writeout_opened : os.Mq
    pub fuel : ℕ
    pub sem_framegrab_ok : Bool
    pub sem_processing_ok : Bool
    pub sem_writeout_ok : Bool
    pub sem_teardown_ok : Bool
    pub realtime : MainReplies pt
    pub malloc_processing : Malloc
    pub malloc_writeout : Malloc
    pub camera : Camera.Replies
    pub framegrab_created : Bool
    pub processing_created : Bool
    pub writeout_created : Bool
    pub timer_create_ok : Bool
    pub timer_settime_ok : Bool

  -- The globals that `main` sets up.
  pub record MainState : Type 0 where
    pub frame_q : QueueContainer os
    pub writeout_q : QueueContainer os
    pub semaphores : ℕ
    pub sched : Sched
    pub scan_buffer : List Buffer
    pub wo_buffers : List Buffer
    pub video : Video
    pub threads : List Thread
    pub timers : SeqState

  abbrev Result : Type 0
  Result = Outcome MainState MainState

  -- `exit(-1)`
  exit : MainState → Result
  exit s = leave (negsuc 0) s

  pub with_frame_q : Queue.Ret × QueueContainer os → MainState → Result
  unfolding exit
  with_frame_q (Queue.ok, q) s = next (record s { frame_q = q })
  with_frame_q (Queue.err, q) s = exit (record s { frame_q = q })

  pub with_writeout_q : Queue.Ret × QueueContainer os → MainState → Result
  unfolding exit
  with_writeout_q (Queue.ok, q) s = next (record s { writeout_q = q })
  with_writeout_q (Queue.err, q) s = exit (record s { writeout_q = q })

  -- The queues are opened and then flushed. A flush that runs out of fuel is a fault.
  pub set_up_queues : Replies → MainState → Result
  unfolding with_frame_q with_writeout_q
  set_up_queues r s = do
    s1 ← with_frame_q (init_queue os r.frame_setup r.frame_opened s.frame_q) s
    s2 ← with_writeout_q (init_queue os r.writeout_setup r.writeout_opened s1.writeout_q) s1
    flushed ← checked (flush_queue os r.fuel r.frame_setup s2.frame_q)
    s3 ← with_frame_q flushed s2
    flushed' ← checked (flush_queue os r.fuel r.writeout_setup s3.writeout_q)
    with_writeout_q flushed' s3

  sem_init : Bool → MainState → Result
  unfolding exit
  sem_init sem_ok s = if sem_ok then next (record s { semaphores = s.semaphores + 1 }) else exit s

  pub set_up_semaphores : Replies → MainState → Result
  unfolding sem_init
  set_up_semaphores r s = do
    s1 ← sem_init r.sem_framegrab_ok s
    s2 ← sem_init r.sem_processing_ok s1
    s3 ← sem_init r.sem_writeout_ok s2
    sem_init r.sem_teardown_ok s3

  with_sched : Buffer.Ret × Sched → MainState → Result
  unfolding exit
  with_sched (Buffer.ok, sched) s = next (record s { sched = sched })
  with_sched (Buffer.err, sched) s = exit (record s { sched = sched })

  pub enter_realtime : Replies → MainState → Result
  unfolding with_sched
  enter_realtime r s = with_sched (set_main_realtime pt r.realtime s.sched) s

  pub with_scan_buffer : Buffer.Ret × List Buffer → MainState → Result
  unfolding exit
  with_scan_buffer (Buffer.ok, bs) s = next (record s { scan_buffer = bs })
  with_scan_buffer (Buffer.err, bs) s = exit (record s { scan_buffer = bs })

  pub with_wo_buffers : Buffer.Ret × List Buffer → MainState → Result
  unfolding exit
  with_wo_buffers (Buffer.ok, bs) s = next (record s { wo_buffers = bs })
  with_wo_buffers (Buffer.err, bs) s = exit (record s { wo_buffers = bs })

  pub set_up_resources : Replies → MainState → Result
  unfolding with_scan_buffer with_wo_buffers
  set_up_resources r s = do
    s1 ← with_scan_buffer (init_processing r.malloc_processing s.scan_buffer) s
    wo ← checked (init_writeout r.malloc_writeout s1.wo_buffers)
    with_wo_buffers wo s1

  pub with_video : Buffer.Ret × Video → MainState → Result
  unfolding exit
  with_video (Buffer.ok, v) s = next (record s { video = v })
  with_video (Buffer.err, v) s = exit (record s { video = v })

  pub set_up_camera : Replies → MainState → Result
  unfolding exit with_video
  set_up_camera r s = do
    s1 ← if open_camera r.camera.device then next s else exit s
    camera ← checked (camera_init_all r.camera s1.video)
    s2 ← with_video camera s1
    streaming ← checked (camera_start_streaming r.camera s2.video)
    with_video streaming s2

  -- pthread_create(3) returns an error's number, which is never the -1 that the code tests for.
  create : Bool → Thread → MainState → MainState
  create created t s = if created then record s { threads = s.threads ++ (t ∷ []) } else s

  pub create_threads : Replies → MainState → MainState
  unfolding create
  create_threads r s =
      create r.writeout_created writeout_thread
        (create r.processing_created processing_thread (create r.framegrab_created frame_thread s))

  with_timers : Option SeqState → MainState → Result
  unfolding exit
  with_timers none s = exit s
  with_timers (some t) s = next (record s { timers = t })

  create_timer : Replies → MainState → Result
  unfolding exit
  create_timer r s = if r.timer_create_ok then next s else exit s

  -- `main` up to the barrier, which waits for the frame thread.
  pub start_up : Replies → MainState → Result
  unfolding set_up_queues set_up_semaphores enter_realtime set_up_resources set_up_camera
      create_threads create_timer
  start_up r s = do
    s1 ← set_up_queues r s
    s2 ← set_up_semaphores r s1
    s3 ← enter_realtime r s2
    s4 ← set_up_resources r s3
    s5 ← set_up_camera r s4
    create_timer r (create_threads r s5)

  -- From the barrier to the wait for the teardown.
  pub go : Replies → MainState → Result
  unfolding with_timers
  go r s = with_timers (install_timer r.timer_settime_ok s.timers) s

  -- Which threads ended within the five seconds that main waits for each.
  pub record Joined : Type 0 where
    pub framegrab_ok_stop : Bool
    pub processing_ok_stop : Bool
    pub writeout_ok_stop : Bool

  pub free_video : Bool → MainState → Result
  free_video stopped s =
      let freed = (do v ← checked (cleanup_full s.video); next (record s { video = v })) in
      if stopped then freed else next s

  pub free_processing : Bool → MainState → Result
  free_processing stopped s =
      let freed = (do
        bs ← checked (deallocate_processing s.scan_buffer)
        next (record s { scan_buffer = bs })) in
      if stopped then freed else next s

  pub free_writeout : Bool → MainState → Result
  free_writeout stopped s =
      let freed = (do
        bs ← checked (deallocate_writeout s.wo_buffers)
        next (record s { wo_buffers = bs })) in
      if stopped then freed else next s

  -- After the joins: what the threads that stopped had used is freed.
  pub tear_down : Joined → MainState → Result
  unfolding free_video free_processing free_writeout
  tear_down j s = do
    s1 ← free_video j.framegrab_ok_stop s
    s2 ← free_processing j.processing_ok_stop s1
    free_writeout j.writeout_ok_stop s2
