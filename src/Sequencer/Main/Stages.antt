-- ===== src/Sequencer/Main/Stages.antt =====
-- What stands at the stages of `main`.
use synchronome.Base.{◌≡◌, ◌⊎◌, [], some}
use synchronome.Base.Int.{pos}
use synchronome.Buffer
use synchronome.Buffer.{Buffer, init_processing, init_writeout}
use synchronome.Buffer.Arrays.{All, IsFrame}
use synchronome.Buffer.Allocation.{IsNull}
use synchronome.Queue.{Mqueue, QueueContainer}
use synchronome.Queue.Fifo.{held}
use synchronome.Camera.Levels.{Settled}
use synchronome.Camera.Cleanup.{Opened}
use synchronome.Realtime.{Pthreads}
use synchronome.Sequencer.Main.{MainState}

module _ (os : Mqueue) (pt : Pthreads) where
  -- What the linker sets up: no memory and no thread; and the camera just opened.
  pub record Fresh (s : MainState os pt) : Type 0 where
    pub threads : s.threads ≡ []
    pub scans : All IsNull s.scan_buffer
    pub wos : All IsNull s.wo_buffers
    pub camera : Opened s.video

  abbrev pub IsEmpty : QueueContainer os → Type 0
  IsEmpty q = (held os q ≡ []) × (q.count ≡ pos 0)

  -- The buffers and the camera stand, whatever the queues hold.
  pub record Standing (s : MainState os pt) : Type 0 where
    pub scans : All IsFrame s.scan_buffer
    pub wos : All IsFrame s.wo_buffers
    pub camera : Settled (some (Buffer.ok, s.video))

  -- Every resource of the threads stands, and the queues are empty.
  pub record Started (s : MainState os pt) : Type 0 where
    pub frame_q : IsEmpty s.frame_q
    pub writeout_q : IsEmpty s.writeout_q
    pub scans : All IsFrame s.scan_buffer
    pub wos : All IsFrame s.wo_buffers
    pub camera : Settled (some (Buffer.ok, s.video))

  -- How `main` may exit: before it has created a thread, or with every resource standing.
  abbrev pub Exits : MainState os pt → Type 0
  Exits s = (s.threads ≡ []) ⊎ Started s

  -- The queues empty, and then the arrays set up too.
  pub record Queued (s : MainState os pt) : Type 0 where
    pub fresh : Fresh s
    pub frame_q : IsEmpty s.frame_q
    pub writeout_q : IsEmpty s.writeout_q

  -- The arrays set up.
  pub record Resourced (s : MainState os pt) : Type 0 where
    pub threads : s.threads ≡ []
    pub frame_q : IsEmpty s.frame_q
    pub writeout_q : IsEmpty s.writeout_q
    pub scans : All IsFrame s.scan_buffer
    pub wos : All IsFrame s.wo_buffers

  abbrev pub Ready : MainState os pt → Type 0
  Ready s = Resourced s × Opened s.video
