-- ===== src/Sequencer/Main/Teardown.antt =====
-- What `main` frees after it has waited for the threads.
use synchronome.Base.{◌≡◌, refl, sym, subst, ◌∙◌, Bool, true, false, List, Option, none, some}
use synchronome.Buffer.{Buffer, deallocate_processing, deallocate_writeout}
use synchronome.Buffer.Arrays.{All, IsFrame}
use synchronome.Buffer.Allocation.{
  IsReleased, Released, deallocate_processing-Released, deallocate_writeout-Released,
}
use synchronome.Queue.{Mqueue}
use synchronome.Camera.Streaming.{IsClosed, cleanup_full-IsClosed}
use synchronome.Realtime.{Pthreads}
use synchronome.Pipeline.Outcome.{next, checked, ◌>>=◌, Safely, Safely-mono, Safely->>=}
use synchronome.Sequencer.Main.{
  MainState, Joined, free_video, free_processing, free_writeout, tear_down,
}
use synchronome.Sequencer.Main.Stages.{Standing}

-- What holds of a resource whose thread stopped, and of one whose thread did not.
abbrev pub Either : Bool → Type 0 → Type 0 → Type 0
Either true freed kept = freed
Either false freed kept = kept

module _ (os : Mqueue) (pt : Pthreads) where
  pub record Freed (j : Joined os pt) (s t : MainState os pt) : Type 0 where
    pub camera : Either j.framegrab_ok_stop (IsClosed t.video) (t.video ≡ s.video)
    pub scans :
        Either j.processing_ok_stop (All IsReleased t.scan_buffer) (t.scan_buffer ≡ s.scan_buffer)
    pub wos : Either j.writeout_ok_stop (All IsReleased t.wo_buffers) (t.wo_buffers ≡ s.wo_buffers)

  abbrev pub Never : MainState os pt → Type 0
  Never s = ⊥

  free_video-Freed :
      (b : Bool) (s : MainState os pt)
      → Standing os pt s
      → Safely
          (λ t.
            Either b (IsClosed t.video) (t.video ≡ s.video)
            × (t.scan_buffer ≡ s.scan_buffer)
            × (t.wo_buffers ≡ s.wo_buffers))
          Never
          (free_video os pt b s)
  unfolding free_video
  free_video-Freed true s h =
      let (v, e, c) = cleanup_full-IsClosed s.video h.camera in rw e (c, refl, refl)
  free_video-Freed false s h = (refl, refl, refl)

  freed_scans :
      (o : Option (List Buffer)) (s : MainState os pt)
      → Released o
      → Safely
          (λ t. All IsReleased t.scan_buffer × (t.video ≡ s.video) × (t.wo_buffers ≡ s.wo_buffers))
          Never
          (checked o >>= λ bs. next (record s { scan_buffer = bs }))
  freed_scans none s h = absurd h
  freed_scans (some bs) s h = (h, refl, refl)

  free_processing-Freed :
      (b : Bool) (s : MainState os pt)
      → All IsFrame s.scan_buffer
      → Safely
          (λ t.
            Either b (All IsReleased t.scan_buffer) (t.scan_buffer ≡ s.scan_buffer)
            × (t.video ≡ s.video)
            × (t.wo_buffers ≡ s.wo_buffers))
          Never
          (free_processing os pt b s)
  unfolding free_processing
  free_processing-Freed true s h =
      freed_scans (deallocate_processing s.scan_buffer) s
        (deallocate_processing-Released s.scan_buffer h)
  free_processing-Freed false s h = (refl, refl, refl)

  freed_wos :
      (o : Option (List Buffer)) (s : MainState os pt)
      → Released o
      → Safely
          (λ t. All IsReleased t.wo_buffers × (t.video ≡ s.video) × (t.scan_buffer ≡ s.scan_buffer))
          Never
          (checked o >>= λ bs. next (record s { wo_buffers = bs }))
  freed_wos none s h = absurd h
  freed_wos (some bs) s h = (h, refl, refl)

  free_writeout-Freed :
      (b : Bool) (s : MainState os pt)
      → All IsFrame s.wo_buffers
      → Safely
          (λ t.
            Either b (All IsReleased t.wo_buffers) (t.wo_buffers ≡ s.wo_buffers)
            × (t.video ≡ s.video)
            × (t.scan_buffer ≡ s.scan_buffer))
          Never
          (free_writeout os pt b s)
  unfolding free_writeout
  free_writeout-Freed true s h =
      freed_wos (deallocate_writeout s.wo_buffers) s (deallocate_writeout-Released s.wo_buffers h)
  free_writeout-Freed false s h = (refl, refl, refl)

  -- With the buffers and the camera standing, and whatever the queues and their counters hold, the
  -- teardown makes no fault, whichever threads stopped in time: it
  -- frees what belongs to a thread that stopped and leaves what belongs to one that did not. With the
  -- frame thread go the camera, closed once, its mappings, and both image buffers, which the other
  -- threads use.
  pub tear_down-Freed :
      (j : Joined os pt) (s : MainState os pt)
      → Standing os pt s
      → Safely (Freed j s) Never (tear_down os pt j s)
  unfolding tear_down
  tear_down-Freed j s h =
      Safely->>= _ (Freed j s) Never (free_video os pt j.framegrab_ok_stop s) _
        (free_video-Freed j.framegrab_ok_stop s h)
        λ s1 f1.
          Safely->>= _ (Freed j s) Never (free_processing os pt j.processing_ok_stop s1) _
            (free_processing-Freed j.processing_ok_stop s1 (subst (All IsFrame) (sym f1.1) h.scans))
            λ s2 f2.
              Safely-mono _ (Freed j s) Never (free_writeout os pt j.writeout_ok_stop s2)
                (free_writeout-Freed j.writeout_ok_stop s2
                  (subst (All IsFrame) (sym (f2.2 ∙ f1.2)) h.wos))
                λ t f3. record {
                  camera =
                      subst (λ v. Either j.framegrab_ok_stop (IsClosed v) (v ≡ s.video))
                        (sym (f3.1 ∙ f2.1)) f1.0;
                  scans =
                      subst
                        (λ l. Either j.processing_ok_stop (All IsReleased l) (l ≡ s.scan_buffer))
                        (sym f3.2)
                        (subst
                          (λ l.
                            Either j.processing_ok_stop (All IsReleased s2.scan_buffer)
                              (s2.scan_buffer ≡ l))
                          f1.1 f2.0);
                  wos =
                      subst
                        (λ l.
                          Either j.writeout_ok_stop (All IsReleased t.wo_buffers)
                            (t.wo_buffers ≡ l))
                        (f2.2 ∙ f1.2) f3.0;
                }
