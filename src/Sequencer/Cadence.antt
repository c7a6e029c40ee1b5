-- ===== src/Sequencer/Cadence.antt =====
-- How often the sequencer posts, and what it leaves the timer at.
use synchronome.Base.{
  ℕ, zero, suc, inl, inr, ◌-◌, ◌+◌, ◌/◌, ◌%◌, ◌<◌, ◌≡◌, refl, ap, ◌∙◌, true, false, ◌==◌,
  if◌then◌else◌, Option, none, some, arith, Bool-cases, if_then, if_else,
}
use synchronome.Sequencer.{
  SeqState, sequencer, best_effort, tick_framegrab, advance_sequence, disarm, unblock, ctrl_c,
  timer_start,
}

-- The handler runs a number of times; the timer's call does not fail.
pub ticks : ℕ → SeqState → Option SeqState
ticks zero s = some s
ticks (suc n) s = elim (sequencer true s) [ none ↦ none | some s' ↦ ticks n s' ]

ticks_on :
    (n : ℕ) (s : SeqState) {s' : SeqState}
    → sequencer true s ≡ some s'
    → ticks (suc n) s ≡ ticks n s'
unfolding ticks
ticks_on n s e = ap (λ o. elim o [ none ↦ none | some s' ↦ ticks n s' ]) e

-- The state after a number of ticks of a running system: a framegrab post for each multiple of 4
-- among as many places of the endless sequence.
unfoldable pub ticked : ℕ → SeqState → SeqState
ticked n s = record s {
  sequence = (s.sequence + n) % 300;
  sem_writeout = s.sem_writeout + n;
  sem_processing = s.sem_processing + n;
  sem_framegrab = s.sem_framegrab + ((s.sequence + n + 3) / 4 - (s.sequence + 3) / 4);
}

advance_lem : (n : ℕ) → n < 300 → (if n + 1 == 300 then 0 else n + 1) ≡ (n + 1) % 300
advance_lem n h = ground (arith, h)

grab_lem : (n f : ℕ) → (if n % 4 == 0 then f + 1 else f) ≡ f + ((n + 1 + 3) / 4 - (n + 3) / 4)
grab_lem n f = ground arith

tick_framegrab_lem :
    (s : SeqState)
    → tick_framegrab s ≡ record s {
      sem_framegrab = if s.sequence % 4 == 0 then s.sem_framegrab + 1 else s.sem_framegrab;
    }
unfolding tick_framegrab
tick_framegrab_lem s = elim (Bool-cases (s.sequence % 4 == 0)) [
  | inl e ↦ rw e refl
  | inr e ↦ rw e refl
]

one_tick :
    (s : SeqState)
    → s.running ≡ true
    → s.freeze_system ≡ false
    → s.sequence < 300
    → sequencer true s ≡ some (ticked 1 s)
unfolding sequencer best_effort advance_sequence ticked
one_tick s run free h =
    if_then _ _ run
    ∙ if_else _ _ free
    ∙ ap (λ t. some (advance_sequence t)) (tick_framegrab_lem (best_effort s))
    ∙ ap some (λ i. record s {
      sequence = advance_lem s.sequence h i;
      sem_writeout = s.sem_writeout + 1;
      sem_processing = s.sem_processing + 1;
      sem_framegrab = grab_lem s.sequence s.sem_framegrab i;
    })

none_ticked : (s : SeqState) → s.sequence < 300 → s ≡ ticked 0 s
unfolding ticked
none_ticked s h =
    let a : s.sequence ≡ (s.sequence + 0) % 300 = omega (arith, h) in
    let b : s.sem_framegrab ≡ s.sem_framegrab + ((s.sequence + 0 + 3) / 4 - (s.sequence + 3) / 4) =
      omega arith in
    let c : s.sem_writeout ≡ s.sem_writeout + 0 = omega arith in
    let d : s.sem_processing ≡ s.sem_processing + 0 = omega arith in
    λ i. record s { sequence = a i; sem_framegrab = b i; sem_writeout = c i; sem_processing = d i }

more_ticked : (n : ℕ) (s : SeqState) → s.sequence < 300 → ticked n (ticked 1 s) ≡ ticked (suc n) s
unfolding ticked
more_ticked n s h =
    let k = s.sequence in
    let a : ((k + 1) % 300 + n) % 300 ≡ (k + suc n) % 300 = omega (arith, h) in
    let b : s.sem_framegrab
          + ((k + 1 + 3) / 4 - (k + 3) / 4)
          + (((k + 1) % 300 + n + 3) / 4 - ((k + 1) % 300 + 3) / 4)
        ≡ s.sem_framegrab + ((k + suc n + 3) / 4 - (k + 3) / 4) =
      omega (arith, h) in
    let c : s.sem_writeout + 1 + n ≡ s.sem_writeout + suc n = omega arith in
    let d : s.sem_processing + 1 + n ≡ s.sem_processing + suc n = omega arith in
    λ i. record s { sequence = a i; sem_framegrab = b i; sem_writeout = c i; sem_processing = d i }

-- Over any number of ticks of a running system that is not frozen, write-out and processing are
-- posted at every tick and the frame thread at every fourth, at the same phase also where the
-- sequence goes back from 299 to 0; the timer and the teardown are left alone.
pub ticks-ticked :
    (n : ℕ) (s : SeqState)
    → s.running ≡ true
    → s.freeze_system ≡ false
    → s.sequence < 300
    → ticks n s ≡ some (ticked n s)
ticks-ticked zero s run free h = unfold ticks in ap some (none_ticked s h)
ticks-ticked (suc n) s run free h =
    ticks_on n s (one_tick s run free h)
    ∙ ticks-ticked n (ticked 1 s) (unfold ticked in run) (unfold ticked in free)
        (unfold ticked in omega arith)
    ∙ ap some (more_ticked n s h)

-- The state after the first and a number of further ticks of a system that has stopped.
unfoldable pub wound_down : ℕ → SeqState → SeqState
wound_down n s =
    let it = record s.timer1_it { it_interval = 0 } in
    record s {
      timer1_it = it;
      timer1 = it;
      sem_writeout = s.sem_writeout + suc n;
      sem_processing = s.sem_processing + suc n;
      sem_framegrab = s.sem_framegrab + suc n;
      sem_teardown = s.sem_teardown + suc n;
    }

disarm_lem :
    (s : SeqState) → s.freeze_system ≡ false → disarm true (best_effort s) ≡ some (wound_down 0 s)
unfolding disarm unblock best_effort wound_down
disarm_lem s free = ap some (if_else _ _ free)

one_stop :
    (s : SeqState)
    → s.running ≡ false
    → s.freeze_system ≡ false
    → sequencer true s ≡ some (wound_down 0 s)
unfolding sequencer
one_stop s run free = if_else _ _ run ∙ disarm_lem s free

more_down : (n : ℕ) (s : SeqState) → wound_down n (wound_down 0 s) ≡ wound_down (suc n) s
unfolding wound_down
more_down n s =
    let move : (k : ℕ) → k + 1 + suc n ≡ k + suc (suc n) = λ k. omega arith in
    λ i. record s {
      timer1_it = record s.timer1_it { it_interval = 0 };
      timer1 = record s.timer1_it { it_interval = 0 };
      sem_writeout = move s.sem_writeout i;
      sem_processing = move s.sem_processing i;
      sem_framegrab = move s.sem_framegrab i;
      sem_teardown = move s.sem_teardown i;
    }

stopped :
    (n : ℕ) (s : SeqState)
    → s.running ≡ false
    → s.freeze_system ≡ false
    → ticks (suc n) s ≡ some (wound_down n s)
stopped zero s run free = ticks_on zero s (one_stop s run free) ∙ unfold ticks in refl
stopped (suc n) s run free =
    ticks_on (suc n) s (one_stop s run free)
    ∙ stopped n (wound_down 0 s) (unfold wound_down in run) (unfold wound_down in free)
    ∙ ap some (more_down n s)

-- The handler meant to disarm the timer sets its period to 0 and leaves the time to the first
-- expiration: after any number of ticks of a system stopped by Ctrl-C the timer is still armed with
-- the 10 ms that it was installed with, and each tick has posted all four semaphores once more.
pub ticks-wound_down :
    (n : ℕ) (s : SeqState)
    → s.freeze_system ≡ false
    → s.timer1_it ≡ timer_start
    → (s' : SeqState) × (ticks (suc n) (ctrl_c s) ≡ some s')
      × (s'.timer1 ≡ record { it_interval = 0; it_value = 10_000_000 })
      × (s'.sem_teardown ≡ s.sem_teardown + suc n)
      × (s'.sem_framegrab ≡ s.sem_framegrab + suc n)
      × (s'.sem_writeout ≡ s.sem_writeout + suc n)
      × (s'.sem_processing ≡ s.sem_processing + suc n)
unfolding ctrl_c wound_down timer_start
ticks-wound_down n s free e = (
  wound_down n (ctrl_c s),
  stopped n (ctrl_c s) refl free,
  (λ i. record (e i) { it_interval = 0 }),
  refl,
  refl,
  refl,
  refl,
)
