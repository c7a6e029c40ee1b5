-- ===== src/Sequencer.antt =====
-- simple-capture/sequencer.c: the handler of the sequencer's timer signal and the handlers that stop
-- the system. A semaphore is the number of its posts not yet taken.
mod Tests
pub mod Cadence
pub mod Main
use synchronome.Base.{
  ℕ, zero, suc, ◌+◌, ◌%◌, Bool, true, false, ◌==◌, if◌then◌else◌, Option, none, some,
}
use synchronome.Timetools.{Timespec}

-- A timer of timer_create(2) as timer_settime sets it: the time to the first expiration and the
-- period, in nanoseconds. It is disarmed exactly when the first is 0, and a period of 0 makes it
-- expire once.
pub record Itimerspec : Type 0 where
  pub it_interval : ℕ
  pub it_value : ℕ

pub record SeqState : Type 0 where
  pub running : Bool
  pub freeze_system : Bool
  pub sequence : ℕ
  pub timer1_it : Itimerspec
  pub timer1 : Itimerspec
  pub sem_writeout : ℕ
  pub sem_processing : ℕ
  pub sem_framegrab : ℕ
  pub sem_teardown : ℕ

-- What `main` sets the timer to.
pub timer_start : Itimerspec
timer_start = record { it_interval = 10_000_000; it_value = 10_000_000 }

-- `main` arms the timer with `timer1_it`; `none` is the exit on an error.
pub install_timer : Bool → SeqState → Option SeqState
unfolding timer_start
install_timer true s = some (record s { timer1_it = timer_start; timer1 = timer_start })
install_timer false s = none

pub best_effort : SeqState → SeqState
best_effort s = record s {
  sem_writeout = s.sem_writeout + 1;
  sem_processing = s.sem_processing + 1;
}

pub tick_framegrab : SeqState → SeqState
tick_framegrab s =
    if s.sequence % 4 == 0 then record s { sem_framegrab = s.sem_framegrab + 1 } else s

pub advance_sequence : SeqState → SeqState
advance_sequence s = let n = s.sequence + 1 in record s { sequence = if n == 300 then 0 else n }

-- The disarming of the timer and the posts that unblock the others.
pub unblock : SeqState → SeqState
unblock s =
    if s.freeze_system
    then s
    else record s { sem_framegrab = s.sem_framegrab + 1; sem_teardown = s.sem_teardown + 1 }

pub disarm : Bool → SeqState → Option SeqState
unfolding unblock
disarm settime_ok s =
    let it = record s.timer1_it { it_interval = 0 } in
    if settime_ok then some (unblock (record s { timer1_it = it; timer1 = it })) else none

-- The handler, with whether timer_settime(2) succeeds; `none` is the exit on an error.
pub sequencer : Bool → SeqState → Option SeqState
unfolding best_effort tick_framegrab advance_sequence disarm
sequencer settime_ok s =
    let s1 = best_effort s in
    if s.running
    then (if s.freeze_system
        then disarm settime_ok s1
        else some (advance_sequence (tick_framegrab s1)))
    else disarm settime_ok s1

pub ctrl_c : SeqState → SeqState
ctrl_c s = record s { running = false }
