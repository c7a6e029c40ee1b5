-- ===== src/Sequencer/Tests.antt =====
-- Six ticks from place 298 of the sequence, and three ticks after Ctrl-C.
use synchronome.Base.{◌+◌, ◌≡◌, refl, true, false, some, arith}
use synchronome.Sequencer.{SeqState, timer_start, ctrl_c}
use synchronome.Sequencer.Cadence.{ticks, ticked, ticks-ticked, ticks-wound_down}

abbrev late : SeqState
late = record {
  running = true;
  freeze_system = false;
  sequence = 298;
  timer1_it = timer_start;
  timer1 = timer_start;
  sem_writeout = 0;
  sem_processing = 0;
  sem_framegrab = 0;
  sem_teardown = 0;
}

ticks-ticked_example : ticks 6 late ≡ some (ticked 6 late)
ticks-ticked_example = ticks-ticked 6 late refl refl (omega arith)

ticks-wound_down_example :
    (s' : SeqState) × (ticks 3 (ctrl_c late) ≡ some s')
    × (s'.timer1 ≡ record { it_interval = 0; it_value = 10_000_000 })
    × (s'.sem_teardown ≡ 0 + 3)
    × (s'.sem_framegrab ≡ 0 + 3)
    × (s'.sem_writeout ≡ 0 + 3)
    × (s'.sem_processing ≡ 0 + 3)
ticks-wound_down_example = ticks-wound_down 2 late refl refl
