-- ===== src/Realtime/Tests.antt =====
-- The calls of the sequencer on a system that replies well.
use synchronome.Base.{ℕ, ◌≡◌, refl, true, none, some}
use synchronome.Buffer.{ok}
use synchronome.Realtime.{
  pthread_explicit_sched, sched_other, sched_fifo, Attr, Sched, MainReplies, AttrReplies,
  set_main_realtime, schedule_realtime, schedule_priority, schedule_best_effort,
}
use synchronome.Realtime.Linux.{default, linux}
use synchronome.Realtime.Created.{Created, schedule-Created}

abbrev fine : MainReplies linux
fine = record { setaffinity_ok = true; getparam_ok = true; setscheduler_ok = true }

abbrev attr_fine : AttrReplies linux
attr_fine = record {
  init_ok = true;
  inheritsched_ok = true;
  schedpolicy_ok = true;
  affinity_ok = true;
}

abbrev at_start : Sched
at_start = record { policy = sched_other; priority = 0; cpu = none }

abbrev main_sched : Sched
main_sched = record { policy = sched_fifo; priority = 98; cpu = some 1 }

abbrev explicit_attr : ℕ → Attr
explicit_attr p = record {
  inheritsched = pthread_explicit_sched;
  schedpolicy = sched_fifo;
  sched_priority = p;
  affinity = some 1;
}

abbrev best_effort : Attr
best_effort = record default { affinity = some 2 }

main_runs : set_main_realtime linux fine at_start ≡ (ok, main_sched)
unfolding set_main_realtime
main_runs = refl

frame_attr : schedule_realtime linux attr_fine default ≡ (ok, explicit_attr 0)
unfolding schedule_realtime
frame_attr = refl

frame_pri : schedule_priority linux true 97 (explicit_attr 0) ≡ (ok, explicit_attr 97)
unfolding schedule_priority
frame_pri = refl

other_attr : schedule_best_effort linux attr_fine 2 default ≡ (ok, best_effort)
unfolding schedule_best_effort
other_attr = refl

schedule-Created_example :
    Created linux 2
      (linux.created (explicit_attr 97) main_sched)
      (linux.created best_effort main_sched)
schedule-Created_example =
    schedule-Created linux fine attr_fine attr_fine true 2 at_start main_sched default default
      (explicit_attr 0) (explicit_attr 97) best_effort main_runs frame_attr frame_pri other_attr
