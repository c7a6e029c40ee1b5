-- ===== src/Schedule/Tests.antt =====
-- Twenty ticks of two services.
use mathlib.Core.Option
use synchronome.Base.{◌<◌, zero, suc, ◌≡◌, refl, subst, List, [], ◌∷◌, some, get_elem?, arith}
use synchronome.Base.Int.{pos, ◌<ℤ◌, ◌-ℤ◌}
use synchronome.Schedule.{
  Service, edf, run, tick, start, slots, service_to_run, is_running, least, expire, count_missed,
  missed, run_service, clock_tick,
}
use synchronome.Schedule.Choice.{Bounded, Picked, order, service_to_run-Picked}
use synchronome.Schedule.Period.{Ledger}
use synchronome.Schedule.Ledger.{Started, run-Balanced}

abbrev two : List Service
two =
    record { tperiod = 2; cruntime = 1; deadline = pos 2; runtime = 0 }
    ∷ record { tperiod = 5; cruntime = 2; deadline = pos 5; runtime = 0 }
    ∷ []

abbrev first : Service
first = record { tperiod = 2; cruntime = 1; deadline = pos 2; runtime = 0 }

abbrev second : Service
second = record { tperiod = 5; cruntime = 2; deadline = pos 5; runtime = 0 }

two-Started : Started two
unfolding Started
two-Started zero s at =
    subst (λ s. (0 < s.tperiod) × (s.deadline ≡ pos s.tperiod) × (s.runtime ≡ 0))
      (Option.some-injective first s at) (omega arith, refl, refl)
two-Started (suc zero) s at =
    subst (λ s. (0 < s.tperiod) × (s.deadline ≡ pos s.tperiod) × (s.runtime ≡ 0))
      (Option.some-injective second s at) (omega arith, refl, refl)
two-Started (suc (suc i)) s at = absurd (Option.none-ne-some s at)

two-Bounded : Bounded (order edf) two
unfolding Bounded
two-Bounded zero s at =
    subst (λ s. s.deadline <ℤ pos 2_147_483_647) (Option.some-injective first s at) (omega arith)
two-Bounded (suc zero) s at =
    subst (λ s. s.deadline <ℤ pos 2_147_483_647) (Option.some-injective second s at) (omega arith)
two-Bounded (suc (suc i)) s at = absurd (Option.none-ne-some s at)

service_to_run-Picked_example : Picked (order edf) two (service_to_run edf two)
service_to_run-Picked_example = service_to_run-Picked edf two two-Bounded

abbrev after_ten : Service
after_ten = record { tperiod = 5; cruntime = 2; deadline = pos 0; runtime = 2 }

no_miss : (run edf 10 (start two)).misses ≡ 0
unfolding run tick start expire count_missed missed service_to_run least is_running run_service
    clock_tick ◌-ℤ◌
no_miss = refl

second_after : get_elem? (run edf 10 (start two)).services 1 ≡ some after_ten
unfolding run tick start expire count_missed missed service_to_run least is_running run_service
    clock_tick ◌-ℤ◌
second_after = refl

run-Balanced_example : Ledger 10 (slots 1 (run edf 10 (start two)).events) after_ten
run-Balanced_example = run-Balanced edf 10 two two-Started no_miss 1 after_ten second_after
