-- ===== src/Feasibility/Tests.antt =====
-- The two tests on a set that uses the processor in full.
use synchronome.Base.{ℕ, ◌↔◌, ◌≡◌, refl, true, List, [], ◌∷◌, some, arith}
use synchronome.Feasibility.{
  Service, demand, completion_time_feasibility, scheduling_point_feasibility,
}
use synchronome.Feasibility.Agree.{
  InRange, completion_time_feasibility-scheduling_point_feasibility,
}

abbrev service : ℕ → ℕ → Service
service t c = record { period = t; wcet = c }

abbrev harmonic : List Service
harmonic = service 2 1 ∷ service 4 1 ∷ service 16 4 ∷ []

harmonic-InRange : InRange 17 [] harmonic
unfolding InRange demand synchronome.Feasibility.ceil_div
harmonic-InRange = (
  omega arith,
  omega arith,
  omega arith,
  omega arith,
  omega arith,
  (
    omega arith,
    omega arith,
    omega arith,
    omega arith,
    omega arith,
    (omega arith, omega arith, omega arith, omega arith, omega arith, tt),
  ),
)

completion_time_feasibility-scheduling_point_feasibility_example :
    (completion_time_feasibility 17 harmonic ≡ some true)
    ↔ (scheduling_point_feasibility harmonic ≡ true)
completion_time_feasibility-scheduling_point_feasibility_example =
    completion_time_feasibility-scheduling_point_feasibility 17 harmonic harmonic-InRange

-- The set is feasible.
harmonic_feasible : scheduling_point_feasibility harmonic ≡ true
unfolding scheduling_point_feasibility synchronome.Feasibility.points_from
harmonic_feasible = refl
