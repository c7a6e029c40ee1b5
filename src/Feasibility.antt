-- ===== src/Feasibility.antt =====
-- feasibility/feasibility_tests_updated.c: the completion time test and the scheduling point test of
-- rate monotonic analysis, on services from the highest priority to the lowest.
-- The double arithmetic is exact in the range of the model: periods are positive and below 2^31.
mod Tests
pub mod Demand
pub mod Completion
pub mod Points
pub mod Agree
pub mod Cases
use synchronome.Base.{
  ℕ, zero, suc, ◌+◌, ◌-◌, ◌*◌, ◌/◌, ◌%◌, ◌^◌, ltb, leb, ◌==◌, Bool, true, false, ◌&&◌, ◌||◌,
  if◌then◌else◌, List, [], ◌∷◌, ◌++◌, Option, none, some, map,
}

-- The entries of `period` and `wcet` for one service; the deadline is the period.
pub record Service : Type 0 where
  pub period : ℕ
  pub wcet : ℕ

-- `ceil(t / p)`
pub ceil_div : ℕ → ℕ → ℕ
ceil_div t p = (t + p - 1) / p

-- The sum of `ceil(t / period[j]) * wcet[j]`.
pub demand : List Service → ℕ → ℕ
unfolding ceil_div
demand [] t = 0
demand (s ∷ ss) t = ceil_div t s.period * s.wcet + demand ss t

pub total_wcet : List Service → ℕ
total_wcet [] = 0
total_wcet (s ∷ ss) = s.wcet + total_wcet ss

-- The `while(1)` of a service ends with `an`, with a sum that `anext` does not hold, or not within
-- the fuel.
pub data Response : Type 0 where
  settled : ℕ → Response
  overflow exhausted : Response

pub settle : ℕ → List Service → ℕ → ℕ → Response
unfolding demand
settle zero higher c an = exhausted
settle (suc fuel) higher c an =
    let anext = c + demand higher an in
    let later = settle fuel higher c anext in
    if ltb anext (2 ^ 32) then (if anext == an then settled an else later) else overflow

-- One service's response against its deadline, with the result for the services after it; `none` is
-- an overflow or fuel that ran out.
pub meets : Response → ℕ → Option Bool → Option Bool
meets (settled an) deadline (some later) = some (leb an deadline && later)
meets (settled an) deadline none = none
meets overflow deadline later = none
meets exhausted deadline later = none

pub completion_from : ℕ → List Service → List Service → Option Bool
unfolding settle total_wcet meets
completion_from fuel higher [] = some true
completion_from fuel higher (s ∷ rest) =
    let start = (total_wcet higher + s.wcet) % 2 ^ 32 in
    meets (settle fuel higher s.wcet start) s.period
      (completion_from fuel (higher ++ (s ∷ [])) rest)

pub completion_time_feasibility : ℕ → List Service → Option Bool
unfolding completion_from
completion_time_feasibility fuel services = completion_from fuel [] services

-- `temp <= num_periods * period[S]`, with `temp` wrapped to 32 bits.
pub fits : List Service → ℕ → Bool
unfolding demand
fits services t = leb (demand services t % 2 ^ 32) t

-- The loop on `num_periods`, from `num` on for a number of rounds.
pub any_period : List Service → ℕ → ℕ → ℕ → Bool
unfolding fits
any_period services period zero num = false
any_period services period (suc rounds) num =
    fits services (num * period) || any_period services period rounds (num + 1)

-- The loop on S, the service whose periods are analysed, up to S2 with its deadline.
pub any_service : List Service → ℕ → List Service → Bool
unfolding any_period
any_service services deadline [] = false
any_service services deadline (s ∷ ss) =
    any_period services s.period (deadline / s.period) 1 || any_service services deadline ss

pub points_from : List Service → List Service → Bool
unfolding any_service
points_from higher [] = true
points_from higher (s ∷ rest) =
    let upto = higher ++ (s ∷ []) in any_service upto s.period upto && points_from upto rest

pub scheduling_point_feasibility : List Service → Bool
unfolding points_from
scheduling_point_feasibility services = points_from [] services
