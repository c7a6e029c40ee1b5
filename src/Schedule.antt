-- ===== src/Schedule.antt =====
-- schedule/schedule.c: the engine that runs a set of services tick by tick under rate monotonic,
-- earliest deadline first or least laxity first scheduling.
-- An `int` stays in range: a run has twenty ticks and periods and run times are below 2^31.
mod Tests
pub mod Scan
pub mod Choice
pub mod Period
pub mod Ledger
use synchronome.Base.{
  ℕ, zero, suc, ◌+◌, ◌-◌, ◌*◌, ltb, ◌==◌, Bool, true, false, if◌then◌else◌, List, [], ◌∷◌, ◌++◌,
  map, Option, none, some, get_elem?, length, replicate,
}
use synchronome.Base.Int.{ℤ, pos, negsuc, ◌-ℤ◌, ltb_ℤ, eqb_ℤ}

-- `Service`: the period and run time, then the counters.
pub record Service : Type 0 where
  pub tperiod : ℕ
  pub cruntime : ℕ
  pub deadline : ℤ
  pub runtime : ℕ

pub data Protocol : Type 0 where
  rm edf llf : Protocol

-- LCM and TICKS
abbrev pub lcm : ℕ
lcm = 10

abbrev pub ticks : ℕ
ticks = lcm * 2

abbrev pub int_max : ℤ
int_max = pos 2_147_483_647

-- The state of the engine: `events[t]` for the ticks so far, with `none` for -1, and the rows of
-- `STATS_buf`.
pub record Engine : Type 0 where
  pub services : List Service
  pub misses : ℕ
  pub events : List (Option ℕ)
  pub stats : List (List ℤ)

-- A service with a period and a run time before the first tick.
pub start_service : ℕ → ℕ → Service
start_service period wcet = record {
  tperiod = period;
  cruntime = wcet;
  deadline = pos period;
  runtime = 0;
}

-- Whether the service misses, when its deadline has come.
pub missed : Service → Bool
missed s =
    if eqb_ℤ s.deadline (pos 0) then (if s.runtime == s.cruntime then false else true) else false

-- The deadline expiration of one service.
pub expire : Service → Service
expire s =
    if eqb_ℤ s.deadline (pos 0) then record s { deadline = pos s.tperiod; runtime = 0 } else s

pub count_missed : List Service → ℕ
unfolding missed
count_missed [] = 0
count_missed (s ∷ ss) = let later = count_missed ss in if missed s then suc later else later

pub is_running : Service → Bool
is_running s = ltb s.runtime s.cruntime

pub laxity : Service → ℤ
laxity s = s.deadline -ℤ (pos s.cruntime -ℤ pos s.runtime)

-- RM: the first service that still needs runtime.
pub first_running : List Service → ℕ → Option ℕ
unfolding is_running
first_running [] i = none
first_running (s ∷ ss) i =
    let later = first_running ss (i + 1) in if is_running s then some i else later

-- EDF and LLF: the loop that keeps the least key so far and its service.
pub least : (Service → ℤ) → List Service → ℕ → ℤ → Option ℕ → Option ℕ
unfolding is_running
least key [] i best chosen = chosen
least key (s ∷ ss) i best chosen =
    let taken = least key ss (i + 1) (key s) (some i) in
    let passed = least key ss (i + 1) best chosen in
    if is_running s then (if ltb_ℤ (key s) best then taken else passed) else passed

pub service_to_run : Protocol → List Service → Option ℕ
unfolding first_running least laxity
service_to_run rm ss = first_running ss 0
service_to_run edf ss = least (λ s. s.deadline) ss 0 int_max none
service_to_run llf ss = least laxity ss 0 int_max none

-- A row of `STATS_buf`, of which RM writes nothing.
stats_row : Protocol → List Service → List ℤ
unfolding is_running laxity
stats_row rm ss = map (λ s. pos 0) ss
stats_row edf ss = map (λ s. if is_running s then s.deadline else negsuc 0) ss
stats_row llf ss = map (λ s. if is_running s then laxity s else negsuc 0) ss

-- `services[serviceToRun].Runtime++`
pub run_service : Option ℕ → List Service → List Service
run_service none ss = ss
run_service (some i) [] = []
run_service (some zero) (s ∷ ss) = record s { runtime = s.runtime + 1 } ∷ ss
run_service (some (suc i)) (s ∷ ss) = s ∷ run_service (some i) ss

pub clock_tick : Service → Service
clock_tick s = record s { deadline = s.deadline -ℤ pos 1 }

-- One round of the engine's loop.
pub tick : Protocol → Engine → Engine
unfolding expire count_missed service_to_run stats_row run_service clock_tick
tick protocol e =
    let ready = map expire e.services in
    let chosen = service_to_run protocol ready in
    record {
      services = map clock_tick (run_service chosen ready);
      misses = e.misses + count_missed e.services;
      events = e.events ++ (chosen ∷ []);
      stats = e.stats ++ (stats_row protocol ready ∷ []);
    }

pub run : Protocol → ℕ → Engine → Engine
unfolding tick
run protocol zero e = e
run protocol (suc n) e = tick protocol (run protocol n e)

-- The engine at the start.
pub start : List Service → Engine
start services = record { services = services; misses = 0; events = []; stats = [] }

-- The statistics: the ticks with no service, and those of one service.
pub cpu_slack : List (Option ℕ) → ℕ
cpu_slack [] = 0
cpu_slack (none ∷ es) = suc (cpu_slack es)
cpu_slack (some i ∷ es) = cpu_slack es

pub slots : ℕ → List (Option ℕ) → ℕ
slots s [] = 0
slots s (none ∷ es) = slots s es
slots s (some i ∷ es) = let later = slots s es in if i == s then suc later else later

-- The count of a service starts from what malloc(3) left in the entry, which nothing clears.
pub cpu_usage : ℕ → ℕ → List (Option ℕ) → ℕ
unfolding slots
cpu_usage found s es = found + slots s es
