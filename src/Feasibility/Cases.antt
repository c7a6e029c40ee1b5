-- ===== src/Feasibility/Cases.antt =====
-- feasibility/tests.c and tests.h: the test cases.
use synchronome.Base.{ℕ, zero, suc, List, [], ◌∷◌, Option, none, some}
use synchronome.Feasibility.{Service}

-- `s_test_case`
pub record TestCase : Type 0 where
  pub num_services : ℕ
  pub periods : List ℕ
  pub wcets : List ℕ

abbrev pub num_test_cases : ℕ
num_test_cases = 20

-- The first services of a case: `none` where an array is too short.
pub services_of : ℕ → List ℕ → List ℕ → Option (List Service)
services_of zero periods wcets = some []
services_of (suc n) (p ∷ ps) (c ∷ cs) = elim (services_of n ps cs) [
  | none ↦ none
  | some rest ↦ some (record { period = p; wcet = c } ∷ rest)
]
services_of (suc n) _ _ = none

abbrev pub test_cases : List TestCase
test_cases =
    record { num_services = 3; periods = 2 ∷ 10 ∷ 15 ∷ []; wcets = 1 ∷ 1 ∷ 2 ∷ [] }
    ∷ record { num_services = 3; periods = 2 ∷ 5 ∷ 7 ∷ []; wcets = 1 ∷ 1 ∷ 2 ∷ [] }
    ∷ record { num_services = 4; periods = 2 ∷ 5 ∷ 7 ∷ 13 ∷ []; wcets = 1 ∷ 1 ∷ 1 ∷ 2 ∷ [] }
    ∷ record { num_services = 3; periods = 3 ∷ 5 ∷ 15 ∷ []; wcets = 1 ∷ 2 ∷ 3 ∷ [] }
    ∷ record { num_services = 3; periods = 2 ∷ 4 ∷ 16 ∷ []; wcets = 1 ∷ 1 ∷ 4 ∷ [] }
    ∷ record { num_services = 3; periods = 2 ∷ 5 ∷ 10 ∷ []; wcets = 1 ∷ 2 ∷ 1 ∷ [] }
    ∷ record { num_services = 4; periods = 2 ∷ 5 ∷ 7 ∷ 13 ∷ []; wcets = 1 ∷ 1 ∷ 1 ∷ 2 ∷ [] }
    ∷ record { num_services = 3; periods = 3 ∷ 5 ∷ 15 ∷ []; wcets = 1 ∷ 2 ∷ 4 ∷ [] }
    ∷ record { num_services = 4; periods = 2 ∷ 5 ∷ 7 ∷ 13 ∷ []; wcets = 1 ∷ 1 ∷ 1 ∷ 2 ∷ [] }
    ∷ record { num_services = 4; periods = 6 ∷ 8 ∷ 12 ∷ 24 ∷ []; wcets = 1 ∷ 2 ∷ 4 ∷ 6 ∷ [] }
    ∷ record { num_services = 4; periods = 2 ∷ 5 ∷ 7 ∷ 14 ∷ []; wcets = 1 ∷ 1 ∷ 1 ∷ 2 ∷ [] }
    ∷ record { num_services = 3; periods = 3 ∷ 6 ∷ 9 ∷ []; wcets = 1 ∷ 2 ∷ 3 ∷ [] }
    ∷ record { num_services = 4; periods = 6 ∷ 8 ∷ 12 ∷ 24 ∷ []; wcets = 1 ∷ 2 ∷ 4 ∷ 6 ∷ [] }
    ∷ record { num_services = 4; periods = 4 ∷ 8 ∷ 12 ∷ 16 ∷ []; wcets = 1 ∷ 2 ∷ 3 ∷ 4 ∷ [] }
    ∷ record { num_services = 3; periods = 2 ∷ 5 ∷ 10 ∷ []; wcets = 1 ∷ 1 ∷ 3 ∷ [] }
    ∷ record { num_services = 3; periods = 2 ∷ 5 ∷ 10 ∷ []; wcets = 1 ∷ 2 ∷ 3 ∷ [] }
    ∷ record { num_services = 3; periods = 10 ∷ 40 ∷ 100 ∷ []; wcets = 1 ∷ 33 ∷ 72 ∷ [] }
    ∷ record { num_services = 3; periods = 10 ∷ 40 ∷ 100 ∷ []; wcets = 1 ∷ 33 ∷ 72 ∷ [] }
    ∷ record { num_services = 2; periods = 10 ∷ 40 ∷ []; wcets = 1 ∷ 33 ∷ [] }
    ∷ record { num_services = 3; periods = 10 ∷ 40 ∷ 100 ∷ []; wcets = 1 ∷ 33 ∷ 6 ∷ [] }
    ∷ []
