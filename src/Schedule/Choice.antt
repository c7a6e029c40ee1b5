-- ===== src/Schedule/Choice.antt =====
-- Which service a tick runs.
use synchronome.Base.{
  ℕ, ◌+◌, ◌≡◌, refl, sym, ap, subst, ◌∙◌, true, false, Bool-cases, List, [], ◌∷◌, Option, none,
  some, get_elem?, arith, inl, inr, if_then, if_else,
}
use synchronome.Base.Int.{ℤ, pos, ◌<ℤ◌, ◌+ℤ◌, ◌-ℤ◌, int_laws, eq_of_parts}
use synchronome.Schedule.{
  Service, Protocol, rm, edf, llf, int_max, is_running, laxity, first_running, least,
  service_to_run,
}
use mathlib.Core.Option
use synchronome.Schedule.Scan.{Least, AllAtLeast, Scanned, least-Scanned}

-- What a protocol orders the services by: rate monotonic scheduling takes the first that needs runtime.
abbrev pub order : Protocol → Service → ℤ
order rm s = pos 0
order edf s = s.deadline
order llf s = s.deadline +ℤ pos s.runtime -ℤ pos s.cruntime

-- The laxity is the deadline less the run time that is left.
laxity_lem : (s : Service) → laxity s ≡ order llf s
unfolding laxity
laxity_lem s = eq_of_parts _ _ (omega int_laws)

by_laxity : laxity ≡ order llf
by_laxity = λ i s. laxity_lem s i

-- What a tick may run: nothing, when no service needs runtime, or the least such service.
unfoldable pub Picked : (Service → ℤ) → List Service → Option ℕ → Type 0
Picked key ss none = (j : ℕ) (s : Service) → get_elem? ss j ≡ some s → is_running s ≡ false
Picked key ss (some i) = Least key ss int_max i

-- Every key is below INT_MAX.
unfoldable pub Bounded : (Service → ℤ) → List Service → Type 0
Bounded key ss = (j : ℕ) (s : Service) → get_elem? ss j ≡ some s → key s <ℤ int_max

Scanned-Picked :
    (key : Service → ℤ) (ss : List Service) (r : Option ℕ)
    → Bounded key ss
    → Scanned key ss 0 int_max none r
    → Picked key ss r
unfolding Scanned AllAtLeast Bounded
Scanned-Picked key ss r bound (inl (e, all)) = subst (Picked key ss) (sym e) (
    unfold Picked in
    λ j s at. elim (Bool-cases (is_running s)) [
      | inl go ↦ absurd (omega (arith, all j s at go, bound j s at))
      | inr idle ↦ idle
    ])
Scanned-Picked key ss r bound (inr (i, e, found)) =
    let place : r ≡ some i = e ∙ ap some (omega arith) in
    subst (Picked key ss) (sym place) (unfold Picked in found)

kept_on :
    (s : Service) (ss : List Service) (i : ℕ) (chosen : Option ℕ)
    → least (λ s. pos 0) ss (i + 1) (pos 0) chosen ≡ chosen
    → least (λ s. pos 0) (s ∷ ss) i (pos 0) chosen ≡ chosen
unfolding least
kept_on s ss i chosen h = elim (Bool-cases (is_running s)) [
  | inl run ↦ if_then _ _ run ∙ h
  | inr idle ↦ if_else _ _ idle ∙ h
]

-- With equal keys the first one taken stays.
kept :
    (ss : List Service) (i : ℕ) (chosen : Option ℕ)
    → least (λ s. pos 0) ss i (pos 0) chosen ≡ chosen
kept [] i chosen = unfold least in refl
kept (s ∷ ss) i chosen = kept_on s ss i chosen (kept ss (i + 1) chosen)

first_on :
    (s : Service) (ss : List Service) (i : ℕ)
    → first_running ss (i + 1) ≡ least (λ s. pos 0) ss (i + 1) int_max none
    → first_running (s ∷ ss) i ≡ least (λ s. pos 0) (s ∷ ss) i int_max none
unfolding least first_running
first_on s ss i h = elim (Bool-cases (is_running s)) [
  | inl run ↦ if_then _ _ run ∙ sym (kept ss (i + 1) (some i)) ∙ sym (if_then _ _ run)
  | inr idle ↦ if_else _ _ idle ∙ h ∙ sym (if_else _ _ idle)
]

first_running-least :
    (ss : List Service) (i : ℕ) → first_running ss i ≡ least (λ s. pos 0) ss i int_max none
first_running-least [] i = unfold least first_running in refl
first_running-least (s ∷ ss) i = first_on s ss i (first_running-least ss (i + 1))

-- With every deadline and laxity below INT_MAX, the service a tick runs still needs runtime and comes
-- first: RM takes the first such service in the list, EDF the one with the least deadline and LLF
-- the one whose deadline less the run time it still needs is least, the earliest in the list where they are equal; and a tick is idle
-- only when no service needs runtime.
pub service_to_run-Picked :
    (protocol : Protocol) (ss : List Service)
    → Bounded (order protocol) ss
    → Picked (order protocol) ss (service_to_run protocol ss)
unfolding service_to_run
service_to_run-Picked rm ss bound =
    subst (Picked (order rm) ss) (sym (first_running-least ss 0))
      (Scanned-Picked (order rm) ss _ bound (least-Scanned (order rm) ss 0 int_max none))
service_to_run-Picked edf ss bound =
    Scanned-Picked (order edf) ss _ bound (least-Scanned (order edf) ss 0 int_max none)
service_to_run-Picked llf ss bound =
    subst (λ key. Picked key ss (least laxity ss 0 int_max none)) by_laxity
      (Scanned-Picked laxity ss _ (subst (λ key. Bounded key ss) (sym by_laxity) bound)
        (least-Scanned laxity ss 0 int_max none))

Scanned-runs :
    (key : Service → ℤ) (ss : List Service) (r : Option ℕ)
    → Scanned key ss 0 int_max none r
    → (i : ℕ) → r ≡ some i
    → (t : Service) × (get_elem? ss i ≡ some t) × (is_running t ≡ true)
unfolding Scanned Least
Scanned-runs key ss r (inl (e, _)) i is = absurd (Option.none-ne-some i (sym e ∙ is))
Scanned-runs key ss r (inr (j, e, (t, at, go, _, _))) i is =
    let place : 0 + j ≡ i = Option.some-injective _ _ (sym e ∙ is) in
    let same : j ≡ i = omega (arith, place) in (t, subst (λ k. get_elem? ss k ≡ some t) same at, go)

-- What a tick runs needs runtime.
pub service_to_run-is_running :
    (protocol : Protocol) (ss : List Service) (i : ℕ)
    → service_to_run protocol ss ≡ some i
    → (t : Service) × (get_elem? ss i ≡ some t) × (is_running t ≡ true)
unfolding service_to_run
service_to_run-is_running rm ss i e =
    Scanned-runs (order rm) ss _ (least-Scanned (order rm) ss 0 int_max none) i
      (sym (first_running-least ss 0) ∙ e)
service_to_run-is_running edf ss i e =
    Scanned-runs (order edf) ss _ (least-Scanned (order edf) ss 0 int_max none) i e
service_to_run-is_running llf ss i e =
    Scanned-runs laxity ss _ (least-Scanned laxity ss 0 int_max none) i e
