-- ===== src/Feasibility/Agree.antt =====
-- The completion time test and the scheduling point test say the same.
use synchronome.Base.{
  or_left, or_right, and_cases, and_both, ==_iff, ℕ, ◌+◌, ◌%◌, ◌^◌, ◌≤◌, ◌<◌, ◌≡◌, ◌↔◌, refl, sym,
  ap, subst, ◌∙◌, List, [], ◌∷◌, ◌++◌, leb, le→leb, leb→le, arith, Bool, true, false, ◌==◌, Option,
  some, none,
}
use mathlib.Core.Option
use native.Mathlib.Nat.{mod-eq_of_lt, mod_self}
use synchronome.Feasibility.{
  Service, Response, settled, overflow, exhausted, demand, total_wcet, settle, meets,
  completion_from, completion_time_feasibility, any_service, points_from,
  scheduling_point_feasibility,
}
use synchronome.Feasibility.Demand.{
  Positive, Positive-append, demand-append, total_wcet-demand, is_release,
}
use synchronome.Feasibility.Completion.{settle-settled, settle-fixed}
use synchronome.Feasibility.Points.{Met, any_service-Met, Met-any_service}

-- Each service after some others has a positive period below the fuel and 2^31, a positive run time,
-- and up to its deadline a demand, with those before it, that 32 bits hold.
unfoldable pub InRange : ℕ → List Service → List Service → Type 0
InRange fuel higher [] = Unit
InRange fuel higher (s ∷ rest) =
    (0 < s.period)
    × (0 < s.wcet)
    × (s.period < 2 ^ 31)
    × (s.period < fuel)
    × (demand (higher ++ (s ∷ [])) s.period < 2 ^ 32)
    × InRange fuel (higher ++ (s ∷ [])) rest

own_release :
    (higher : List Service) (s : Service) → is_release (higher ++ (s ∷ [])) s.period ≡ true
unfolding is_release
own_release [] s =
    or_left (s.period % s.period == 0) false
      ((==_iff (s.period % s.period) 0).1 (mod_self s.period))
own_release (x ∷ higher) s =
    or_right (s.period % x.period == 0) (is_release (higher ++ (s ∷ [])) s.period)
      (own_release higher s)

meets-true :
    (r : Response) (d : ℕ) (later : Option Bool)
    → meets r d later ≡ some true
    → (an : ℕ) × (r ≡ settled an) × (an ≤ d) × (later ≡ some true)
unfolding meets
meets-true (settled an) d (some b) e =
    let (fit, rest) = and_cases (leb an d) b (Option.some-injective _ _ e) in
    (an, refl, leb→le an d fit, ap some rest)
meets-true (settled an) d none e = cc
meets-true overflow d later e = cc
meets-true exhausted d later e = cc

meets_ok : (r d : ℕ) → r ≤ d → meets (settled r) d (some true) ≡ some true
unfolding meets
meets_ok r d h = ap some (and_both (leb r d) true (le→leb r d h) refl)

module _ (fuel : ℕ) where
  points-completion :
      (higher ss : List Service)
      → Positive higher
      → InRange fuel higher ss
      → completion_from fuel higher ss ≡ some true
      → points_from higher ss ≡ true
  unfolding completion_from points_from InRange
  points-completion higher [] pos range e = refl
  points-completion higher (s ∷ rest) pos (hp, hc, _, _, room, range) e =
      let upto = higher ++ (s ∷ []) in
      let start = (total_wcet higher + s.wcet) % 2 ^ 32 in
      let (an, is, le, later) =
        meets-true (settle fuel higher s.wcet start) s.period (completion_from fuel upto rest) e in
      let fixed = settle-fixed fuel higher s.wcet start an is in
      let started : 0 < an = omega (arith, fixed, hc) in
      let pos' = Positive-append higher s pos hp hc in
      and_both (any_service upto s.period upto) (points_from upto rest)
        (any_service-Met upto s.period pos' room an started le
          (unfold Met in omega (arith, demand-append higher s an started le, fixed))
          (own_release higher s))
        (points-completion upto rest pos' range later)

  settles :
      (higher : List Service) (s : Service) (t : ℕ)
      → Positive higher
      → 0 < s.wcet
      → s.period < 2 ^ 31
      → s.period < fuel
      → 0 < t
      → t ≤ s.period
      → s.wcet + demand higher t ≤ t
      → (r : ℕ) × (settle fuel higher s.wcet ((total_wcet higher + s.wcet) % 2 ^ 32) ≡ settled r)
        × (r ≤ t)
  settles higher s t pos hc small fuelled ht hd met =
      let released = total_wcet-demand higher t pos ht in
      let begin = total_wcet higher + s.wcet in
      let whole : begin % 2 ^ 32 ≡ begin = mod-eq_of_lt (omega (arith, released, met, hd, small)) in
      subst (λ a. (r : ℕ) × (settle fuel higher s.wcet a ≡ settled r) × (r ≤ t)) (sym whole)
        (settle-settled fuel higher s.wcet begin t pos (omega (arith, hd, small)) met
          (omega (arith, released, met))
          (omega (arith, total_wcet-demand higher begin pos (omega (arith, hc))))
          (omega (arith, hd, fuelled)))

  completion-points :
      (higher ss : List Service)
      → Positive higher
      → InRange fuel higher ss
      → points_from higher ss ≡ true
      → completion_from fuel higher ss ≡ some true
  unfolding completion_from points_from InRange
  completion-points higher [] pos range e = refl
  completion-points higher (s ∷ rest) pos (hp, hc, small, fuelled, room, range) e =
      let upto = higher ++ (s ∷ []) in
      let (found, later) = and_cases (any_service upto s.period upto) (points_from upto rest) e in
      let pos' = Positive-append higher s pos hp hc in
      let (t, ht, hd, met) = Met-any_service upto s.period pos' room found in
      let met' : s.wcet + demand higher t ≤ t =
        subst (λ n. n ≤ t) (demand-append higher s t ht hd) (unfold Met in met) in
      let (r, is, rt) = settles higher s t pos hc small fuelled ht hd met' in
      ap (λ x. meets x s.period (completion_from fuel upto rest)) is
      ∙ ap (meets (settled r) s.period) (completion-points upto rest pos' range later)
      ∙ meets_ok r s.period (omega (arith, rt, hd))

-- On services whose periods are positive and below 2^31, whose run times are positive and whose
-- demands up to their deadlines fit 32 bits, and with more fuel than the longest period, the
-- completion time test finds the set feasible exactly when the scheduling point test does. In
-- particular its loops end on every set that the scheduling points find feasible.
pub completion_time_feasibility-scheduling_point_feasibility :
    (fuel : ℕ) (services : List Service)
    → InRange fuel [] services
    → (completion_time_feasibility fuel services ≡ some true)
      ↔ (scheduling_point_feasibility services ≡ true)
unfolding completion_time_feasibility scheduling_point_feasibility
completion_time_feasibility-scheduling_point_feasibility fuel services range = (
  points-completion fuel [] services (unfold Positive in tt) range,
  completion-points fuel [] services (unfold Positive in tt) range,
)
