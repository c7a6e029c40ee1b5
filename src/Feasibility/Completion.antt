-- ===== src/Feasibility/Completion.antt =====
-- The response time of one service: the loop of the completion time test.
use synchronome.Base.{
  ℕ, zero, suc, ◌+◌, ◌^◌, ◌≤◌, ◌<◌, ◌≡◌, ◌≢◌, sym, subst, ◌∙◌, List, ltb, ◌==◌, ==_iff, lt→ltb,
  arith, true, false, Bool-cases, inl, inr, if_then, if_else,
}
use synchronome.Feasibility.{Service, settled, overflow, exhausted, demand, settle}
use synchronome.Feasibility.Demand.{Positive, demand_mono}

module _ (fuel : ℕ) (higher : List Service) (c an : ℕ) where
  settle_stop :
      ltb (c + demand higher an) (2 ^ 32) ≡ true
      → ((c + demand higher an) == an) ≡ true
      → settle (suc fuel) higher c an ≡ settled an
  unfolding settle
  settle_stop fine e = if_then _ _ fine ∙ if_then _ _ e

  settle_climb :
      ltb (c + demand higher an) (2 ^ 32) ≡ true
      → ((c + demand higher an) == an) ≡ false
      → settle (suc fuel) higher c an ≡ settle fuel higher c (c + demand higher an)
  unfolding settle
  settle_climb fine e = if_then _ _ fine ∙ if_else _ _ e

  settle_big :
      ltb (c + demand higher an) (2 ^ 32) ≡ false → settle (suc fuel) higher c an ≡ overflow
  unfolding settle
  settle_big big = if_else _ _ big

-- Below a time at which the demand is met the loop climbs to a fixed point that is no later.
pub settle-settled :
    (fuel : ℕ) (higher : List Service) (c an t : ℕ)
    → Positive higher
    → t < 2 ^ 32
    → c + demand higher t ≤ t
    → an ≤ t
    → an ≤ c + demand higher an
    → t < fuel + an
    → (r : ℕ) × (settle fuel higher c an ≡ settled r) × (r ≤ t)
settle-settled zero higher c an t pos ht met le up more = absurd (omega (arith, le, more))
settle-settled (suc fuel) higher c an t pos ht met le up more =
    let anext = c + demand higher an in
    let below : anext ≤ t = omega (arith, demand_mono higher an t pos le, met) in
    let fine : ltb anext (2 ^ 32) ≡ true = lt→ltb anext (2 ^ 32) (omega (arith, below, ht)) in
    elim (Bool-cases (anext == an)) [
      | inl e ↦ (an, settle_stop fuel higher c an fine e, le)
      | inr e ↦
          let climb : an < anext = ground (arith, e, up) in
          let (r, is, rt) =
            settle-settled fuel higher c anext t pos ht met below
              (omega (arith, demand_mono higher an anext pos (omega (arith, climb))))
              (omega (arith, climb, more)) in
          (r, settle_climb fuel higher c an fine e ∙ is, rt)
    ]

settled_inj : {a b : ℕ} → settled a ≡ settled b → a ≡ b
settled_inj e = cc

exhausted-ne_settled : {a : ℕ} → exhausted ≢ settled a
exhausted-ne_settled e = cc

overflow-ne_settled : {a : ℕ} → overflow ≢ settled a
overflow-ne_settled e = cc

-- What the loop settles at is a fixed point.
pub settle-fixed :
    (fuel : ℕ) (higher : List Service) (c an r : ℕ)
    → settle fuel higher c an ≡ settled r
    → c + demand higher r ≡ r
settle-fixed zero higher c an r e = absurd (exhausted-ne_settled {a = r} (unfold settle in e))
settle-fixed (suc fuel) higher c an r e =
    let anext = c + demand higher an in
    elim (Bool-cases (ltb anext (2 ^ 32))) [
      | inl fine ↦ elim (Bool-cases (anext == an)) [
        | inl same ↦
            let it : an ≡ r = settled_inj (sym (settle_stop fuel higher c an fine same) ∙ e) in
            subst (λ a. c + demand higher a ≡ a) it ((==_iff anext an).0 same)
        | inr other ↦
            settle-fixed fuel higher c anext r (sym (settle_climb fuel higher c an fine other) ∙ e)
      ]
      | inr big ↦ absurd (overflow-ne_settled (sym (settle_big fuel higher c an big) ∙ e))
    ]
