-- ===== src/Feasibility/Demand.antt =====
-- How the demand of services grows with time.
use synchronome.Base.{
  ℕ, ◌+◌, ◌-◌, ◌*◌, ◌/◌, ◌%◌, ◌≤◌, ◌<◌, ◌≡◌, ◌≢◌, refl, sym, ap, ◌∙◌, List, [], ◌∷◌, ◌++◌, arith,
  Bool, true, false, ◌||◌, ◌==◌,
}
use native.Mathlib.Nat.{
  div-eq_of_lt-le, le-div_iff_mul-le, div-mul-le_self, mul-le-mul_right, div-add-mod, mod-lt,
}
use synchronome.Feasibility.{Service, ceil_div, demand, total_wcet}

-- Every service has a positive period and a positive run time.
unfoldable pub Positive : List Service → Type 0
Positive [] = Unit
Positive (s ∷ ss) = (0 < s.period) × (0 < s.wcet) × Positive ss

pub Positive-append :
    (ss : List Service) (s : Service)
    → Positive ss
    → 0 < s.period
    → 0 < s.wcet
    → Positive (ss ++ (s ∷ []))
unfolding Positive
Positive-append [] s p hp hc = (hp, hc, tt)
Positive-append (x ∷ ss) s (a, b, p) hp hc = (a, b, Positive-append ss s p hp hc)

div_mono : (n m k : ℕ) → 0 < k → n ≤ m → n / k ≤ m / k
div_mono n m k hk h = (le-div_iff_mul-le hk).1 (omega (arith, h, div-mul-le_self n k))

ceil_div_mono : (t t' p : ℕ) → 0 < p → t ≤ t' → ceil_div t p ≤ ceil_div t' p
unfolding ceil_div
ceil_div_mono t t' p hp h = div_mono (t + p - 1) (t' + p - 1) p hp (omega (arith, h))

ceil_div_one : (t p : ℕ) → 0 < t → t ≤ p → ceil_div t p ≡ 1
unfolding ceil_div
ceil_div_one t p ht hp = div-eq_of_lt-le p (omega (arith, ht)) (omega (arith, ht, hp))

next_block : (t p q r : ℕ) → p * q + r ≡ t → 0 < r → r < p → (t + 1 + p - 1) / p ≡ (t + p - 1) / p
next_block t p q r e hr hp =
    let double : (q + 1) * p ≡ p * q + p = grind arith in
    let triple : (q + 1 + 1) * p ≡ p * q + p + p = grind arith in
    let upper : (t + 1 + p - 1) / p ≡ q + 1 =
      div-eq_of_lt-le p (omega (arith, double, e, hr, hp)) (omega (arith, triple, e, hr, hp)) in
    let lower : (t + p - 1) / p ≡ q + 1 =
      div-eq_of_lt-le p (omega (arith, double, e, hr, hp)) (omega (arith, triple, e, hr, hp)) in
    upper ∙ sym lower

-- Between two multiples of the period the ceiling stays.
ceil_div-between : (t p : ℕ) → 0 < p → t % p ≢ 0 → ceil_div (t + 1) p ≡ ceil_div t p
unfolding ceil_div
ceil_div-between t p hp ne =
    next_block t p (t / p) (t % p) (div-add-mod t p) (omega (arith, ne)) (mod-lt t hp)

pub demand_mono : (ss : List Service) (t t' : ℕ) → Positive ss → t ≤ t' → demand ss t ≤ demand ss t'
unfolding demand Positive
demand_mono [] t t' pos h = omega arith
demand_mono (s ∷ ss) t t' (hp, _, pos) h =
    omega
      (arith, mul-le-mul_right s.wcet (ceil_div_mono t t' s.period hp h), demand_mono ss t t' pos h)

pub demand-append :
    (ss : List Service) (s : Service) (t : ℕ)
    → 0 < t
    → t ≤ s.period
    → demand (ss ++ (s ∷ [])) t ≡ s.wcet + demand ss t
unfolding demand
demand-append [] s t ht hp = ap (λ k. k * s.wcet + 0) (ceil_div_one t s.period ht hp) ∙ omega arith
demand-append (x ∷ ss) s t ht hp = omega (arith, demand-append ss s t ht hp)

ceil_div_pos : (t p : ℕ) → 0 < p → 0 < t → 1 ≤ ceil_div t p
unfolding ceil_div
ceil_div_pos t p hp ht = (le-div_iff_mul-le hp).1 (omega (arith, ht))

-- At any time after the start every service has been released once.
pub total_wcet-demand :
    (ss : List Service) (t : ℕ) → Positive ss → 0 < t → total_wcet ss ≤ demand ss t
unfolding demand Positive total_wcet
total_wcet-demand [] t pos ht = omega arith
total_wcet-demand (s ∷ ss) t (hp, _, pos) ht =
    omega (
      arith,
      mul-le-mul_right s.wcet (ceil_div_pos t s.period hp ht),
      total_wcet-demand ss t pos ht,
    )

-- Whether a time is a multiple of some service's period.
unfoldable pub is_release : List Service → ℕ → Bool
is_release [] t = false
is_release (s ∷ ss) t = (t % s.period == 0) || is_release ss t

or_false : (a b : Bool) → (a || b) ≡ false → (a ≡ false) × (b ≡ false)
or_false false false h = (refl, refl)
or_false false true h = (refl, h)
or_false true b h = cc

nonzero : (n : ℕ) → (n == 0) ≡ false → n ≢ 0
nonzero n h = ground (arith, h)

-- Where no service is released the demand stays.
pub demand-between :
    (ss : List Service) (t : ℕ)
    → Positive ss
    → is_release ss t ≡ false
    → demand ss (t + 1) ≡ demand ss t
unfolding demand Positive is_release
demand-between [] t pos h = refl
demand-between (s ∷ ss) t (hp, _, pos) h =
    let (here, later) = or_false (t % s.period == 0) (is_release ss t) h in
    omega (
      arith,
      ap (λ k. k * s.wcet) (ceil_div-between t s.period hp (nonzero (t % s.period) here)),
      demand-between ss t pos later,
    )
