-- ===== src/Feasibility/Points.antt =====
-- The scheduling points: where the search of the scheduling point test finds a time, and why the
-- points are enough.
use synchronome.Base.{
  or_cases, or_left, or_right, ℕ, zero, suc, ◌+◌, ◌-◌, ◌*◌, ◌/◌, ◌%◌, ◌^◌, ◌≤◌, ◌<◌, ◌≡◌, sym,
  subst, List, [], ◌∷◌, ◌==◌, ==_iff, le→leb, leb→le, arith, true, false, Bool-cases, inl, inr,
}
use native.Mathlib.Nat.{le-div_iff_mul-le, div-add-mod, mod-eq_of_lt, mul-le-mul_right}
use synchronome.Feasibility.{Service, demand, fits, any_period, any_service}
use synchronome.Feasibility.Demand.{Positive, demand_mono, is_release, demand-between}

-- A time at which the demand of the services is met.
unfoldable pub Met : List Service → ℕ → Type 0
Met services t = demand services t ≤ t

pos_factor : (n p : ℕ) → 0 < n * p → 0 < n
pos_factor zero p h = omega arith
pos_factor (suc n) p h = omega arith

module _ (services : List Service) where
  any_period-found :
      (period rounds num n : ℕ)
      → num ≤ n
      → n < num + rounds
      → fits services (n * period) ≡ true
      → any_period services period rounds num ≡ true
  unfolding any_period
  any_period-found period zero num n lo hi e = absurd (omega (arith, lo, hi))
  any_period-found period (suc rounds) num n lo hi e =
      let here = fits services (num * period) in
      let later = any_period services period rounds (num + 1) in
      elim (Bool-cases (num == n)) [
        | inl same ↦
            or_left here later
              (subst (λ k. fits services (k * period) ≡ true) (sym ((==_iff num n).0 same)) e)
        | inr other ↦ or_right here later (
            any_period-found period rounds (num + 1) n (ground (arith, other, lo))
              (omega (arith, hi)) e)
      ]

  any_period-search :
      (period rounds num : ℕ)
      → any_period services period rounds num ≡ true
      → (n : ℕ) × (num ≤ n) × (n < num + rounds) × (fits services (n * period) ≡ true)
  unfolding any_period
  any_period-search period zero num e = cc
  any_period-search period (suc rounds) num e =
      elim (or_cases (fits services (num * period)) (any_period services period rounds (num + 1))
        e) [
          | inl here ↦ (num, omega arith, omega arith, here)
          | inr later ↦
              let (n, lo, hi, fit) = any_period-search period rounds (num + 1) later in
              (n, omega (arith, lo), omega (arith, hi), fit)
        ]

  -- A release that fits is found.
  any_service-found :
      (d t : ℕ) (ss : List Service)
      → Positive ss
      → 0 < t
      → t ≤ d
      → fits services t ≡ true
      → is_release ss t ≡ true
      → any_service services d ss ≡ true
  unfolding any_service is_release Positive
  any_service-found d t [] pos ht hd fit e = e
  any_service-found d t (s ∷ ss) (hp, _, pos) ht hd fit e =
      let here = any_period services s.period (d / s.period) 1 in
      let later = any_service services d ss in
      elim (or_cases (t % s.period == 0) (is_release ss t) e) [
        | inl multiple ↦
            let n = t / s.period in
            let whole : n * s.period ≡ t =
              omega (arith, div-add-mod t s.period, (==_iff (t % s.period) 0).0 multiple) in
            let first : 0 < n = pos_factor n s.period (omega (arith, whole, ht)) in
            let last : n ≤ d / s.period = (le-div_iff_mul-le hp).1 (omega (arith, whole, hd)) in
            or_left here later (
              any_period-found s.period (d / s.period) 1 n (omega (arith, first))
                (omega (arith, last)) (subst (λ k. fits services k ≡ true) (sym whole) fit))
        | inr more ↦ or_right here later (any_service-found d t ss pos ht hd fit more)
      ]

  -- What the search finds is a time up to the deadline that fits.
  any_service-search :
      (d : ℕ) (ss : List Service)
      → Positive ss
      → any_service services d ss ≡ true
      → (t : ℕ) × (0 < t) × (t ≤ d) × (fits services t ≡ true)
  unfolding any_service Positive
  any_service-search d [] pos e = cc
  any_service-search d (s ∷ ss) (hp, _, pos) e =
      elim (or_cases (any_period services s.period (d / s.period) 1) (any_service services d ss)
        e) [
          | inl here ↦
              let (n, lo, hi, fit) = any_period-search s.period (d / s.period) 1 here in
              (
                n * s.period,
                omega (arith, mul-le-mul_right s.period lo, hp),
                (le-div_iff_mul-le hp).0 (omega (arith, hi)),
                fit,
              )
          | inr later ↦ any_service-search d ss pos later
        ]

module _ (services : List Service) (d : ℕ) (pos : Positive services)
    (room : demand services d < 2 ^ 32) where
  unwrapped : (t : ℕ) → t ≤ d → demand services t % 2 ^ 32 ≡ demand services t
  unwrapped t h = mod-eq_of_lt (omega (arith, demand_mono services t d pos h, room))

  fits-Met : (t : ℕ) → t ≤ d → fits services t ≡ true → Met services t
  unfolding fits Met
  fits-Met t h e = omega (arith, leb→le (demand services t % 2 ^ 32) t e, unwrapped t h)

  Met-fits : (t : ℕ) → t ≤ d → Met services t → fits services t ≡ true
  unfolding fits Met
  Met-fits t h m = le→leb (demand services t % 2 ^ 32) t (omega (arith, unwrapped t h, m))

  Met-later : (t : ℕ) → Met services t → is_release services t ≡ false → Met services (t + 1)
  unfolding Met
  Met-later t m quiet = omega (arith, demand-between services t pos quiet, m)

  -- From a time at which the demand is met to the next release, where it is met too.
  climb :
      (gap t : ℕ)
      → t + gap ≡ d
      → 0 < t
      → Met services t
      → is_release services d ≡ true
      → any_service services d services ≡ true
  climb zero t e ht met end =
      let there : t ≡ d = omega (arith, e) in
      any_service-found services d t services pos ht (omega (arith, e))
        (Met-fits t (omega (arith, e)) met)
        (subst (λ k. is_release services k ≡ true) (sym there) end)
  climb (suc gap) t e ht met end = elim (Bool-cases (is_release services t)) [
    | inl now ↦
        any_service-found services d t services pos ht (omega (arith, e))
          (Met-fits t (omega (arith, e)) met) now
    | inr quiet ↦ climb gap (t + 1) (omega (arith, e)) (omega arith) (Met-later t met quiet) end
  ]

  -- When the deadline is a release, a time up to the deadline that meets the demand exists exactly
  -- when the search succeeds.
  pub any_service-Met :
      (t : ℕ)
      → 0 < t
      → t ≤ d
      → Met services t
      → is_release services d ≡ true
      → any_service services d services ≡ true
  any_service-Met t ht hd met end = climb (d - t) t (omega (arith, hd)) ht met end

  pub Met-any_service :
      any_service services d services ≡ true → (t : ℕ) × (0 < t) × (t ≤ d) × Met services t
  Met-any_service e =
      let (t, ht, hd, fit) = any_service-search services d services pos e in
      (t, ht, hd, fits-Met t hd fit)
