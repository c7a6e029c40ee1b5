-- ===== src/Schedule/Scan.antt =====
-- What the loops of a tick find.
use synchronome.Base.{
  ℕ, zero, suc, ◌+◌, ◌<◌, ◌≡◌, refl, sym, ap, subst, ◌∙◌, Bool, true, false, Bool-cases, List, [],
  ◌∷◌, Option, some, get_elem?, arith, inl, inr, ◌⊎◌, if_then, if_else, tests,
}
use synchronome.Base.Int.{ℤ, ◌≤ℤ◌, ◌<ℤ◌, ltb_ℤ}
use synchronome.Schedule.{Service, is_running, least}
use mathlib.Core.Option

-- The service at a place still needs runtime and has a key below a bound; no other such service has a
-- smaller key, and every earlier one has a greater.
unfoldable pub Least : (Service → ℤ) → List Service → ℤ → ℕ → Type 0
Least key ss best i =
    (t : Service) × (get_elem? ss i ≡ some t)
    × (is_running t ≡ true)
    × (key t <ℤ best)
    × ((j : ℕ) (s : Service)
        → get_elem? ss j ≡ some s
        → is_running s ≡ true
        → (key t ≤ℤ key s) × (j < i → key t <ℤ key s))

unfoldable pub AllAtLeast : (Service → ℤ) → List Service → ℤ → Type 0
AllAtLeast key ss best =
    (j : ℕ) (s : Service) → get_elem? ss j ≡ some s → is_running s ≡ true → best ≤ℤ key s

-- What the loop may return from a place on.
unfoldable pub Scanned : (Service → ℤ) → List Service → ℕ → ℤ → Option ℕ → Option ℕ → Type 0
Scanned key ss off best chosen r =
    ((r ≡ chosen) × AllAtLeast key ss best) ⊎ ((i : ℕ) × (r ≡ some (off + i)) × Least key ss best i)

some_inj : {a b : Service} → some a ≡ some b → a ≡ b
some_inj e = Option.some-injective _ _ e

take_first :
    (key : Service → ℤ) (s : Service) (ss : List Service) (off : ℕ) (best : ℤ) (chosen r : Option ℕ)
    → is_running s ≡ true
    → key s <ℤ best
    → Scanned key ss (off + 1) (key s) (some off) r
    → Scanned key (s ∷ ss) off best chosen r
unfolding Scanned Least AllAtLeast
take_first key s ss off best chosen r run lt (inl (e, all)) =
    inr (0, e ∙ ap some (omega arith), (s, refl, run, lt, (λ j u at go. first j u at go)))
  where
    first :
        (j : ℕ) (u : Service)
        → get_elem? (s ∷ ss) j ≡ some u
        → is_running u ≡ true
        → (key s ≤ℤ key u) × (j < 0 → key s <ℤ key u)
    first zero u at go =
        (subst (λ x. key s ≤ℤ key x) (some_inj at) (omega arith), λ h. absurd (omega (arith, h)))
    first (suc j) u at go = (all j u at go, λ h. absurd (omega (arith, h)))
take_first key s ss off best chosen r run lt (inr (i, e, (t, at, go, less, others))) = inr (
  suc i,
  e ∙ ap some (omega arith),
  (t, at, go, omega (arith, less, lt), (λ j u at go. rest j u at go)),
)
  where
    rest :
        (j : ℕ) (u : Service)
        → get_elem? (s ∷ ss) j ≡ some u
        → is_running u ≡ true
        → (key t ≤ℤ key u) × (j < suc i → key t <ℤ key u)
    rest zero u at go =
        let below = subst (λ x. key t <ℤ key x) (some_inj at) less in
        (omega (arith, below), λ h. below)
    rest (suc j) u at go =
        let (le, before) = others j u at go in (le, λ h. before (omega (arith, h)))

pass_first :
    (key : Service → ℤ) (s : Service) (ss : List Service) (off : ℕ) (best : ℤ) (chosen r : Option ℕ)
    → (is_running s ≡ true → best ≤ℤ key s)
    → Scanned key ss (off + 1) best chosen r
    → Scanned key (s ∷ ss) off best chosen r
unfolding Scanned Least AllAtLeast
pass_first key s ss off best chosen r skip (inl (e, all)) = inl (e, λ j u at go. all_of j u at go)
  where
    all_of :
        (j : ℕ) (u : Service) → get_elem? (s ∷ ss) j ≡ some u → is_running u ≡ true → best ≤ℤ key u
    all_of zero u at go =
        subst (λ x. best ≤ℤ key x) (some_inj at)
          (skip (subst (λ x. is_running x ≡ true) (sym (some_inj at)) go))
    all_of (suc j) u at go = all j u at go
pass_first key s ss off best chosen r skip (inr (i, e, (t, at, go, less, others))) =
    inr (suc i, e ∙ ap some (omega arith), (t, at, go, less, (λ j u at go. rest j u at go)))
  where
    rest :
        (j : ℕ) (u : Service)
        → get_elem? (s ∷ ss) j ≡ some u
        → is_running u ≡ true
        → (key t ≤ℤ key u) × (j < suc i → key t <ℤ key u)
    rest zero u at go =
        let at_least =
          subst (λ x. best ≤ℤ key x) (some_inj at)
            (skip (subst (λ x. is_running x ≡ true) (sym (some_inj at)) go)) in
        (omega (arith, at_least, less), λ h. omega (arith, at_least, less))
    rest (suc j) u at go =
        let (le, before) = others j u at go in (le, λ h. before (omega (arith, h)))

clash : {b : Bool} → b ≡ false → b ≡ true → ⊥
clash e f = cc

step :
    (key : Service → ℤ) (s : Service) (ss : List Service) (off : ℕ) (best : ℤ) (chosen : Option ℕ)
    → Scanned key ss (off + 1) (key s) (some off) (least key ss (off + 1) (key s) (some off))
    → Scanned key ss (off + 1) best chosen (least key ss (off + 1) best chosen)
    → Scanned key (s ∷ ss) off best chosen (least key (s ∷ ss) off best chosen)
unfolding least
step key s ss off best chosen taken passed = elim (Bool-cases (is_running s)) [
  | inl run ↦ elim (Bool-cases (ltb_ℤ (key s) best)) [
    | inl lt ↦
        subst (Scanned key (s ∷ ss) off best chosen) (sym (if_then _ _ run ∙ if_then _ _ lt))
          (take_first key s ss off best chosen _ run (omega (tests, lt)) taken)
    | inr ge ↦
        subst (Scanned key (s ∷ ss) off best chosen) (sym (if_then _ _ run ∙ if_else _ _ ge))
          (pass_first key s ss off best chosen _ (λ go. omega (tests, ge)) passed)
  ]
  | inr idle ↦
      subst (Scanned key (s ∷ ss) off best chosen) (sym (if_else _ _ idle))
        (pass_first key s ss off best chosen _ (λ go. absurd (clash idle go)) passed)
]

pub least-Scanned :
    (key : Service → ℤ) (ss : List Service) (off : ℕ) (best : ℤ) (chosen : Option ℕ)
    → Scanned key ss off best chosen (least key ss off best chosen)
least-Scanned key [] off best chosen =
    unfold Scanned AllAtLeast least in inl (refl, λ j s at go. absurd (Option.none-ne-some s at))
least-Scanned key (s ∷ ss) off best chosen =
    let taken = least-Scanned key ss (off + 1) (key s) (some off) in
    let passed = least-Scanned key ss (off + 1) best chosen in
    step key s ss off best chosen taken passed
