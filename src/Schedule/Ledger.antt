-- ===== src/Schedule/Ledger.antt =====
-- What a run without a miss gives each service.
use synchronome.Base.{
  ℕ, zero, suc, ◌+◌, ◌<◌, ◌≡◌, refl, sym, ap, subst, ◌∙◌, Bool, true, false, Bool-cases, List, [],
  ◌∷◌, ◌++◌, map, Option, none, some, get_elem?, arith, ◌==◌, inl, inr, if_else, if◌then◌else◌,
}
use synchronome.Base.Int.{pos, eqb_ℤ}
use synchronome.Schedule.Choice.{service_to_run-is_running}
use synchronome.Schedule.{
  Service, Protocol, Engine, is_running, missed, expire, count_missed, service_to_run, run_service,
  clock_tick, tick, run, start, slots,
}
use mathlib.Core.Option
use synchronome.Schedule.Period.{Ledger, Fresh, expire-Fresh, turn, hit, ticked, turn-Fresh}

map_inv :
    (f : Service → Service) (ss : List Service) (i : ℕ) {y : Service}
    → get_elem? (map f ss) i ≡ some y
    → (x : Service) × (get_elem? ss i ≡ some x) × (f x ≡ y)
map_inv f [] i {y} e = absurd (Option.none-ne-some y e)
map_inv f (s ∷ ss) zero e = (s, refl, Option.some-injective _ _ e)
map_inv f (s ∷ ss) (suc i) e = map_inv f ss i e

both_suc : (i j : ℕ) → (suc j == suc i) ≡ (j == i)
both_suc i j = ground arith

succ_turn : (j i : ℕ) (x : Service) → turn (some (suc j)) (suc i) x ≡ turn (some j) i x
unfolding turn
succ_turn j i x = ap (λ b. if b then record x { runtime = x.runtime + 1 } else x) (both_suc i j)

run_service_inv :
    (r : Option ℕ) (ss : List Service) (i : ℕ) {y : Service}
    → get_elem? (run_service r ss) i ≡ some y
    → (x : Service) × (get_elem? ss i ≡ some x) × (turn r i x ≡ y)
unfolding run_service turn
run_service_inv none ss i {y} e = (y, e, refl)
run_service_inv (some j) [] i {y} e = absurd (Option.none-ne-some y e)
run_service_inv (some zero) (s ∷ ss) zero e = (s, refl, Option.some-injective _ _ e)
run_service_inv (some zero) (s ∷ ss) (suc i) {y} e =
    let other : (0 == suc i) ≡ false = ground arith in (y, e, if_else _ _ other)
run_service_inv (some (suc j)) (s ∷ ss) zero e =
    let other : (suc j == 0) ≡ false = ground arith in
    (s, refl, if_else _ _ other ∙ Option.some-injective _ _ e)
run_service_inv (some (suc j)) (s ∷ ss) (suc i) e =
    let (x, at, is) = run_service_inv (some j) ss i e in (x, at, succ_turn j i x ∙ is)

none_counted : (b : Bool) (n : ℕ) → (if b then suc n else n) ≡ 0 → (b ≡ false) × (n ≡ 0)
none_counted true n h = absurd (omega (arith, h))
none_counted false n h = (refl, h)

one_more :
    (b : Bool) (m n k : ℕ) → m ≡ n + k → (if b then suc m else m) ≡ (if b then suc n else n) + k
one_more true m n k h = omega (arith, h)
one_more false m n k h = h

count_missed-none :
    (ss : List Service)
    → count_missed ss ≡ 0
    → (i : ℕ) (s : Service) → get_elem? ss i ≡ some s
    → missed s ≡ false
unfolding count_missed
count_missed-none [] h i s at = absurd (Option.none-ne-some s at)
count_missed-none (x ∷ ss) h zero s at =
    let (no_miss, _) = none_counted (missed x) (count_missed ss) h in
    subst (λ x. missed x ≡ false) (Option.some-injective _ _ at) no_miss
count_missed-none (x ∷ ss) h (suc i) s at =
    let (_, later) = none_counted (missed x) (count_missed ss) h in
    count_missed-none ss later i s at

slots-append :
    (i : ℕ) (es : List (Option ℕ)) (r : Option ℕ) → slots i (es ++ (r ∷ [])) ≡ slots i es + hit r i
unfolding slots hit
slots-append i [] none = refl
slots-append i [] (some j) = ground arith
slots-append i (none ∷ es) r = slots-append i es r
slots-append i (some j ∷ es) r =
    one_more (j == i) (slots i (es ++ (r ∷ []))) (slots i es) (hit r i) (slots-append i es r)

-- Services before the first tick, with positive periods.
unfoldable pub Started : List Service → Type 0
Started ss =
    (i : ℕ) (s : Service)
    → get_elem? ss i ≡ some s
    → (0 < s.tperiod) × (s.deadline ≡ pos s.tperiod) × (s.runtime ≡ 0)

-- The services of an engine after `n` ticks, each with its ledger.
unfoldable pub Balanced : ℕ → Engine → Type 0
Balanced n e =
    (i : ℕ) (s : Service)
    → get_elem? e.services i ≡ some s
    → (0 < s.tperiod) × Ledger n (slots i e.events) s

start-Balanced : (ss : List Service) → Started ss → Balanced 0 (start ss)
unfolding Balanced Started Ledger start slots
start-Balanced ss started i s at =
    let (hp, dead, idle) = started i s at in
    (hp, (0, s.tperiod, dead, omega arith, omega arith, omega (arith, idle), omega (arith, idle)))

turn_keeps : (r : Option ℕ) (i : ℕ) (s : Service) → (turn r i s).tperiod ≡ s.tperiod
unfolding turn
turn_keeps none i s = refl
turn_keeps (some j) i s = elim (Bool-cases (j == i)) [ inl e ↦ rw e refl | inr e ↦ rw e refl ]

expire_keeps : (s : Service) → (expire s).tperiod ≡ s.tperiod
unfolding expire
expire_keeps s = elim (Bool-cases (eqb_ℤ s.deadline (pos 0))) [
  | inl e ↦ rw e refl
  | inr e ↦ rw e refl
]

clock_keeps : (s : Service) → (clock_tick s).tperiod ≡ s.tperiod
unfolding clock_tick
clock_keeps s = refl

tick-Balanced :
    (protocol : Protocol) (n : ℕ) (e : Engine)
    → count_missed e.services ≡ 0
    → Balanced n e
    → Balanced (suc n) (tick protocol e)
unfolding Balanced tick
tick-Balanced protocol n e none_missed balanced i s at =
    let ready = map expire e.services in
    let chosen = service_to_run protocol ready in
    let (ran, at1, is1) = map_inv clock_tick (run_service chosen ready) i at in
    let (ripe, at2, is2) = run_service_inv chosen ready i at1 in
    let (old, at3, is3) = map_inv expire e.services i at2 in
    let (hp, ledger) = balanced i old at3 in
    let no_miss = count_missed-none e.services none_missed i old at3 in
    let fresh =
      subst (Fresh n (slots i e.events)) is3
        (expire-Fresh n (slots i e.events) old hp no_miss ledger) in
    let go : chosen ≡ some i → is_running ripe ≡ true = λ c.
      let (t, att, run) = service_to_run-is_running protocol ready i c in
      subst (λ x. is_running x ≡ true) (Option.some-injective _ _ (sym att ∙ at2)) run in
    let after =
      subst (Fresh n (slots i e.events + hit chosen i)) is2
        (turn-Fresh n (slots i e.events) chosen i ripe go fresh) in
    let same : s.tperiod ≡ old.tperiod =
      sym (ap (λ x. x.tperiod) is1)
      ∙ clock_keeps ran
      ∙ sym (ap (λ x. x.tperiod) is2)
      ∙ turn_keeps chosen i ripe
      ∙ sym (ap (λ x. x.tperiod) is3)
      ∙ expire_keeps old in
    (
      omega (arith, same, hp),
      subst (Ledger (suc n) (slots i (e.events ++ (chosen ∷ [])))) is1 (
          subst (λ u. Ledger (suc n) u (clock_tick ran)) (sym (slots-append i e.events chosen))
            (ticked n (slots i e.events + hit chosen i) ran after)),
    )

tick-misses :
    (protocol : Protocol) (e : Engine)
    → (tick protocol e).misses ≡ e.misses + count_missed e.services
unfolding tick
tick-misses protocol e = refl

run-suc :
    (protocol : Protocol) (n : ℕ) (e : Engine)
    → run protocol (suc n) e ≡ tick protocol (run protocol n e)
unfolding run
run-suc protocol n e = refl

run_from :
    (protocol : Protocol) (n : ℕ) (ss : List Service)
    → Started ss
    → (run protocol n (start ss)).misses ≡ 0
    → Balanced n (run protocol n (start ss))
run_from protocol zero ss started clean = unfold run in start-Balanced ss started
run_from protocol (suc n) ss started clean =
    let e = run protocol n (start ss) in
    let sum : e.misses + count_missed e.services ≡ 0 =
      sym (tick-misses protocol e)
      ∙ ap (λ x. x.misses) (sym (run-suc protocol n (start ss)))
      ∙ clean in
    subst (Balanced (suc n)) (sym (run-suc protocol n (start ss))) (
      tick-Balanced protocol n e (omega (arith, sum))
        (run_from protocol n ss started (omega (arith, sum))))

row :
    (n : ℕ) (e : Engine) (i : ℕ) (s : Service)
    → get_elem? e.services i ≡ some s
    → Balanced n e
    → Ledger n (slots i e.events) s
unfolding Balanced
row n e i s at b = (b i s at).1

-- After any number of ticks under any of the three protocols, when no miss was counted, the slots
-- recorded for each service are its run time for each period that has ended and the part of the
-- current period's run time it has had, which is at most that run time; the ticks run and the time
-- to its deadline make up these periods and the current one.
pub run-Balanced :
    (protocol : Protocol) (n : ℕ) (ss : List Service)
    → Started ss
    → (run protocol n (start ss)).misses ≡ 0
    → (i : ℕ) (s : Service) → get_elem? (run protocol n (start ss)).services i ≡ some s
    → Ledger n (slots i (run protocol n (start ss)).events) s
run-Balanced protocol n ss started clean i s at =
    row n (run protocol n (start ss)) i s at (run_from protocol n ss started clean)
