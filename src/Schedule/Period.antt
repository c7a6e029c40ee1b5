-- ===== src/Schedule/Period.antt =====
-- What a tick does to the ledger of one service.
use synchronome.Base.{
  ℕ, zero, suc, ◌+◌, ◌-◌, ◌*◌, ◌≤◌, ◌<◌, ◌≡◌, sym, ap, subst, ◌∙◌, true, false, Bool-cases, Option,
  none, some, arith, ◌==◌, ==_iff, inl, inr, if_then, if_else, if◌then◌else◌, tests,
}
use synchronome.Base.Int.{pos, ◌-ℤ◌, eqb_ℤ}
use synchronome.Schedule.{Service, is_running, missed, expire, clock_tick, run}

-- After `n` ticks, of which `used` ran the service: it stands in a period with the deadline `d` ticks
-- away, and in each of the `k` periods before it had its whole run time.
unfoldable pub Ledger : ℕ → ℕ → Service → Type 0
Ledger n used s =
    (k d : ℕ) × (s.deadline ≡ pos d)
    × (d ≤ s.tperiod)
    × (n + d ≡ k * s.tperiod + s.tperiod)
    × (used ≡ k * s.cruntime + s.runtime)
    × (s.runtime ≤ s.cruntime)

-- The same with time left to the deadline.
pub Fresh : ℕ → ℕ → Service → Type 0
Fresh n used s =
    (k d : ℕ) × (s.deadline ≡ pos (suc d))
    × (suc d ≤ s.tperiod)
    × (n + suc d ≡ k * s.tperiod + s.tperiod)
    × (used ≡ k * s.cruntime + s.runtime)
    × (s.runtime ≤ s.cruntime)

another : (k m : ℕ) → (k + 1) * m ≡ k * m + m
another k m = grind arith

true-met : (r c : ℕ) → (if r == c then false else true) ≡ false → r ≡ c
true-met r c h = ground (arith, h)

-- At a deadline that is not missed the service has had its run time.
missed-met :
    (s : Service) → eqb_ℤ s.deadline (pos 0) ≡ true → missed s ≡ false → s.runtime ≡ s.cruntime
unfolding missed
missed-met s e h = true-met s.runtime s.cruntime (sym (if_then _ _ e) ∙ h)

renewed :
    (n used : ℕ) (s : Service)
    → 0 < s.tperiod
    → s.runtime ≡ s.cruntime
    → (k : ℕ) → n + 0 ≡ k * s.tperiod + s.tperiod
    → used ≡ k * s.cruntime + s.runtime
    → Fresh n used (record s { deadline = pos s.tperiod; runtime = 0 })
unfolding Fresh
renewed n used s hp full k time work =
    let whole : s.tperiod ≡ suc (s.tperiod - 1) = omega (arith, hp) in
    (
      k + 1,
      s.tperiod - 1,
      ap pos whole,
      omega (arith, hp),
      omega (arith, time, another k s.tperiod, hp),
      omega (arith, work, full, another k s.cruntime),
      omega arith,
    )

-- The expiration of a deadline that is not missed starts a new period.
pub expire-Fresh :
    (n used : ℕ) (s : Service)
    → 0 < s.tperiod
    → missed s ≡ false
    → Ledger n used s
    → Fresh n used (expire s)
unfolding expire Ledger
expire-Fresh n used s hp met (k, zero, dead, within, time, work, done) =
    let now : eqb_ℤ s.deadline (pos 0) ≡ true = ap (λ x. eqb_ℤ x (pos 0)) dead in
    subst (Fresh n used) (sym (if_then _ _ now))
      (renewed n used s hp (missed-met s now met) k time work)
expire-Fresh n used s hp met (k, suc d, dead, within, time, work, done) =
    let later : eqb_ℤ s.deadline (pos 0) ≡ false = ap (λ x. eqb_ℤ x (pos 0)) dead ∙ ground arith in
    subst (Fresh n used) (sym (if_else _ _ later))
      (unfold Fresh in (k, d, dead, within, time, work, done))

-- What a tick does to the service at a place.
unfoldable pub turn : Option ℕ → ℕ → Service → Service
turn none i s = s
turn (some j) i s = if j == i then record s { runtime = s.runtime + 1 } else s

unfoldable pub hit : Option ℕ → ℕ → ℕ
hit none i = 0
hit (some j) i = if j == i then 1 else 0

minus_one : (d : ℕ) → pos (suc d) -ℤ pos 1 ≡ pos d
unfolding ◌-ℤ◌
minus_one d = ground arith

pub ticked : (n used : ℕ) (s : Service) → Fresh n used s → Ledger (suc n) used (clock_tick s)
unfolding Fresh Ledger clock_tick
ticked n used s (k, d, dead, within, time, work, done) = (
  k,
  d,
  ap (λ x. x -ℤ pos 1) dead ∙ minus_one d,
  omega (arith, within),
  omega (arith, time),
  work,
  done,
)

pub counted :
    (n used : ℕ) (s : Service)
    → is_running s ≡ true
    → Fresh n used s
    → Fresh n (used + 1) (record s { runtime = s.runtime + 1 })
unfolding Fresh is_running
counted n used s run (k, d, dead, within, time, work, done) =
    (k, d, dead, within, time, omega (arith, work), omega (tests, run))

-- A tick that runs the service counts for it.
pub turn-Fresh :
    (n used : ℕ) (r : Option ℕ) (i : ℕ) (s : Service)
    → (r ≡ some i → is_running s ≡ true)
    → Fresh n used s
    → Fresh n (used + hit r i) (turn r i s)
unfolding turn hit
turn-Fresh n used none i s go f = subst (λ u. Fresh n u s) (omega arith) f
turn-Fresh n used (some j) i s go f = elim (Bool-cases (j == i)) [
  | inl same ↦ let run = go (ap some ((==_iff j i).0 same)) in rw same (counted n used s run f)
  | inr other ↦ rw other (subst (λ u. Fresh n u s) (omega arith) f)
]
