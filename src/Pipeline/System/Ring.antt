-- ===== src/Pipeline/System/Ring.antt =====
-- Lists of slots of the ring of scan buffers: successive ones, and what they hold.
use synchronome.Base.{
  ℕ, suc, ◌+◌, ◌%◌, ◌<◌, ◌≡◌, ◌≢◌, ◌⊎◌, inl, inr, refl, sym, ap, ◌∙◌, List, [], ◌∷◌, ◌++◌, some,
  length, length-append, get_elem?, set, get_elem?-set_ne, if◌then◌else◌, ◌==◌, arith,
}
use synchronome.Buffer.{Buffer, scan_buf_size}

-- `l` runs through the ring in order and ends just before slot `n`.
abbrev pub IsRun : List ℕ → ℕ → Type 0
IsRun [] n = Unit
IsRun (x ∷ l) n = (x < scan_buf_size) × (n ≡ (x + suc (length l)) % scan_buf_size) × IsRun l n

abbrev pub IsIn : ℕ → List ℕ → Type 0
IsIn k [] = ⊥
IsIn k (x ∷ l) = (k ≡ x) ⊎ IsIn k l

abbrev pub after : ℕ → ℕ
after n = if n + 1 == scan_buf_size then 0 else n + 1

-- The run with slot `n` behind it.
pub IsRun-after :
    (l : List ℕ) (n : ℕ) → n < scan_buf_size → IsRun l n → IsRun (l ++ (n ∷ [])) (after n)
IsRun-after [] n h r = (h, ground arith, tt)
IsRun-after (x ∷ l) n h r =
    (r.0, ground (arith, r.1, h, length-append l (n ∷ [])), IsRun-after l n h r.2)

pub IsRun-suffix : (l m : List ℕ) (n : ℕ) → IsRun (l ++ m) n → IsRun m n
IsRun-suffix [] m n r = r
IsRun-suffix (x ∷ l) m n r = IsRun-suffix l m n r.2

-- A run of fewer slots than the ring has does not reach round to `n`.
pub IsRun-free : (l : List ℕ) (n k : ℕ) → length l < scan_buf_size → IsRun l n → IsIn k l → k ≢ n
IsRun-free [] n k h r i = absurd i
IsRun-free (x ∷ l) n k h r (inl e) = λ f. absurd (omega (arith, h, r.0, r.1, e, f))
IsRun-free (x ∷ l) n k h r (inr i) = IsRun-free l n k (omega (arith, h)) r.2 i

-- A run of as many slots as the ring has begins at `n`.
pub IsRun-full :
    (x : ℕ) (l : List ℕ) (n : ℕ) → suc (length l) ≡ scan_buf_size → IsRun (x ∷ l) n → x ≡ n
IsRun-full x l n h r = omega (arith, h, r.0, r.1)

-- The slots `ks` of the ring hold the frames `bs`, in order.
abbrev pub Holds : List Buffer → List ℕ → List Buffer → Type 0
Holds ring [] [] = Unit
Holds ring (k ∷ ks) (b ∷ bs) = (get_elem? ring k ≡ some b) × Holds ring ks bs
Holds ring [] (b ∷ bs) = ⊥
Holds ring (k ∷ ks) [] = ⊥

pub Holds-append :
    (ring : List Buffer) (ks js : List ℕ) (bs cs : List Buffer)
    → Holds ring ks bs
    → Holds ring js cs
    → Holds ring (ks ++ js) (bs ++ cs)
Holds-append ring [] js [] cs h k = k
Holds-append ring (x ∷ ks) js (b ∷ bs) cs h k = (h.0, Holds-append ring ks js bs cs h.1 k)
Holds-append ring [] js (b ∷ bs) cs h k = absurd h
Holds-append ring (x ∷ ks) js [] cs h k = absurd h

pub Holds-split :
    (ring : List Buffer) (ks js : List ℕ) (bs : List Buffer)
    → Holds ring (ks ++ js) bs
    → (before behind : List Buffer) × (bs ≡ before ++ behind) × Holds ring js behind
Holds-split ring [] js bs h = ([], bs, refl, h)
Holds-split ring (x ∷ ks) js [] h = absurd h
Holds-split ring (x ∷ ks) js (b ∷ bs) h =
    let (before, behind, e, k) = Holds-split ring ks js bs h.1 in
    (b ∷ before, behind, ap (λ l. b ∷ l) e, k)

pub Holds-first :
    (ring : List Buffer) (k : ℕ) (ks : List ℕ) (bs : List Buffer) (b : Buffer)
    → Holds ring (k ∷ ks) bs
    → get_elem? ring k ≡ some b
    → (rest : List Buffer) × (bs ≡ b ∷ rest) × Holds ring ks rest
Holds-first ring k ks [] b h e = absurd h
Holds-first ring k ks (c ∷ bs) b h e = (bs, cc, h.1)

-- A write to another slot.
pub Holds-set :
    (ring : List Buffer) (n : ℕ) (b : Buffer) (ks : List ℕ) (bs : List Buffer)
    → ((k : ℕ) → IsIn k ks → k ≢ n)
    → Holds ring ks bs
    → Holds (set ring n b) ks bs
Holds-set ring n b [] [] h k = tt
Holds-set ring n b (x ∷ ks) (c ∷ bs) h k = (
  get_elem?-set_ne ring b (λ e. h x (inl refl) (sym e)) ∙ k.0,
  Holds-set ring n b ks bs (λ y i. h y (inr i)) k.1,
)
Holds-set ring n b [] (c ∷ bs) h k = absurd k
Holds-set ring n b (x ∷ ks) [] h k = absurd k

pub IsIn-left : (k : ℕ) (l m : List ℕ) → IsIn k l → IsIn k (l ++ m)
IsIn-left k [] m i = absurd i
IsIn-left k (x ∷ l) m (inl e) = inl e
IsIn-left k (x ∷ l) m (inr i) = inr (IsIn-left k l m i)

pub IsIn-right : (k : ℕ) (l m : List ℕ) → IsIn k m → IsIn k (l ++ m)
IsIn-right k [] m i = i
IsIn-right k (x ∷ l) m i = inr (IsIn-right k l m i)
