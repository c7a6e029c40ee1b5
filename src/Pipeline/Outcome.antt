-- ===== src/Pipeline/Outcome.antt =====
-- What one round of a thread's loop ends in.
use synchronome.Base.{refl, subst, ◌≡◌, Bool, true, false, Option, none, some, if◌then◌else◌}
use synchronome.Base.Int.{ℤ}

-- `next` goes on with a state, `leave` is a return from the thread's function with its value, and
-- `fault` is a failed assertion or an access out of range.
pub data Outcome {ℓ κ} (A : Type ℓ) (S : Type κ) : Type (ℓ ⊔ κ) where
  next : A → Outcome A S
  leave : ℤ → S → Outcome A S
  fault : Outcome A S

infixl 5 ◌>>=◌
abbrev pub ◌>>=◌ {ℓ κ μ} :
    {A : Type ℓ} {B : Type κ} {S : Type μ} → Outcome A S → (A → Outcome B S) → Outcome B S
next a >>= f = f a
leave code s >>= f = leave code s
fault >>= f = fault

-- `none` is a fault.
abbrev pub checked {ℓ κ} : {A : Type ℓ} {S : Type κ} → Option A → Outcome A S
checked none = fault
checked (some a) = next a

abbrev pub require {κ} : {S : Type κ} → Bool → Outcome (Unit {0}) S
require true = next tt
require false = fault

infixl 5 ◌>>◌
abbrev pub ◌>>◌ {ℓ κ} : {A : Type ℓ} {S : Type κ} → Outcome (Unit {0}) S → Outcome A S → Outcome A S
m >> k = m >>= λ _. k

-- What holds of the state a computation goes on with.
abbrev pub Every {ℓ κ μ} : {A : Type ℓ} {S : Type κ} → (A → Type μ) → Outcome A S → Type μ
Every P (next a) = P a
Every P (leave code s) = Unit
Every P fault = Unit

pub Every-mono {ℓ κ} :
    {A : Type ℓ} {S : Type κ} (P Q : A → Type 0) (m : Outcome A S)
    → Every P m
    → ((a : A) → P a → Q a)
    → Every Q m
Every-mono P Q (next a) h k = k a h
Every-mono P Q (leave code s) h k = tt
Every-mono P Q fault h k = tt

pub Every->>= {ℓ κ μ} :
    {A : Type ℓ} {B : Type κ} {S : Type μ} (P : A → Type 0) (Q : B → Type 0) (m : Outcome A S)
    (f : A → Outcome B S)
    → Every P m
    → ((a : A) → P a → Every Q (f a))
    → Every Q (m >>= f)
Every->>= P Q (next a) f h k = k a h
Every->>= P Q (leave code s) f h k = tt
Every->>= P Q fault f h k = tt

pub Every-checked {ℓ κ} :
    {A : Type ℓ} (S : Type κ) (x : Option A) → Every {S = S} (λ a. x ≡ some a) (checked x)
Every-checked S none = tt
Every-checked S (some a) = refl

pub Every-next {ℓ κ} :
    {A : Type ℓ} {S : Type κ} (P : A → Type 0) (m : Outcome A S) (a : A)
    → Every P m
    → m ≡ next a
    → P a
Every-next P m a h e = subst (Every P) e h

pub >>=-assoc {ℓ κ μ ν} :
    {A : Type ℓ} {B : Type κ} {C : Type μ} {S : Type ν} (m : Outcome A S) (f : A → Outcome B S)
    (g : B → Outcome C S)
    → m >>= f >>= g ≡ m >>= λ a. f a >>= g
>>=-assoc (next a) f g = refl
>>=-assoc (leave code s) f g = refl
>>=-assoc fault f g = refl

-- The computation after a first part, in two parts.
pub >>=-split {ℓ κ μ ν} :
    {A : Type ℓ} {B : Type κ} {C : Type μ} {S : Type ν} (m : Outcome A S) (f : A → Outcome B S)
    (g : B → Outcome C S) (h : A → Outcome C S)
    → ((a : A) → h a ≡ f a >>= g)
    → m >>= h ≡ m >>= f >>= g
>>=-split (next a) f g h e = e a
>>=-split (leave code s) f g h e = refl
>>=-split fault f g h e = refl

pub Every-if {ℓ κ} :
    {A : Type ℓ} {S : Type κ} (P : A → Type 0) (b : Bool) (m n : Outcome A S)
    → Every P m
    → Every P n
    → Every P (if b then m else n)
Every-if P true m n h k = h
Every-if P false m n h k = k

-- What holds of the state a computation goes on with, and of the state it leaves.
abbrev pub Always {ℓ κ μ} :
    {A : Type ℓ} {S : Type κ} → (A → Type μ) → (S → Type μ) → Outcome A S → Type μ
Always P R (next a) = P a
Always P R (leave code s) = R s
Always P R fault = Unit

pub Always-mono {ℓ κ} :
    {A : Type ℓ} {S : Type κ} (P Q : A → Type 0) (R R' : S → Type 0) (m : Outcome A S)
    → Always P R m
    → ((a : A) → P a → Q a)
    → ((s : S) → R s → R' s)
    → Always Q R' m
Always-mono P Q R R' (next a) h k l = k a h
Always-mono P Q R R' (leave code s) h k l = l s h
Always-mono P Q R R' fault h k l = tt

pub Always->>= {ℓ κ μ} :
    {A : Type ℓ} {B : Type κ} {S : Type μ} (P : A → Type 0) (Q : B → Type 0) (R : S → Type 0)
    (m : Outcome A S) (f : A → Outcome B S)
    → Always P R m
    → ((a : A) → P a → Always Q R (f a))
    → Always Q R (m >>= f)
Always->>= P Q R (next a) f h k = k a h
Always->>= P Q R (leave code s) f h k = h
Always->>= P Q R fault f h k = tt

pub Always-checked {κ} :
    {A : Type 0} {S : Type κ} (R : S → Type 0) (x : Option A)
    → Always (λ a. x ≡ some a) R (checked x)
Always-checked R none = tt
Always-checked R (some a) = refl

pub Always-next {ℓ κ} :
    {A : Type ℓ} {S : Type κ} (P : A → Type 0) (R : S → Type 0) (m : Outcome A S) (a : A)
    → Always P R m
    → m ≡ next a
    → P a
Always-next P R m a h e = subst (Always P R) e h

pub Always-leave {ℓ κ} :
    {A : Type ℓ} {S : Type κ} (P : A → Type 0) (R : S → Type 0) (m : Outcome A S) (code : ℤ) (s : S)
    → Always P R m
    → m ≡ leave code s
    → R s
Always-leave P R m code s h e = subst (Always P R) e h

-- The same, and that it makes no fault.
abbrev pub Safely {ℓ κ} :
    {A : Type ℓ} {S : Type κ} → (A → Type 0) → (S → Type 0) → Outcome A S → Type 0
Safely P R (next a) = P a
Safely P R (leave code s) = R s
Safely P R fault = ⊥

pub Safely-mono {ℓ κ} :
    {A : Type ℓ} {S : Type κ} (P Q : A → Type 0) (R : S → Type 0) (m : Outcome A S)
    → Safely P R m
    → ((a : A) → P a → Q a)
    → Safely Q R m
Safely-mono P Q R (next a) h k = k a h
Safely-mono P Q R (leave code s) h k = h
Safely-mono P Q R fault h k = absurd h

pub Safely->>= {ℓ κ μ} :
    {A : Type ℓ} {B : Type κ} {S : Type μ} (P : A → Type 0) (Q : B → Type 0) (R : S → Type 0)
    (m : Outcome A S) (f : A → Outcome B S)
    → Safely P R m
    → ((a : A) → P a → Safely Q R (f a))
    → Safely Q R (m >>= f)
Safely->>= P Q R (next a) f h k = k a h
Safely->>= P Q R (leave code s) f h k = h
Safely->>= P Q R fault f h k = absurd h

pub Safely-if {ℓ κ} :
    {A : Type ℓ} {S : Type κ} (P : A → Type 0) (R : S → Type 0) (b : Bool) (m n : Outcome A S)
    → Safely P R m
    → Safely P R n
    → Safely P R (if b then m else n)
Safely-if P R true m n h k = h
Safely-if P R false m n h k = k

pub Safely-leave {ℓ κ} :
    {A : Type ℓ} {S : Type κ} (P : A → Type 0) (R R' : S → Type 0) (m : Outcome A S)
    → Safely P R m
    → ((s : S) → R s → R' s)
    → Safely P R' m
Safely-leave P R R' (next a) h k = h
Safely-leave P R R' (leave code s) h k = k s h
Safely-leave P R R' fault h k = absurd h
