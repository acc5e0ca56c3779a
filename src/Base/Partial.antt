-- ===== src/Base/Partial.antt =====
-- Chains of steps that may not return: a panic, or a wait that never ends, is `none`.
use mathlib.Core.Bool.{Bool, true, false}
use cs344_os_lab.Base.Tests.{if◌then◌else◌}
use mathlib.Core.Option.{Option, none, some}

infixl 5 ◌>>=◌
abbrev pub ◌>>=◌ {ℓ κ} : {A : Type ℓ} {B : Type κ} → Option A → (A → Option B) → Option B
none >>= f = none
some a >>= f = f a

-- What holds of the result, if there is one.
pub data On {ℓ} {A : Type ℓ} (P : A → Type 0) : Option A → Type ℓ where
  stops : On P none
  returns : (a : A) → P a → On P (some a)

pub in_some {ℓ} : {A : Type ℓ} {P : A → Type 0} {a : A} → On P (some a) → P a
in_some (returns _ h) = h

pub bind-On {ℓ κ} :
    {A : Type ℓ} {B : Type κ} {P : A → Type 0} {Q : B → Type 0} (m : Option A) (f : A → Option B)
    → On P m
    → ((a : A) → P a → On Q (f a))
    → On Q (m >>= f)
bind-On _ f stops k = stops
bind-On _ f (returns a h) k = k a h

pub map-On {ℓ} :
    {A : Type ℓ} {P Q : A → Type 0} (m : Option A) → On P m → ((a : A) → P a → Q a) → On Q m
map-On _ stops k = stops
map-On _ (returns a h) k = returns a (k a h)

pub both-On {ℓ} :
    {A : Type ℓ} {P Q : A → Type 0} (m : Option A) → On P m → On Q m → On (λ a. P a × Q a) m
both-On none _ _ = stops
both-On (some a) h k = returns a (in_some h, in_some k)

pub if-On {ℓ} :
    {A : Type ℓ} {P : A → Type 0} (c : Bool) (m n : Option A)
    → On P m
    → On P n
    → On P (if c then m else n)
if-On true m n h k = h
if-On false m n h k = k

-- Nothing is asked of the result.
pub any-On {ℓ} : {A : Type ℓ} (m : Option A) → On (λ a. Unit {0}) m
any-On none = stops
any-On (some a) = returns a tt
