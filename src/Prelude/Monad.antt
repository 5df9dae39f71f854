-- ===== src/Prelude/Monad.antt =====
-- Sequencing of operations that return `Option`: `none` is a fault or fuel that ran out.
use mathlib.Core.Path.{◌≡◌, refl, sym, subst}
use mathlib.Core.Bool.{Bool, true, false}
use mathlib.Core.Option.{Option, none, some}
use package.rp2040_wiznet_eaa_s_aws.Prelude.Tests.{if◌then◌else◌}

infixl 5 ◌>>=◌
abbrev pub ◌>>=◌ {ℓ κ} : {A : Type ℓ} {B : Type κ} → Option A → (A → Option B) → Option B
none >>= f = none
some a >>= f = f a

-- What holds of the result, if a computation has one.
abbrev pub IfReturns {ℓ} : {A : Type ℓ} → Option A → (A → Type 0) → Type 0
IfReturns none P = Unit
IfReturns (some a) P = P a

module _ {ℓ} {A : Type ℓ} where
  pub IfReturns-intro :
      (o : Option A) (P : A → Type 0) → ((a : A) → o ≡ some a → P a) → IfReturns o P
  IfReturns-intro none P h = tt
  IfReturns-intro (some a) P h = h a refl

  pub IfReturns-elim : (o : Option A) (P : A → Type 0) (a : A) → o ≡ some a → IfReturns o P → P a
  IfReturns-elim o P a e h = subst (λ x. IfReturns x P) e h

pub IfReturns-any {ℓ} : {A : Type ℓ} (o : Option A) → IfReturns o (λ _. Unit)
IfReturns-any none = tt
IfReturns-any (some a) = tt

pub IfReturns-mono {ℓ} :
    {A : Type ℓ} (o : Option A) (Q P : A → Type 0)
    → IfReturns o Q
    → ((a : A) → Q a → P a)
    → IfReturns o P
IfReturns-mono none Q P h k = tt
IfReturns-mono (some a) Q P h k = k a h

pub IfReturns-bind {ℓ κ} :
    {A : Type ℓ}
    → {B : Type κ} → (o : Option A) (f : A → Option B) (Q : A → Type 0) (P : B → Type 0)
    → IfReturns o Q
    → ((a : A) → Q a → IfReturns (f a) P)
    → IfReturns (o >>= f) P
IfReturns-bind none f Q P h k = tt
IfReturns-bind (some a) f Q P h k = k a h

-- A computation returns, with a result of the given kind.
abbrev pub Returns {ℓ} : {A : Type ℓ} → Option A → (A → Type 0) → Type 0
Returns none P = ⊥
Returns (some a) P = P a

pub Returns-mono {ℓ} :
    {A : Type ℓ} (o : Option A) (Q P : A → Type 0)
    → Returns o Q
    → ((a : A) → Q a → P a)
    → Returns o P
Returns-mono none Q P h k = h
Returns-mono (some a) Q P h k = k a h

pub Returns-bind {ℓ κ} :
    {A : Type ℓ}
    → {B : Type κ} → (o : Option A) (f : A → Option B) (Q : A → Type 0) (P : B → Type 0)
    → Returns o Q
    → ((a : A) → Q a → Returns (f a) P)
    → Returns (o >>= f) P
Returns-bind none f Q P h k = absurd h
Returns-bind (some a) f Q P h k = k a h

-- A computation that has a result has one of which holds what holds of every result.
pub Returns-both {ℓ} :
    {A : Type ℓ} (o : Option A) (Q P : A → Type 0)
    → Returns o Q
    → IfReturns o P
    → Returns o (λ a. Q a × P a)
Returns-both none Q P h k = h
Returns-both (some a) Q P h k = (h, k)

-- A test, with what it says for each of the branches.
pub IfReturns-if {ℓ} :
    {A : Type ℓ} (b : Bool) (x y : Option A) (P : A → Type 0)
    → (b ≡ true → IfReturns x P)
    → (b ≡ false → IfReturns y P)
    → IfReturns (if b then x else y) P
IfReturns-if true x y P h k = h refl
IfReturns-if false x y P h k = k refl

-- A test whose value is known.
pub Returns-else {ℓ} :
    {A : Type ℓ} (b : Bool) (x y : Option A) (P : A → Type 0)
    → b ≡ false
    → Returns y P
    → Returns (if b then x else y) P
Returns-else b x y P e h = subst (λ c. Returns (if c then x else y) P) (sym e) h
