-- ===== src/Prelude/Chain.antt =====
-- `do` blocks for steps that may fail, and what they yield.
use luci_app_komari_agent_c.Prelude.Tests.{if◌then◌else◌}
use mathlib.Core.Path.{◌≡◌, refl, subst}
use mathlib.Core.Bool.{Bool, true, false}
use mathlib.Core.Option.{Option, none, some}

infixl 5 ◌>>=◌
abbrev pub ◌>>=◌ {ℓ κ} : {A : Type ℓ} {B : Type κ} → Option A → (A → Option B) → Option B
none >>= f = none
some a >>= f = f a

-- What a step yields, if it yields anything, has the property.
abbrev pub Yields {ℓ κ} : {A : Type ℓ} → (A → Type κ) → Option A → Type κ
Yields P none = Unit
Yields P (some a) = P a

pub Yields-bind {ℓ κ ℓ' κ'} :
    {A : Type ℓ} {B : Type ℓ'} (P : A → Type κ) (Q : B → Type κ') (o : Option A) (f : A → Option B)
    → Yields P o
    → ((a : A) → P a → Yields Q (f a))
    → Yields Q (o >>= f)
Yields-bind P Q none f h k = tt
Yields-bind P Q (some a) f h k = k a h

pub Yields-if {ℓ κ} :
    {A : Type ℓ} (P : A → Type κ) (b : Bool) (x y : Option A)
    → (b ≡ true → Yields P x)
    → (b ≡ false → Yields P y)
    → Yields P (if b then x else y)
Yields-if P true x y p q = p refl
Yields-if P false x y p q = q refl

pub Yields-any {ℓ} : {A : Type ℓ} (o : Option A) → Yields {ℓ, 0} (λ (a : A). Unit) o
Yields-any none = tt
Yields-any (some a) = tt

pub Yields-map {ℓ κ κ'} :
    {A : Type ℓ} (P : A → Type κ) (Q : A → Type κ') (o : Option A)
    → ((a : A) → P a → Q a)
    → Yields P o
    → Yields Q o
Yields-map P Q none f h = tt
Yields-map P Q (some a) f h = f a h

pub Yields_at {ℓ κ} :
    {A : Type ℓ} (P : A → Type κ) (o : Option A) (a : A) → o ≡ some a → Yields P o → P a
Yields_at P o a e h = subst (Yields P) e h

pub Yields-self {ℓ} : {A : Type ℓ} (o : Option A) → Yields (λ (a : A). o ≡ some a) o
Yields-self none = tt
Yields-self (some a) = refl
