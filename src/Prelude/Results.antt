-- ===== src/Prelude/Results.antt =====
-- Chains of results that may be missing, for `do` blocks.
use mathlib.Core.Option.{Option, none, some, none-ne-some}
use mathlib.Core.Path.{◌≡◌, refl}

infixl 5 ◌>>=◌
abbrev pub ◌>>=◌ {ℓ κ} : {A : Type ℓ} {B : Type κ} → Option A → (A → Option B) → Option B
none >>= f = none
some a >>= f = f a

-- What a chain that succeeds is made of.
pub bind-some {ℓ κ} :
    {A : Type ℓ} {B : Type κ} {m : Option A} {f : A → Option B} {b : B}
    → (m >>= f) ≡ some b
    → (a : A) × (m ≡ some a) × (f a ≡ some b)
bind-some {m = none} {b = b} h = absurd (none-ne-some b h)
bind-some {m = some a} h = (a, refl, h)

-- A predicate of the result, where there is one.
abbrev pub OnSome {ℓ κ} : {A : Type ℓ} → (A → Type κ) → Option A → Type κ
OnSome P none = Unit
OnSome P (some a) = P a

pub bind-OnSome {ℓ κ μ ν} :
    {A : Type ℓ} {B : Type κ} (P : A → Type μ) (Q : B → Type ν) (m : Option A) (f : A → Option B)
    → OnSome P m
    → ((a : A) → P a → OnSome Q (f a))
    → OnSome Q (m >>= f)
bind-OnSome P Q none f h g = tt
bind-OnSome P Q (some a) f h g = g a h

pub OnSome-some {ℓ κ} :
    {A : Type ℓ} (P : A → Type κ) (m : Option A) (a : A) → OnSome P m → m ≡ some a → P a
OnSome-some P m a h e = rw e at h

pub bind-OnSome_any {ℓ κ ν} :
    {A : Type ℓ} {B : Type κ} (Q : B → Type ν) (m : Option A) (f : A → Option B)
    → ((a : A) → OnSome Q (f a))
    → OnSome Q (m >>= f)
bind-OnSome_any Q none f g = tt
bind-OnSome_any Q (some a) f g = g a
