-- ===== src/Prelude/Options.antt =====
-- The chain of fallible steps: a step that gives `none` ends it.
use mathlib.Core.Bool.{Bool, true, false}
use mathlib.Core.Option.{Option, none, some}
use mathlib.Core.Path.{◌≡◌, refl}
use roosterwake.Prelude.Tests.{if◌then◌else◌}

infixl 5 ◌>>=◌
abbrev pub ◌>>=◌ {ℓ κ} : {A : Type ℓ} {B : Type κ} → Option A → (A → Option B) → Option B
none >>= f = none
some a >>= f = f a

-- Inversion of a chain that gives a value.
pub >>=-eq-some {ℓ κ} :
    {A : Type ℓ} {B : Type κ} (m : Option A) (f : A → Option B) {b : B}
    → (m >>= f) ≡ some b
    → (a : A) × (m ≡ some a) × (f a ≡ some b)
>>=-eq-some none f h = cc
>>=-eq-some (some a) f h = (a, refl, h)

-- Both branches have the property.
pub if_holds :
    {A : Type 0} (P : A → Type 0) (b : Bool) {x y : A} → P x → P y → P (if b then x else y)
if_holds P true p q = p
if_holds P false p q = q

-- Both cases have the property.
pub maybe_holds :
    {A R : Type 0} (P : R → Type 0) (o : Option A) {n : R} {f : A → R}
    → P n
    → ((a : A) → P (f a))
    → P (elim o as (λ x. R) [ none ↦ n | some a ↦ f a ])
maybe_holds P none p q = p
maybe_holds P (some a) p q = q a
