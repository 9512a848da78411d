-- ===== src/Prelude/Guards.antt =====
-- What an optional result says of the tests before it.
use mathlib.Core.Path.{◌≡◌, refl, sym}
use mathlib.Core.Logic.{◌⊎◌, inl, inr}
use mathlib.Core.Bool.{Bool, true, false, ◌||◌, not}
use mathlib.Core.Option.{Option, none, some}
use native.Mathlib.Omega.{arith}
use package.typeclaw_operator.Prelude.Tests.{if◌then◌else◌}

pub passed {ℓ} :
    {A : Type ℓ} (b : Bool) {x : Option A} {a : A}
    → (if b then none else x) ≡ some a
    → (b ≡ false) × (x ≡ some a)
passed true h = absurd (ground (arith, h))
passed false h = (refl, h)

pub chosen {ℓ} :
    {A : Type ℓ} (b : Bool) {x y : Option A} {a : A}
    → (if b then x else y) ≡ some a
    → ((b ≡ true) × (x ≡ some a)) ⊎ ((b ≡ false) × (y ≡ some a))
chosen true h = inl (refl, h)
chosen false h = inr (refl, h)

pub not-true : (b : Bool) → not b ≡ false → b ≡ true
not-true true h = refl
not-true false h = sym h

pub or-false : (a b : Bool) → (a || b) ≡ false → (a ≡ false) × (b ≡ false)
or-false a b h = ground arith
