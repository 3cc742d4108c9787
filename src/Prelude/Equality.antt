-- ===== src/Prelude/Equality.antt =====
-- Decidable equality as an interface, with membership tests over it.
use Prim.Native.Nat.{ℕ}
use Prim.Native.String.{String}
use mathlib.Core.Path.{◌≡◌}
use mathlib.Core.Logic.{◌↔◌}
use mathlib.Core.Bool.{Bool, true}
use mathlib.Core.List.{List}
use text.Mathlib.Text.{◌==◌ as text_eq}
use text.Mathlib.TextEquality.{eq_iff as text_eq_iff}
use redsuite.Prelude.Tests.{eqb, eqb_iff}
use redsuite.Prelude.Lists.{any}

-- `PartialEq`, where it is equality.
pub record PartialEq {κ} (T : Type κ) : Type κ where
  pub eq : T → T → Bool
  pub eq_iff : (x y : T) → (eq x y ≡ true) ↔ (x ≡ y)

infix 50 ◌==◌
abbrev pub ◌==◌ {κ} : {T : Type κ} ⦃c : PartialEq T⦄ → T → T → Bool
◌==◌ ⦃c⦄ x y = c.eq x y

instance abbrev pub nat_eq : PartialEq ℕ
nat_eq = record { eq = eqb; eq_iff = eqb_iff }

instance abbrev pub string_eq : PartialEq String
string_eq = record { eq = text_eq; eq_iff = text_eq_iff }

-- `xs.contains(&a)`.
abbrev pub contains {ℓ} : {A : Type ℓ} ⦃c : PartialEq A⦄ → List A → A → Bool
contains xs a = any (λ x. x == a) xs
