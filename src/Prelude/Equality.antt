-- ===== src/Prelude/Equality.antt =====
-- Go's `==` on comparable types, and Go's strings. A Go string is a sequence of bytes.
use Prim.Native.Nat.{ℕ}
use Prim.Native.Char.{code}
use Prim.Native.String.{String}
use native.Mathlib.Decide.{ℕ_discrete}
use mathlib.Core.Path.{◌≡◌, refl, sym, ap₂}
use mathlib.Core.Logic.{ite, ◌↔◌}
use mathlib.Core.Bool.{Bool, true, false}
use mathlib.Core.List.{List, [], ◌∷◌}
use native.Mathlib.Omega.{arith}

pub record Eq {ℓ} (A : Type ℓ) : Type ℓ where
  pub dec : Discrete A

module _ {ℓ} {A : Type ℓ} ⦃e : Eq A⦄ where
  infix 50 ◌==◌
  abbrev pub ◌==◌ : A → A → Bool
  a == b = ite (e.dec a b) true false

  pub ==_iff : (a b : A) → ((a == b) ≡ true) ↔ (a ≡ b)
  ==_iff a b = ground arith

abbrev pub GoString : Type 0
GoString = List ℕ

pub nil-ne-cons : {b : ℕ} {bs : GoString} → ◌≡◌ {A = GoString} [] (b ∷ bs) → ⊥
nil-ne-cons e = cc

pub cons-injective_head : {a b : ℕ} {r s : GoString} → ◌≡◌ {A = GoString} (a ∷ r) (b ∷ s) → a ≡ b
cons-injective_head e = cc

pub cons-injective_tail : {a b : ℕ} {r s : GoString} → ◌≡◌ {A = GoString} (a ∷ r) (b ∷ s) → r ≡ s
cons-injective_tail e = cc

unfoldable pub GoString-discrete : Discrete GoString
GoString-discrete [] [] = yes refl
GoString-discrete [] (b ∷ bs) = no (λ e. nil-ne-cons e)
GoString-discrete (a ∷ r) [] = no (λ e. nil-ne-cons (sym e))
GoString-discrete (a ∷ r) (b ∷ bs) = elim (ℕ_discrete a b) [
  | yes p ↦ elim (GoString-discrete r bs) [
    | yes q ↦ yes (ap₂ ◌∷◌ p q)
    | no q ↦ no (λ e. q (cons-injective_tail e))
  ]
  | no p ↦ no (λ e. p (cons-injective_head e))
]

instance unfoldable pub gostring_eq : Eq GoString
unfolding GoString-discrete ℕ_discrete
gostring_eq = record { dec = GoString-discrete }

-- The bytes of an ASCII literal.
abbrev pub str : String → GoString
str String.[] = []
str (String.◌∷◌ c s) = code c ∷ str s
