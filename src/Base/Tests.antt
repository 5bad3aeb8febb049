-- ===== src/Base/Tests.antt =====
-- Boolean tests, the conditional, and the splits that keep an equation.
use Prim.Native.Nat.{ℕ, compare, Ordering}
use mathlib.Core.Path.{◌≡◌, refl}
use mathlib.Core.Logic.{◌↔◌, ◌⊎◌, inl, inr}
use mathlib.Core.Bool.{Bool, true, false, ◌&&◌}
use mathlib.Core.Option.{Option, none, some}
use native.Mathlib.Omega.{arith}

abbrev pub leb : ℕ → ℕ → Bool
leb a b = elim (compare a b) [ Ordering.gt ↦ false | _ ↦ true ]

-- Equality of numbers; `==` is that of texts.
abbrev pub nat_beq : ℕ → ℕ → Bool
nat_beq a b = elim (compare a b) [ Ordering.eq ↦ true | _ ↦ false ]

infix 1 if◌then◌else◌
abbrev pub if◌then◌else◌ {ℓ} : {A : Type ℓ} → Bool → A → A → A
if true then x else y = x
if false then x else y = y

pub Bool-cases : (b : Bool) → (b ≡ true) ⊎ (b ≡ false)
Bool-cases true = inl refl
Bool-cases false = inr refl

pub Option-cases {ℓ} : {A : Type ℓ} (o : Option A) → (o ≡ none) ⊎ ((a : A) × (o ≡ some a))
Option-cases none = inl refl
Option-cases (some a) = inr (a, refl)

abbrev pub is_some {ℓ} : {A : Type ℓ} → Option A → Bool
is_some none = false
is_some (some _) = true

-- A Boolean test that decides equality.
abbrev pub Decides {ℓ} : {A : Type ℓ} → (A → A → Bool) → Type ℓ
Decides {A} test = (a b : A) → (test a b ≡ true) ↔ (a ≡ b)

pub and_intro : {a b : Bool} → a ≡ true → b ≡ true → (a && b) ≡ true
and_intro p q = ground arith

pub and_left : (a b : Bool) → (a && b) ≡ true → a ≡ true
and_left a b h = ground arith

pub and_right : (a b : Bool) → (a && b) ≡ true → b ≡ true
and_right a b h = ground arith

-- A property of a value by cases, each with its equation.
module _ {R : Type 0} (P : R → Type 0) where
  pub if-cases :
      (b : Bool) (x y : R) → (b ≡ true → P x) → (b ≡ false → P y) → P (if b then x else y)
  if-cases true x y p q = p refl
  if-cases false x y p q = q refl

  pub option-cases :
      {A : Type 0} (o : Option A) (r : R) (f : A → R)
      → (o ≡ none → P r)
      → ((a : A) → o ≡ some a → P (f a))
      → P (elim o [ none ↦ r | some a ↦ f a ])
  option-cases none r f p q = p refl
  option-cases (some a) r f p q = q a refl

  pub sum-cases :
      {A B : Type 0} (o : A ⊎ B) (f : A → R) (g : B → R)
      → ((a : A) → o ≡ inl a → P (f a))
      → ((b : B) → o ≡ inr b → P (g b))
      → P (elim o [ inl a ↦ f a | inr b ↦ g b ])
  sum-cases (inl a) f g p q = p a refl
  sum-cases (inr b) f g p q = q b refl
