-- ===== src/Common/Tests.antt =====
-- Boolean tests: one `==` for every type with an instance, the orders on numbers, the conditional,
-- and Python's truth of an optional text.
use Prim.Native.Nat.{ℕ, compare, Ordering}
use Prim.Native.String.{String}
use mathlib.Core.Path.{◌≡◌, refl, ap}
use mathlib.Core.Logic.{◌↔◌, ◌⊎◌, inl, inr}
use mathlib.Core.Bool.{Bool, true, false, not, ◌&&◌}
use mathlib.Core.Option.{Option, none, some}
use native.Mathlib.Omega.{arith}
use text.Mathlib.Text.{◌==◌ as text_eq}
use text.Mathlib.TextEquality.{eq_iff}

pub record Eq {ℓ} (A : Type ℓ) : Type ℓ where
  pub equal : A → A → Bool
  pub equal_iff : (x y : A) → (equal x y ≡ true) ↔ (x ≡ y)

infix 50 ◌==◌
abbrev pub ◌==◌ {ℓ} : {A : Type ℓ} ⦃test : Eq A⦄ → A → A → Bool
◌==◌ ⦃test⦄ = test.equal

abbrev pub ltb : ℕ → ℕ → Bool
ltb a b = elim (compare a b) [ Ordering.lt ↦ true | _ ↦ false ]

abbrev pub leb : ℕ → ℕ → Bool
leb a b = elim (compare a b) [ Ordering.gt ↦ false | _ ↦ true ]

abbrev pub nat_beq : ℕ → ℕ → Bool
nat_beq a b = elim (compare a b) [ Ordering.eq ↦ true | _ ↦ false ]

pub nat_beq_iff : (a b : ℕ) → (nat_beq a b ≡ true) ↔ (a ≡ b)
nat_beq_iff a b = ground arith

instance abbrev pub nat_eq : Eq ℕ
nat_eq = record { equal = nat_beq; equal_iff = nat_beq_iff }

abbrev pub pair_beq {ℓ ℓ'} : {A : Type ℓ} {B : Type ℓ'} → Eq A → Eq B → A × B → A × B → Bool
pair_beq e f x y = e.equal x.0 y.0 && f.equal x.1 y.1

pub pair_beq_iff {ℓ ℓ'} :
    {A : Type ℓ} {B : Type ℓ'} (e : Eq A) (f : Eq B) (x y : A × B)
    → (pair_beq e f x y ≡ true) ↔ (x ≡ y)
pair_beq_iff e f x y = (
  (λ h.
      let a = (e.equal_iff x.0 y.0).0 (ground (arith, h)) in
      let b = (f.equal_iff x.1 y.1).0 (ground (arith, h)) in λ i. (a i, b i)),
  (λ h.
      let a = (e.equal_iff x.0 y.0).1 (ap (λ p. p.0) h) in
      let b = (f.equal_iff x.1 y.1).1 (ap (λ p. p.1) h) in ground (arith, a, b)),
)

abbrev pub pair_eq {ℓ ℓ'} : {A : Type ℓ} {B : Type ℓ'} → Eq A → Eq B → Eq (A × B)
pair_eq e f = record { equal = pair_beq e f; equal_iff = pair_beq_iff e f }

infix 1 if◌then◌else◌
abbrev pub if◌then◌else◌ {ℓ} : {A : Type ℓ} → Bool → A → A → A
if true then x else y = x
if false then x else y = y

pub Bool-cases : (b : Bool) → (b ≡ true) ⊎ (b ≡ false)
Bool-cases true = inl refl
Bool-cases false = inr refl

pub Option-cases {ℓ} : {A : Type ℓ} (o : Option A) → (o ≡ none) ⊎ ((a : A) × (o ≡ some a))
Option-cases none = inl refl
Option-cases (some a) = inr (a, refl)

-- A property of a conditional is one of both branches, each under its condition.
pub if-elim {ℓ ℓ'} :
    {A : Type ℓ} (P : A → Type ℓ') (b : Bool) (x y : A)
    → (b ≡ true → P x)
    → (b ≡ false → P y)
    → P (if b then x else y)
if-elim P true x y f g = f refl
if-elim P false x y f g = g refl

-- The same for a case distinction of an optional value.
pub option-elim {ℓ ℓ' ℓ''} :
    {A : Type ℓ} {B : Type ℓ'} (P : B → Type ℓ'') (o : Option A) (x : B) (f : A → B)
    → P x
    → ((a : A) → P (f a))
    → P (elim o as (λ _. B) [ none ↦ x | some a ↦ f a ])
option-elim P none x f p q = p
option-elim P (some a) x f p q = q a

instance abbrev pub string_eq : Eq String
string_eq = record { equal = text_eq; equal_iff = eq_iff }

-- `bool(text)`: the empty text is false.
abbrev pub truthy : String → Bool
truthy s = not (text_eq s "")

-- `bool(text)` where the text may be `None`.
abbrev pub truthy? : Option String → Bool
truthy? none = false
truthy? (some s) = truthy s

abbrev pub is_some {ℓ} : {A : Type ℓ} → Option A → Bool
is_some none = false
is_some (some _) = true
