-- ===== src/Common/Lists.antt =====
-- Lists counted by native numbers, and the Boolean folds that the source writes as comprehensions.
use Prim.Native.Nat.{ℕ, zero, suc, ◌+◌}
use mathlib.Core.Path.{◌≡◌, refl}
use mathlib.Core.Logic.{◌≢◌}
use mathlib.Core.Bool.{Bool, true, false, ◌&&◌, ◌||◌}
use mathlib.Core.List.{List, [], ◌∷◌, ◌++◌}
use mathlib.Core.Option.{Option, none, some}
use native.Mathlib.Omega.{arith}
use energy_agent_diagnosis.Common.Tests.{if◌then◌else◌, Eq, ◌==◌}

module _ {ℓ} {A : Type ℓ} where
  abbrev pub length : List A → ℕ
  length [] = 0
  length (x ∷ xs) = suc (length xs)

  pub length-append : (xs ys : List A) → length (xs ++ ys) ≡ length xs + length ys
  length-append [] ys = omega arith
  length-append (x ∷ xs) ys = omega (arith, length-append xs ys)

  pub append_empty : (xs ys : List A) → xs ++ ys ≡ [] → (xs ≡ []) × (ys ≡ [])
  append_empty [] ys h = (refl, h)
  append_empty (x ∷ xs) ys h = absurd (ground (arith, h))

  abbrev pub take : ℕ → List A → List A
  take zero xs = []
  take (suc n) [] = []
  take (suc n) (x ∷ xs) = x ∷ take n xs

  -- `any(p(x) for x in xs)`
  abbrev pub any : (A → Bool) → List A → Bool
  any p [] = false
  any p (x ∷ xs) = p x || any p xs

  -- `all(p(x) for x in xs)`
  abbrev pub all : (A → Bool) → List A → Bool
  all p [] = true
  all p (x ∷ xs) = p x && all p xs

  -- `[x for x in xs if p(x)]`
  abbrev pub keep : (A → Bool) → List A → List A
  keep p [] = []
  keep p (x ∷ xs) = let rest = keep p xs in if p x then x ∷ rest else rest

  abbrev pub find : (A → Bool) → List A → Option A
  find p [] = none
  find p (x ∷ xs) = let rest = find p xs in if p x then some x else rest

module _ {ℓ} {A : Type ℓ} ⦃e : Eq A⦄ where
  abbrev pub contains : List A → A → Bool
  contains xs a = any (λ x. x == a) xs

-- A property of every element.
pub data Every {ℓ ℓ'} {A : Type ℓ} (P : A → Type ℓ') : List A → Type (ℓ ⊔ ℓ') where
  nil : Every P []
  cons : {x : A} {xs : List A} → P x → Every P xs → Every P (x ∷ xs)

-- No two elements are the same.
pub data Distinct {ℓ} {A : Type ℓ} : List A → Type ℓ where
  no_elements : Distinct []
  one_other : {x : A} {xs : List A} → Every (λ y. x ≢ y) xs → Distinct xs → Distinct (x ∷ xs)

pub Every-map {ℓ ℓ' ℓ''} :
    {A : Type ℓ} {P : A → Type ℓ'} {Q : A → Type ℓ''}
    → ((a : A) → P a → Q a)
    → {xs : List A} → Every P xs
    → Every Q xs
Every-map f nil = nil
Every-map f (cons {x = x} p ps) = cons (f x p) (Every-map f ps)
