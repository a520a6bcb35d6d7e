-- ===== src/Common/Table.antt =====
-- A database table: rows under a text key, in the order in which they were added.
use Prim.Native.Nat.{ℕ, ◌+◌}
use Prim.Native.String.{String}
use mathlib.Core.Path.{◌≡◌, refl, subst, subst₂, ap, ◌∙◌}
use mathlib.Core.Logic.{inl, inr}
use mathlib.Core.Bool.{Bool}
use mathlib.Core.Option
use mathlib.Core.Option.{Option, none, some}
use mathlib.Core.List.{List, [], ◌∷◌, ◌++◌}
use native.Mathlib.Omega.{arith}
use text.Mathlib.TextEquality.{eq_iff}
use text.Mathlib.TextPositions.{eq_refl}
use energy_agent_diagnosis.Common.Tests.{◌==◌, if◌then◌else◌, string_eq, Bool-cases, Option-cases}

abbrev pub Table {ℓ} : Type ℓ → Type ℓ
Table A = List (String × A)

module _ {ℓ} {A : Type ℓ} where
  -- `session.get(Model, key)`
  unfoldable pub get : String → Table A → Option A
  get k [] = none
  get k ((j, a) ∷ t) = if j == k then some a else get k t

  -- An assignment to the fields of the row under `k`, committed.
  unfoldable pub modify : String → (A → A) → Table A → Table A
  modify k f [] = []
  modify k f ((j, a) ∷ t) = if j == k then (j, f a) ∷ t else (j, a) ∷ modify k f t

  -- `update(Model).where(p).values(f)`
  unfoldable pub update_where : (A → Bool) → (A → A) → Table A → Table A
  update_where p f [] = []
  update_where p f ((j, a) ∷ t) = (j, (if p a then f a else a)) ∷ update_where p f t

  -- `select(func.count()).where(p)`
  unfoldable pub count_where : (A → Bool) → Table A → ℕ
  count_where p [] = 0
  count_where p ((j, a) ∷ t) = (if p a then 1 else 0) + count_where p t

  -- `session.add(row)`
  abbrev pub add : String → A → Table A → Table A
  add k a t = t ++ (k, a) ∷ []

module _ {ℓ} {A : Type ℓ} where
  pub get-modify :
      (k j : String) (f : A → A) (t : Table A)
      → get j (modify k f t) ≡ (if k == j then Option.map f (get j t) else get j t)
  unfolding get modify
  get-modify k j f [] = ground arith
  get-modify k j f ((i, a) ∷ t) =
      ground (arith, eq_iff k j, eq_iff i k, eq_iff i j, get-modify k j f t)

  pub get-modify_self :
      (k : String) (f : A → A) (t : Table A) (a : A)
      → get k t ≡ some a
      → get k (modify k f t) ≡ some (f a)
  get-modify_self k f t a h = rw (get-modify, eq_refl, h)

  pub get-update_where :
      (k : String) (p : A → Bool) (f : A → A) (t : Table A)
      → get k (update_where p f t) ≡ Option.map (λ a. if p a then f a else a) (get k t)
  unfolding get update_where
  get-update_where k p f [] = refl
  get-update_where k p f ((i, a) ∷ t) = ground (arith, get-update_where k p f t)

  pub get-add :
      (k j : String) (a : A) (t : Table A)
      → get j (add k a t)
        ≡ elim (get j t) [ some b ↦ some b | none ↦ if k == j then some a else none ]
  unfolding get
  get-add k j a [] = refl
  get-add k j a ((i, b) ∷ t) = ground (arith, get-add k j a t)

  -- A changed row leaves the count as it was, or moves it by one.
  pub count-modify :
      (k : String) (p : A → Bool) (f : A → A) (t : Table A) (a : A)
      → get k t ≡ some a
      → count_where p (modify k f t) + (if p a then 1 else 0)
        ≡ count_where p t + (if p (f a) then 1 else 0)
  unfolding get modify count_where
  count-modify k p f [] a h = ground arith
  count-modify k p f ((j, b) ∷ t) a h = ground (arith, count-modify k p f t a)

  pub modify_missing : (k : String) (f : A → A) (t : Table A) → get k t ≡ none → modify k f t ≡ t
  unfolding get modify
  modify_missing k f [] h = refl
  modify_missing k f ((j, b) ∷ t) h = ground (arith, modify_missing k f t)

  pub count-add :
      (k : String) (p : A → Bool) (a : A) (t : Table A)
      → count_where p (add k a t) ≡ count_where p t + (if p a then 1 else 0)
  unfolding count_where
  count-add k p a [] = ground arith
  count-add k p a ((j, b) ∷ t) = omega (arith, count-add k p a t)

-- A property of every row that a key finds, and of the key.
abbrev pub Holds {ℓ} : {A : Type ℓ} → (String → A → Type 0) → Table A → Type ℓ
Holds {A} P t = (k : String) (a : A) → get k t ≡ some a → P k a

map_eq_some {ℓ} :
    {A : Type ℓ} (f : A → A) (o : Option A) (b : A)
    → Option.map f o ≡ some b
    → (a : A) × (o ≡ some a) × (f a ≡ b)
map_eq_some f none b h = cc
map_eq_some f (some a) b h = (a, refl, cc)

module _ {ℓ} {A : Type ℓ} (P : String → A → Type 0) where
  -- The rows of other keys are as they were.
  pub Holds-modify :
      (k : String) (f : A → A) (t : Table A)
      → ((a : A) → get k t ≡ some a → P k a → P k (f a))
      → Holds P t
      → Holds P (modify k f t)
  Holds-modify k f t step h j b e = elim (Bool-cases (k == j)) [
    | inl same ↦
        let at : k ≡ j = (eq_iff k j).0 same in
        let found : Option.map f (get j t) ≡ some b = rw (get-modify, same) at e in
        let (a, row, image) = map_eq_some f (get j t) b found in
        let row' : get k t ≡ some a = ap (λ i. get i t) at ∙ row in
        subst₂ P at image (step a row' (h k a row'))
    | inr other ↦ h j b (rw (get-modify, other) at e)
  ]

  pub Holds-add : (k : String) (a : A) (t : Table A) → P k a → Holds P t → Holds P (add k a t)
  Holds-add k a t p h j b e = elim (Option-cases (get j t)) [
    | inl gone ↦ elim (Bool-cases (k == j)) [
      | inl same ↦
          let q : a ≡ b = ground (arith, get-add k j a t) in subst₂ P ((eq_iff k j).0 same) q p
      | inr other ↦ absurd (ground (arith, get-add k j a t))
    ]
    | inr (c, row) ↦ let q : c ≡ b = ground (arith, get-add k j a t) in subst (P j) q (h j c row)
  ]
