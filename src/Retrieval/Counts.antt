-- ===== src/Retrieval/Counts.antt =====
-- Counting the candidates of a list that pass a test, through the operations of
-- src/energy_agent/retrieval/dedup.py on its lists.
use energy_agent_diagnosis.Common.{
  ℕ, ◌+◌, ◌≤◌, Bool, true, List, [], ◌∷◌, ◌++◌, ◌≡◌, refl, arith, length, if◌then◌else◌,
}
use energy_agent_diagnosis.Retrieval.Candidates.{RetrievalCandidate}
use energy_agent_diagnosis.Retrieval.Dedup.{Limits, insert, by_score, replace_last}

-- `sum(p(x) for x in xs)`
abbrev pub count {ℓ} : {A : Type ℓ} → (A → Bool) → List A → ℕ
count p [] = 0
count p (x ∷ xs) = (if p x then 1 else 0) + count p xs

module _ (p : RetrievalCandidate → Bool) where
  pub count-append :
      (xs : List RetrievalCandidate) (c : RetrievalCandidate)
      → count p (xs ++ c ∷ []) ≡ count p xs + (if p c then 1 else 0)
  count-append [] c = omega arith
  count-append (x ∷ xs) c = omega (arith, count-append xs c)

  count-insert :
      (c : RetrievalCandidate) (xs : List RetrievalCandidate)
      → count p (insert c xs) ≡ (if p c then 1 else 0) + count p xs
  unfolding insert
  count-insert c [] = refl
  count-insert c (x ∷ xs) = ground (arith, count-insert c xs)

  -- Sorting loses and adds nothing.
  pub count-by_score : (xs : List RetrievalCandidate) → count p (by_score xs) ≡ count p xs
  unfolding by_score
  count-by_score [] = refl
  count-by_score (x ∷ xs) = ground (arith, count-insert x (by_score xs), count-by_score xs)

  pub count-replace_last :
      (similar : RetrievalCandidate → RetrievalCandidate → Bool) (l : Limits)
      (c : RetrievalCandidate) (xs : List RetrievalCandidate)
      → count p (replace_last similar l c xs) ≤ count p xs + (if p c then 1 else 0)
  unfolding replace_last
  count-replace_last similar l c [] = omega arith
  count-replace_last similar l c (x ∷ []) = ground arith
  count-replace_last similar l c (x ∷ y ∷ ys) =
      omega (arith, count-replace_last similar l c (y ∷ ys))

length-count : (xs : List RetrievalCandidate) → length xs ≡ count (λ _. true) xs
length-count [] = refl
length-count (x ∷ xs) = omega (arith, length-count xs)

pub length-by_score : (xs : List RetrievalCandidate) → length (by_score xs) ≡ length xs
length-by_score xs =
    omega (arith, length-count (by_score xs), length-count xs, count-by_score (λ _. true) xs)

pub length-replace_last :
    (similar : RetrievalCandidate → RetrievalCandidate → Bool) (l : Limits) (c : RetrievalCandidate)
    (xs : List RetrievalCandidate)
    → length (replace_last similar l c xs) ≡ length xs
unfolding replace_last
length-replace_last similar l c [] = refl
length-replace_last similar l c (x ∷ []) = refl
length-replace_last similar l c (x ∷ y ∷ ys) =
    omega (arith, length-replace_last similar l c (y ∷ ys))
