-- ===== src/Retrieval/Diversity.antt =====
-- The result of `deduplicate_and_diversify` (src/energy_agent/retrieval/dedup.py), with its alternate.
use energy_agent_diagnosis.Common.{
  ◌≤◌, Bool, true, false, ◌&&◌, List, [], ◌∷◌, ◌≡◌, refl, arith, leb, ltb, ◌==◌, any, contains,
  length, inl, inr, Bool-cases, some, Option-cases, find, nat_eq,
}
use mathlib.Core.Path.{subst}
use energy_agent_diagnosis.Retrieval.Candidates.{
  RetrievalCandidate, identity, count_key, identity_eq, count_key_eq, source_eq,
}
use energy_agent_diagnosis.Retrieval.Dedup.{
  Limits, Selection, nothing, select, is_alternate, is_uniform, by_score, replace_last, diversify,
  deduplicate_and_diversify,
}
use energy_agent_diagnosis.Retrieval.Counts.{
  count, count-by_score, count-replace_last, length-by_score, length-replace_last,
}
use energy_agent_diagnosis.Retrieval.Selection.{
  has_identity, has_key, IsDiverse, IsCounted, nothing-IsCounted, select-IsCounted, select-length,
}

find-holds :
    (p : RetrievalCandidate → Bool) (xs : List RetrievalCandidate) (c : RetrievalCandidate)
    → find p xs ≡ some c
    → p c ≡ true
find-holds p [] c h = absurd (ground (arith, h))
find-holds p (x ∷ xs) c h = elim (Bool-cases (p x)) [
  | inl yes_x ↦ let q : x ≡ c = ground (arith, h, yes_x) in subst (λ y. p y ≡ true) q yes_x
  | inr no_x ↦ find-holds p xs c (ground (arith, h, no_x))
]

-- A source type that no candidate has: its sources are not counted.
no_source :
    (c : RetrievalCandidate) (xs : List RetrievalCandidate)
    → any (λ x. x.source_type == c.source_type) xs ≡ false
    → count (has_key (count_key c)) xs ≡ 0
no_source c [] h = refl
no_source c (x ∷ xs) h =
    let rest : any (λ x. x.source_type == c.source_type) xs ≡ false
        → count (has_key (count_key c)) xs ≡ 0 =
      no_source c xs in
    ground (arith, h, rest)

module _ (similar : RetrievalCandidate → RetrievalCandidate → Bool) (l : Limits) (s : Selection)
    (c : RetrievalCandidate) (counted : IsCounted l s) (chunks : 1 ≤ l.max_chunks_per_document)
    (results : 1 ≤ l.max_results_per_ticket) (alternate : is_alternate similar l s c ≡ true) where
  alternate-IsDiverse : IsDiverse l (by_score (replace_last similar l c s.selected))
  alternate-IsDiverse = record {
    unique = λ i. elim (Bool-cases (has_identity i c)) [
      | inl same ↦
          let new : contains s.identities (identity c) ≡ false = ground (arith, alternate) in
          let none_yet : count (has_identity i) s.selected ≡ 0 =
            subst (λ j. count (has_identity j) s.selected ≡ 0)
              ((identity_eq.equal_iff (identity c) i).0 same) (counted.known (identity c) new) in
          ground (
            arith,
            none_yet,
            same,
            count-by_score (has_identity i) (replace_last similar l c s.selected),
            count-replace_last (has_identity i) similar l c s.selected,
          )
      | inr other ↦
          let before = counted.diverse.unique i in
          ground (
            arith,
            other,
            before,
            count-by_score (has_identity i) (replace_last similar l c s.selected),
            count-replace_last (has_identity i) similar l c s.selected,
          )
    ];
    limited = λ k. elim (Bool-cases (has_key k c)) [
      | inl same ↦
          let new : count (has_key (count_key c)) s.selected ≡ 0 =
            no_source c s.selected (ground (arith, alternate)) in
          let none_yet : count (has_key k) s.selected ≡ 0 =
            subst (λ j. count (has_key j) s.selected ≡ 0)
              ((count_key_eq.equal_iff (count_key c) k).0 same) new in
          ground (
            arith,
            chunks,
            results,
            none_yet,
            same,
            count-by_score (has_key k) (replace_last similar l c s.selected),
            count-replace_last (has_key k) similar l c s.selected,
          )
      | inr other ↦
          let before = counted.diverse.limited k in
          ground (
            arith,
            other,
            before,
            count-by_score (has_key k) (replace_last similar l c s.selected),
            count-replace_last (has_key k) similar l c s.selected,
          )
    ];
    good =
        let before = counted.diverse.good in
        let bad : RetrievalCandidate → Bool = λ x. ltb x.final_score l.minimum_quality in
        ground (
          arith,
          alternate,
          before,
          count-by_score bad (replace_last similar l c s.selected),
          count-replace_last bad similar l c s.selected,
        );
  }

module _ (similar : RetrievalCandidate → RetrievalCandidate → Bool) (l : Limits) where
  diversify-IsDiverse :
      (ordered : List RetrievalCandidate) (s : Selection)
      → IsCounted l s
      → 1 ≤ l.max_chunks_per_document
      → 1 ≤ l.max_results_per_ticket
      → IsDiverse l (diversify similar l ordered s)
  unfolding diversify
  diversify-IsDiverse ordered s counted chunks results =
      elim (Bool-cases (is_uniform similar l s.selected && leb 2 (length s.selected))) [
        | inr mixed ↦ rw (diversify, mixed) counted.diverse
        | inl uniform ↦ elim (Option-cases (find (is_alternate similar l s) ordered)) [
          | inl no_other ↦ rw (diversify, uniform, no_other) counted.diverse
          | inr (c, found) ↦
              rw (diversify, uniform, found)
                (alternate-IsDiverse similar l s c counted chunks results
                  (find-holds (is_alternate similar l s) ordered c found))
        ]
      ]

  diversify-length :
      (ordered : List RetrievalCandidate) (s : Selection)
      → length (diversify similar l ordered s) ≡ length s.selected
  unfolding diversify
  diversify-length ordered s =
      elim (Bool-cases (is_uniform similar l s.selected && leb 2 (length s.selected))) [
        | inr mixed ↦ rw (diversify, mixed) refl
        | inl uniform ↦ elim (Option-cases (find (is_alternate similar l s) ordered)) [
          | inl no_other ↦ rw (diversify, uniform, no_other) refl
          | inr (c, found) ↦
              rw (diversify, uniform, found, length-by_score, length-replace_last) refl
        ]
      ]

  -- The evidence that is selected, the alternate of another source included, has no identity twice, no more
  -- chunks of a document or results of a ticket than its limit, and nothing below the least quality. Each
  -- limit is one at least.
  pub deduplicate-IsDiverse :
      (candidates : List RetrievalCandidate)
      → 1 ≤ l.max_chunks_per_document
      → 1 ≤ l.max_results_per_ticket
      → IsDiverse l (deduplicate_and_diversify similar l candidates)
  unfolding deduplicate_and_diversify
  deduplicate-IsDiverse candidates chunks results =
      diversify-IsDiverse (by_score candidates) _
        (select-IsCounted similar l (by_score candidates) nothing (nothing-IsCounted l)) chunks
        results

  -- With a `top_k` of one at least, no more than `top_k` candidates are selected.
  deduplicate-length :
      (candidates : List RetrievalCandidate)
      → 1 ≤ l.top_k
      → length (deduplicate_and_diversify similar l candidates) ≤ l.top_k
  unfolding deduplicate_and_diversify
  deduplicate-length candidates h =
      let ordered = by_score candidates in
      let same = diversify-length ordered (select similar l ordered nothing) in
      omega (arith, same, select-length similar l ordered nothing (omega (arith, h)))
