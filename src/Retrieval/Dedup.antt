-- ===== src/Retrieval/Dedup.antt =====
-- src/energy_agent/retrieval/dedup.py: `deduplicate_and_diversify`. `similar` says that both candidates have
-- an embedding and that the cosine of the two, a computation in floating point, is above the threshold.
use energy_agent_diagnosis.Common.{
  ℕ, ◌+◌, none, some, Bool, false, not, ◌&&◌, ◌||◌, List, [], ◌∷◌, ◌++◌, ◌==◌, string_eq, nat_eq,
  ltb, leb, length, any, all, find, contains, if◌then◌else◌,
}
use energy_agent_diagnosis.Retrieval.Candidates.{
  SourceType, manual, source_eq, identity_eq, count_key_eq, RetrievalCandidate, Identity, CountKey,
  identity, count_key,
}

pub record Limits : Type 0 where
  pub top_k : ℕ
  pub max_chunks_per_document : ℕ
  pub max_results_per_ticket : ℕ
  pub minimum_quality : ℕ

-- A candidate in a list of falling scores; the earlier of two with one score stays in front.
unfoldable pub insert : RetrievalCandidate → List RetrievalCandidate → List RetrievalCandidate
insert c [] = c ∷ []
insert c (x ∷ xs) =
    let rest = insert c xs in if leb x.final_score c.final_score then c ∷ x ∷ xs else x ∷ rest

-- `sorted(..., key=final_score, reverse=True)`
unfoldable pub by_score : List RetrievalCandidate → List RetrievalCandidate
unfolding insert
by_score [] = []
by_score (c ∷ cs) = insert c (by_score cs)

-- The variables of the loop; `counts` is the dictionary, 0 where it has no key.
pub record Selection : Type 0 where
  pub selected : List RetrievalCandidate
  pub identities : List Identity
  pub counts : CountKey → ℕ

abbrev pub nothing : Selection
nothing = record { selected = []; identities = []; counts = λ k. 0 }

abbrev pub limit : Limits → SourceType → ℕ
limit l s = if s == manual then l.max_chunks_per_document else l.max_results_per_ticket

module _ (similar : RetrievalCandidate → RetrievalCandidate → Bool) (l : Limits) where
  -- The three tests that pass over a candidate.
  abbrev pub is_skipped : Selection → RetrievalCandidate → Bool
  is_skipped s c =
      (ltb c.final_score l.minimum_quality || contains s.identities (identity c))
      || leb (limit l c.source_type) (s.counts (count_key c))
      || any (similar c) s.selected

  abbrev pub with_candidate : Selection → RetrievalCandidate → Selection
  with_candidate s c = record {
    selected = s.selected ++ c ∷ [];
    identities = identity c ∷ s.identities;
    counts = λ k. if count_key c == k then s.counts k + 1 else s.counts k;
  }

  -- The loop, which stops once `top_k` candidates are selected.
  unfoldable pub select : List RetrievalCandidate → Selection → Selection
  select [] s = s
  select (c ∷ cs) s =
      let skipped = select cs s in
      let taken = select cs (with_candidate s c) in
      if is_skipped s c
      then skipped
      else if length (s.selected ++ c ∷ []) == l.top_k
      then with_candidate s c
      else taken

  -- `item.source_type not in source_types`, and the rest of the alternate's tests.
  abbrev pub is_alternate : Selection → RetrievalCandidate → Bool
  is_alternate s c =
      not (any (λ x. x.source_type == c.source_type) s.selected)
      && not (ltb c.final_score l.minimum_quality)
      && not (contains s.identities (identity c))

  -- `len(source_types) == 1`: every candidate has the source of the first.
  abbrev pub is_uniform : List RetrievalCandidate → Bool
  is_uniform [] = false
  is_uniform (x ∷ xs) = all (λ y. y.source_type == x.source_type) xs

  -- `selected[-1] = alternate`
  unfoldable pub replace_last :
      RetrievalCandidate → List RetrievalCandidate → List RetrievalCandidate
  replace_last c [] = []
  replace_last c (x ∷ []) = c ∷ []
  replace_last c (x ∷ y ∷ ys) = x ∷ replace_last c (y ∷ ys)

  unfoldable pub diversify : List RetrievalCandidate → Selection → List RetrievalCandidate
  diversify ordered s =
      if is_uniform s.selected && leb 2 (length s.selected)
      then elim (find (is_alternate s) ordered) [
        | none ↦ s.selected
        | some c ↦ by_score (replace_last c s.selected)
      ]
      else s.selected

  unfoldable pub deduplicate_and_diversify : List RetrievalCandidate → List RetrievalCandidate
  deduplicate_and_diversify candidates =
      let ordered = by_score candidates in diversify ordered (select ordered nothing)
