-- ===== src/Retrieval/Selection.antt =====
-- The loop of `deduplicate_and_diversify` (src/energy_agent/retrieval/dedup.py): what its variables record.
use energy_agent_diagnosis.Common.{
  ◌≤◌, ◌<◌, Bool, false, List, [], ◌∷◌, ◌++◌, ◌≡◌, refl, arith, ltb, ◌==◌, contains, length, inl,
  inr, Bool-cases, length-append, nat_eq,
}
use mathlib.Core.Path.{subst}
use energy_agent_diagnosis.Retrieval.Candidates.{
  RetrievalCandidate, Identity, CountKey, identity, count_key, identity_eq, count_key_eq,
}
use energy_agent_diagnosis.Retrieval.Dedup.{
  Limits, Selection, nothing, limit, is_skipped, with_candidate, select,
}
use energy_agent_diagnosis.Retrieval.Counts.{count, count-append}

abbrev pub has_identity : Identity → RetrievalCandidate → Bool
has_identity i c = identity c == i

abbrev pub has_key : CountKey → RetrievalCandidate → Bool
has_key k c = count_key c == k

-- No identity stands twice, no source is above its limit, and no candidate is of too low a quality.
pub record IsDiverse (l : Limits) (xs : List RetrievalCandidate) : Type 0 where
  pub unique : (i : Identity) → count (has_identity i) xs ≤ 1
  pub limited : (k : CountKey) → count (has_key k) xs ≤ limit l k.0
  pub good : count (λ c. ltb c.final_score l.minimum_quality) xs ≡ 0

-- The set and the dictionary say what is selected.
pub record IsCounted (l : Limits) (s : Selection) : Type 0 where
  pub diverse : IsDiverse l s.selected
  pub known :
      (i : Identity) → contains s.identities i ≡ false → count (has_identity i) s.selected ≡ 0
  pub counted : (k : CountKey) → s.counts k ≡ count (has_key k) s.selected

pub nothing-IsCounted : (l : Limits) → IsCounted l nothing
nothing-IsCounted l = record {
  diverse = record { unique = λ i. omega arith; limited = λ k. omega arith; good = refl };
  known = λ i h. refl;
  counted = λ k. refl;
}

module _ (similar : RetrievalCandidate → RetrievalCandidate → Bool) (l : Limits) (s : Selection)
    (c : RetrievalCandidate) (counted : IsCounted l s)
    (taken : is_skipped similar l s c ≡ false) where
  with_unique : (i : Identity) → count (has_identity i) (s.selected ++ c ∷ []) ≤ 1
  with_unique i = elim (Bool-cases (has_identity i c)) [
    | inl same ↦
        let new : contains s.identities (identity c) ≡ false = ground (arith, taken) in
        let none_yet : count (has_identity i) s.selected ≡ 0 =
          subst (λ j. count (has_identity j) s.selected ≡ 0)
            ((identity_eq.equal_iff (identity c) i).0 same) (counted.known (identity c) new) in
        ground (arith, none_yet, count-append (has_identity i) s.selected c)
    | inr other ↦
        let before = counted.diverse.unique i in
        ground (arith, other, before, count-append (has_identity i) s.selected c)
  ]

  with_limited : (k : CountKey) → count (has_key k) (s.selected ++ c ∷ []) ≤ limit l k.0
  with_limited k = elim (Bool-cases (has_key k c)) [
    | inl same ↦
        let room : count (has_key (count_key c)) s.selected < limit l (count_key c).0 =
          let now = counted.counted (count_key c) in ground (arith, taken, now) in
        let room_k : count (has_key k) s.selected < limit l k.0 =
          subst (λ j. count (has_key j) s.selected < limit l j.0)
            ((count_key_eq.equal_iff (count_key c) k).0 same) room in
        ground (arith, room_k, same, count-append (has_key k) s.selected c)
    | inr other ↦
        let before = counted.diverse.limited k in
        ground (arith, other, before, count-append (has_key k) s.selected c)
  ]

  pub with_candidate-IsCounted : IsCounted l (with_candidate similar l s c)
  with_candidate-IsCounted = record {
    diverse = record {
      unique = with_unique;
      limited = with_limited;
      good =
          let before = counted.diverse.good in
          ground (
            arith,
            taken,
            before,
            count-append (λ c. ltb c.final_score l.minimum_quality) s.selected c,
          );
    };
    known = λ i h.
        let before = counted.known i in
        ground (arith, h, before, count-append (has_identity i) s.selected c);
    counted = λ k.
        let before = counted.counted k in
        ground (arith, before, count-append (has_key k) s.selected c);
  }

module _ (similar : RetrievalCandidate → RetrievalCandidate → Bool) (l : Limits) where
  pub select-IsCounted :
      (cs : List RetrievalCandidate) (s : Selection)
      → IsCounted l s
      → IsCounted l (select similar l cs s)
  unfolding select
  select-IsCounted [] s h = h
  select-IsCounted (c ∷ cs) s h = elim (Bool-cases (is_skipped similar l s c)) [
    | inl skip ↦ rw (select, skip) (select-IsCounted cs s h)
    | inr take ↦
        let next = with_candidate-IsCounted similar l s c h take in
        elim (Bool-cases (length (s.selected ++ c ∷ []) == l.top_k)) [
          | inl full ↦ rw (select, take, full) next
          | inr room ↦
              rw (select, take, room) (select-IsCounted cs (with_candidate similar l s c) next)
        ]
  ]

  -- With room for one candidate at least, the loop does not go above `top_k`.
  pub select-length :
      (cs : List RetrievalCandidate) (s : Selection)
      → length s.selected < l.top_k
      → length ((select similar l cs s).selected) ≤ l.top_k
  unfolding select
  select-length [] s h = omega (arith, h)
  select-length (c ∷ cs) s h =
      let grows = length-append s.selected (c ∷ []) in
      let skipped = select-length cs s h in
      let taken : length (s.selected ++ c ∷ []) < l.top_k
          → length ((select similar l cs (with_candidate similar l s c)).selected) ≤ l.top_k =
        select-length cs (with_candidate similar l s c) in
      ground (arith, h, grows, skipped, taken)
