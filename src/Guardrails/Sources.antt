-- ===== src/Guardrails/Sources.antt =====
-- The sources that `check_output` of src/energy_agent/guardrails/output.py counts for an action.
use mathlib.Core.Path.{subst}
use energy_agent_diagnosis.Common.{
  ◌≤◌, String, none, some, true, false, List, [], ◌∷◌, ◌==◌, string_eq, contains, ◌≡◌, ◌≢◌, ◌↔◌,
  refl, ap, ◌∙◌, arith, inl, inr, Bool-cases, ◌||◌, Option-cases, option-elim, if-elim, Every, nil,
  cons, Distinct, no_elements, one_other, length, eq_iff, eq_refl,
}
use energy_agent_diagnosis.Guardrails.Decisions.{Evidence}
use energy_agent_diagnosis.Guardrails.Checks.{source_of, source_types, is_context}

-- The source of a reference: that of the last piece of evidence with its id.
pub data SourceOf (ref : String) : List Evidence → String → Type 0 where
  last_one :
      {e : Evidence} {es : List Evidence}
      → e.evidence_id ≡ ref
      → Every (λ x. x.evidence_id ≢ ref) es
      → SourceOf ref (e ∷ es) e.source_type
  in_rest :
      {e : Evidence} {es : List Evidence} {s : String} → SourceOf ref es s → SourceOf ref (e ∷ es) s

-- A source that a reference of the action names and that is evidence of its own.
pub record Cites (evidence : List Evidence) (refs : List String) (s : String) : Type 0 where
  pub ref : String
  pub refers : contains refs ref ≡ true
  pub names : SourceOf ref evidence s
  pub no_graph : s ≢ "graph"
  pub no_device : s ≢ "device"
  pub no_alarm : s ≢ "alarm"

-- Two different sources.
pub record TwoSources (evidence : List Evidence) (refs : List String) : Type 0 where
  pub one : String
  pub other : String
  pub different : one ≢ other
  pub cites_one : Cites evidence refs one
  pub cites_other : Cites evidence refs other

source_of-none :
    (evidence : List Evidence) (ref : String)
    → source_of evidence ref ≡ none
    → Every (λ x. x.evidence_id ≢ ref) evidence
unfolding source_of
source_of-none [] ref h = nil
source_of-none (e ∷ es) ref h = elim (Option-cases (source_of es ref)) [
  | inl gone ↦
      cons (λ same. ground (arith, h, gone, same, eq_iff e.evidence_id ref))
        (source_of-none es ref gone)
  | inr (s, found) ↦ absurd (ground (arith, h, found))
]

missing_source :
    (evidence : List Evidence) (ref : String)
    → Every (λ x. x.evidence_id ≢ ref) evidence
    → source_of evidence ref ≡ none
unfolding source_of
missing_source [] ref nil = refl
missing_source (e ∷ es) ref (cons d ds) =
    let rest = missing_source es ref ds in ground (arith, rest, d, eq_iff e.evidence_id ref)

source_of-SourceOf :
    (evidence : List Evidence) (ref s : String)
    → source_of evidence ref ≡ some s
    → SourceOf ref evidence s
unfolding source_of
source_of-SourceOf [] ref s h = absurd (ground (arith, h))
source_of-SourceOf (e ∷ es) ref s h = elim (Option-cases (source_of es ref)) [
  | inl gone ↦
      let same : e.evidence_id ≡ ref = ground (arith, h, gone, eq_iff e.evidence_id ref) in
      let at : e.source_type ≡ s = ground (arith, h, gone, same, eq_iff e.evidence_id ref) in
      subst (SourceOf ref (e ∷ es)) at (last_one same (source_of-none es ref gone))
  | inr (t, found) ↦ in_rest (source_of-SourceOf es ref s (ground (arith, h, found)))
]

SourceOf-source_of :
    {ref : String} {evidence : List Evidence} {s : String}
    → SourceOf ref evidence s
    → source_of evidence ref ≡ some s
unfolding source_of
SourceOf-source_of {ref} (last_one {e} {es} same ds) =
    let rest = missing_source es ref ds in ground (arith, rest, same, eq_iff e.evidence_id ref)
SourceOf-source_of (in_rest r) = let found = SourceOf-source_of r in ground (arith, found)

is_context_iff :
    (s : String) → (is_context s ≡ false) ↔ ((s ≢ "graph") × (s ≢ "device") × (s ≢ "alarm"))
is_context_iff s = (
  (λ h. (
    (λ e. ground (arith, h, e, eq_iff "graph" s)),
    (λ e. ground (arith, h, e, eq_iff "device" s)),
    (λ e. ground (arith, h, e, eq_iff "alarm" s)),
  )),
  (λ (g, d, a). ground (arith, g, d, a, eq_iff "graph" s, eq_iff "device" s, eq_iff "alarm" s)),
)

-- A reference more takes no source away.
Cites-more :
    (evidence : List Evidence) (r : String) (refs : List String) (s : String)
    → Cites evidence refs s
    → Cites evidence (r ∷ refs) s
Cites-more evidence r refs s c =
    let known = c.refers in
    record {
      ref = c.ref;
      refers = ground (arith, known);
      names = c.names;
      no_graph = c.no_graph;
      no_device = c.no_device;
      no_alarm = c.no_alarm;
    }

Cites-first :
    (evidence : List Evidence) (r : String) (refs : List String) (s : String)
    → source_of evidence r ≡ some s
    → is_context s ≡ false
    → Cites evidence (r ∷ refs) s
Cites-first evidence r refs s at own =
    let (graph, device, alarm) = (is_context_iff s).0 own in
    record {
      ref = r;
      refers = ground (arith, eq_refl r);
      names = source_of-SourceOf evidence r s at;
      no_graph = graph;
      no_device = device;
      no_alarm = alarm;
    }

contains-source_types :
    (evidence : List Evidence) (refs : List String) (s : String)
    → contains (source_types evidence refs) s ≡ true
    → Cites evidence refs s
unfolding source_types
contains-source_types evidence [] s h = absurd (ground (arith, h))
contains-source_types evidence (r ∷ refs) s h =
    let rest = λ (m : contains (source_types evidence refs) s ≡ true).
      Cites-more evidence r refs s (contains-source_types evidence refs s m) in
    elim (Option-cases (source_of evidence r)) [
      | inl gone ↦ rest (ground (arith, h, gone))
      | inr (t, at) ↦ elim (Bool-cases (is_context t || contains (source_types evidence refs) t)) [
        | inl old ↦ rest (ground (arith, h, at, old))
        | inr new ↦ elim (Bool-cases (t == s)) [
          | inl same ↦
              subst (Cites evidence (r ∷ refs)) ((eq_iff t s).0 same)
                (Cites-first evidence r refs t at (ground (arith, new)))
          | inr other ↦ rest (ground (arith, h, at, new, other))
        ]
      ]
    ]

source_of-contains :
    (evidence : List Evidence) (refs : List String) (s ref : String)
    → contains refs ref ≡ true
    → source_of evidence ref ≡ some s
    → is_context s ≡ false
    → contains (source_types evidence refs) s ≡ true
unfolding source_types
source_of-contains evidence [] s ref h at own = absurd (ground (arith, h))
source_of-contains evidence (r ∷ refs) s ref h at own = elim (Bool-cases (r == ref)) [
  | inl same ↦
      let at' : source_of evidence r ≡ some s =
        ap (source_of evidence) ((eq_iff r ref).0 same) ∙ at in
      ground (arith, at', own, eq_refl s)
  | inr other ↦
      let later : contains (source_types evidence refs) s ≡ true =
        source_of-contains evidence refs s ref (ground (arith, h, other)) at own in
      elim (Option-cases (source_of evidence r)) [
        | inl gone ↦ ground (arith, gone, later)
        | inr (t, found) ↦ ground (arith, found, later)
      ]
]

Cites-contains :
    (evidence : List Evidence) (refs : List String) (s : String)
    → Cites evidence refs s
    → contains (source_types evidence refs) s ≡ true
Cites-contains evidence refs s c =
    source_of-contains evidence refs s c.ref c.refers (SourceOf-source_of c.names)
      ((is_context_iff s).1 (c.no_graph, c.no_device, c.no_alarm))

apart : (xs : List String) (x : String) → contains xs x ≡ false → Every (λ y. x ≢ y) xs
apart [] x h = nil
apart (y ∷ ys) x h = cons (λ e. ground (arith, h, e, eq_iff y x)) (apart ys x (ground (arith, h)))

source_types-Distinct :
    (evidence : List Evidence) (refs : List String) → Distinct (source_types evidence refs)
unfolding source_types
source_types-Distinct evidence [] = no_elements
source_types-Distinct evidence (r ∷ refs) =
    let rest = source_types-Distinct evidence refs in
    option-elim Distinct (source_of evidence r) _ _ rest (λ t.
      if-elim Distinct (is_context t || contains (source_types evidence refs) t) _ _ (λ old. rest)
        (λ new. one_other (apart (source_types evidence refs) t (ground (arith, new))) rest))

two_of :
    (evidence : List Evidence) (refs xs : List String)
    → ((s : String) → contains xs s ≡ true → Cites evidence refs s)
    → Distinct xs
    → 2 ≤ length xs
    → TwoSources evidence refs
two_of evidence refs [] cited d h = absurd (ground (arith, h))
two_of evidence refs (x ∷ []) cited d h = absurd (ground (arith, h))
two_of evidence refs (x ∷ y ∷ xs) cited (one_other (cons other others) ds) h = record {
  one = x;
  other = y;
  different = other;
  cites_one = cited x (ground (arith, eq_refl x));
  cites_other = cited y (ground (arith, eq_refl y));
}

at_least_two :
    (xs : List String) (s t : String)
    → s ≢ t
    → contains xs s ≡ true
    → contains xs t ≡ true
    → 2 ≤ length xs
at_least_two [] s t d hs ht = absurd (ground (arith, hs))
at_least_two (x ∷ []) s t d hs ht = ground (arith, d, hs, ht, eq_iff x s, eq_iff x t)
at_least_two (x ∷ y ∷ xs) s t d hs ht = omega arith

-- The set of the counted sources has two or more exactly if two different sources are cited.
pub length-source_types-TwoSources :
    (evidence : List Evidence) (refs : List String)
    → (2 ≤ length (source_types evidence refs)) ↔ TwoSources evidence refs
length-source_types-TwoSources evidence refs = (
  two_of evidence refs (source_types evidence refs) (contains-source_types evidence refs)
      (source_types-Distinct evidence refs),
  (λ c.
      at_least_two (source_types evidence refs) c.one c.other c.different
        (Cites-contains evidence refs c.one c.cites_one)
        (Cites-contains evidence refs c.other c.cites_other)),
)
