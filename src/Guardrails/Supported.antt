-- ===== src/Guardrails/Supported.antt =====
-- The candidates that `check_generation` of src/energy_agent/guardrails/generation.py lets through, and
-- those that `supported_candidates` of service.py keeps.
use mathlib.Core.Path.{subst}
use energy_agent_diagnosis.Common.{
  sym, append_empty, String, true, false, not, List, [], ◌∷◌, ◌++◌, ◌==◌, string_eq, any, all, keep,
  contains, ◌≡◌, ◌↔◌, refl, arith, eq_iff, eq_refl, inl, inr, Bool-cases, Every, nil, cons,
}
use energy_agent_diagnosis.Guardrails.Decisions.{
  Library, passed, Evidence, CandidateCause, status_of,
}
use energy_agent_diagnosis.Guardrails.Checks.{
  known_refs, violation_of, violations_of, check_generation,
}
use energy_agent_diagnosis.Guardrails.Service.{is_supported, is_blocked}

-- Every reference is of known evidence, and one of them is not of the graph.
pub record IsSupported (lib : Library) (evidence : List Evidence) (c : CandidateCause)
    : Type 0 where
  pub known :
      (ref : String)
      → contains c.supporting_evidence ref ≡ true
      → contains (known_refs evidence) ref ≡ true
  pub direct : String
  pub refers : contains c.supporting_evidence direct ≡ true
  pub is_direct : lib.startswith direct "graph:" ≡ false

head_known :
    (known : List String) (r : String) (rs : List String)
    → any (λ x. not (contains known x)) (r ∷ rs) ≡ false
    → contains known r ≡ true
head_known known r rs h = ground (arith, h)

-- `any` of a negation, against each element.
no_other :
    (known refs : List String) (ref : String)
    → any (λ r. not (contains known r)) refs ≡ false
    → contains refs ref ≡ true
    → contains known ref ≡ true
no_other known [] ref h m = absurd (ground (arith, m))
no_other known (r ∷ rs) ref h m =
    let rest : any (λ r. not (contains known r)) rs ≡ false
        → contains rs ref ≡ true
        → contains known ref ≡ true =
      no_other known rs ref in
    elim (Bool-cases (r == ref)) [
      | inl same ↦
          subst (λ x. contains known x ≡ true) ((eq_iff r ref).0 same) (head_known known r rs h)
      | inr other ↦ rest (ground (arith, h)) (ground (arith, m, other))
    ]

all_known :
    (known refs : List String)
    → ((ref : String) → contains refs ref ≡ true → contains known ref ≡ true)
    → any (λ r. not (contains known r)) refs ≡ false
all_known known [] h = refl
all_known known (r ∷ rs) h =
    let first = h r (ground (arith, eq_refl r)) in
    let rest = all_known known rs (λ ref m. h ref (ground (arith, m))) in
    ground (arith, first, rest)

first_direct :
    (lib : Library) (refs : List String)
    → all (λ r. lib.startswith r "graph:") refs ≡ false
    → (r : String) × (contains refs r ≡ true) × (lib.startswith r "graph:" ≡ false)
first_direct lib [] h = absurd (ground (arith, h))
first_direct lib (r ∷ rs) h = elim (Bool-cases (lib.startswith r "graph:")) [
  | inr direct ↦ (r, ground (arith, eq_refl r), direct)
  | inl graph ↦
      let (x, m, d) = first_direct lib rs (ground (arith, h, graph)) in (x, ground (arith, m), d)
]

not_all :
    (lib : Library) (refs : List String) (r : String)
    → contains refs r ≡ true
    → lib.startswith r "graph:" ≡ false
    → all (λ r. lib.startswith r "graph:") refs ≡ false
not_all lib [] r m d = absurd (ground (arith, m))
not_all lib (x ∷ xs) r m d =
    let rest : contains xs r ≡ true → all (λ r. lib.startswith r "graph:") xs ≡ false =
      λ q. not_all lib xs r q d in
    elim (Bool-cases (x == r)) [
      | inl same ↦
          let at : lib.startswith x "graph:" ≡ false =
            subst (λ y. lib.startswith y "graph:" ≡ false) (sym ((eq_iff x r).0 same)) d in
          ground (arith, at)
      | inr other ↦ let tail = rest (ground (arith, m, other)) in ground (arith, tail)
    ]

module _ (lib : Library) (evidence : List Evidence) where
  violation_of-IsSupported :
      (c : CandidateCause)
      → violation_of lib (known_refs evidence) c ≡ []
      → IsSupported lib evidence c
  unfolding violation_of
  violation_of-IsSupported c h =
      let unknown : any (λ r. not (contains (known_refs evidence) r)) c.supporting_evidence
          ≡ false =
        ground (arith, h) in
      let (r, m, d) = first_direct lib c.supporting_evidence (ground (arith, h)) in
      record {
        known = λ ref m. no_other (known_refs evidence) c.supporting_evidence ref unknown m;
        direct = r;
        refers = m;
        is_direct = d;
      }

  IsSupported-violation_of :
      (c : CandidateCause)
      → IsSupported lib evidence c
      → violation_of lib (known_refs evidence) c ≡ []
  unfolding violation_of
  IsSupported-violation_of c s =
      let known = all_known (known_refs evidence) c.supporting_evidence s.known in
      let direct = not_all lib c.supporting_evidence s.direct s.refers s.is_direct in
      let refers = s.refers in ground (arith, known, direct, refers)

  supports :
      (cs : List CandidateCause)
      → violations_of lib (known_refs evidence) cs ≡ []
      → Every (IsSupported lib evidence) cs
  unfolding violations_of
  supports [] h = nil
  supports (c ∷ cs) h =
      let (first, rest) = append_empty (violation_of lib (known_refs evidence) c) _ h in
      cons (violation_of-IsSupported c first) (supports cs rest)

  pub supported :
      (cs : List CandidateCause)
      → Every (IsSupported lib evidence) cs
      → violations_of lib (known_refs evidence) cs ≡ []
  unfolding violations_of
  supported [] nil = refl
  supported (c ∷ cs) (cons s ss) =
      let first = IsSupported-violation_of c s in
      let rest = supported cs ss in ground (arith, first, rest)

  not_blocked : (vs : List String) → is_blocked (status_of (vs ++ [])) ≡ false → vs ≡ []
  not_blocked [] h = refl
  not_blocked (v ∷ vs) h = absurd (ground (arith, h))

  status_of-passed : (vs : List String) → status_of vs ≡ passed → vs ≡ []
  status_of-passed [] h = refl
  status_of-passed (v ∷ vs) h = absurd (ground (arith, h))

  -- The generation check passes exactly the lists of candidates that are supported, each one: all its
  -- references are of known evidence, and one of them is not of the graph.
  pub check_generation-IsSupported :
      (cs : List CandidateCause)
      → ((check_generation lib cs evidence).status ≡ passed) ↔ Every (IsSupported lib evidence) cs
  unfolding check_generation
  check_generation-IsSupported cs =
      ((λ h. supports cs (status_of-passed _ h)), (λ s. let none = supported cs s in rw none refl))

  one-IsSupported :
      (c : CandidateCause) → is_supported lib evidence c ≡ true → IsSupported lib evidence c
  unfolding check_generation violations_of
  one-IsSupported c h =
      violation_of-IsSupported c
        (not_blocked (violation_of lib (known_refs evidence) c) (ground (arith, h)))

  pub kept-IsSupported :
      (cs : List CandidateCause)
      → Every (IsSupported lib evidence) (keep (is_supported lib evidence) cs)
  kept-IsSupported [] = nil
  kept-IsSupported (c ∷ cs) = elim (Bool-cases (is_supported lib evidence c)) [
    | inr unsound ↦ rw unsound (kept-IsSupported cs)
    | inl sound ↦ rw sound (cons (one-IsSupported c sound) (kept-IsSupported cs))
  ]
