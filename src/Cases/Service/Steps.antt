-- ===== src/Cases/Service/Steps.antt =====
-- The steps that a call of src/energy_agent/cases/application.py can be of the table of cases.
use energy_agent_diagnosis.Common.{
  String, Option, none, some, Bool, true, false, ◌≡◌, refl, arith, eq_iff, inl, inr, Bool-cases,
  ◌==◌, string_eq, if◌then◌else◌,
}
use mathlib.Core.Path.{subst}
use energy_agent_diagnosis.Common.Table
use energy_agent_diagnosis.Common.Table.{Table, Holds, Holds-modify, Holds-add, get-modify, get-add}
use energy_agent_diagnosis.Persistence.Cases.{draft, DiagnosisCase}
use energy_agent_diagnosis.Cases.Service.Lifecycle.{
  Lifecycle, here, RowHistory, absent, created, kept, RowHistory-refl, RowHistory-trans, IsSound,
}

pub record RowStep (c c' : DiagnosisCase) : Type 0 where
  pub path : Lifecycle c.review_status c'.review_status
  pub creator : c'.created_by ≡ c.created_by
  pub sound : (k : String) → IsSound k c → IsSound k c'

pub data CasesStep (t : Table DiagnosisCase) : Table DiagnosisCase → Type 0 where
  added :
      (c : DiagnosisCase)
      → c.review_status ≡ draft
      → c.is_active ≡ false
      → CasesStep t (Table.add c.case_id c t)
  changed :
      (k : String) (f : DiagnosisCase → DiagnosisCase) (c : DiagnosisCase)
      → Table.get k t ≡ some c
      → RowStep c (f c)
      → CasesStep t (Table.modify k f t)

pub data CasesPath (t : Table DiagnosisCase) : Table DiagnosisCase → Type 0 where
  done : CasesPath t t
  stepped : {t' t'' : Table DiagnosisCase} → CasesPath t t' → CasesStep t' t'' → CasesPath t t''

draft-IsSound :
    (c : DiagnosisCase) → c.review_status ≡ draft → c.is_active ≡ false → IsSound c.case_id c
draft-IsSound c d i = record {
  named = refl;
  in_use = λ a. absurd (ground (arith, a, i));
  four_eyes = λ r. absurd (r.0 d);
}

CasesStep-Holds : {t t' : Table DiagnosisCase} → Holds IsSound t → CasesStep t t' → Holds IsSound t'
CasesStep-Holds {t} h (added c d i) = Holds-add IsSound c.case_id c t (draft-IsSound c d i) h
CasesStep-Holds {t} h (changed k f c row s) =
    Holds-modify IsSound k f t
      (λ a at p.
        let q : c ≡ a = ground (arith, row, at) in
        subst (λ x. IsSound k (f x)) q (s.sound k (subst (IsSound k) (ground (arith, row, at)) p)))
      h

pub CasesPath-Holds :
    {t t' : Table DiagnosisCase} → Holds IsSound t → CasesPath t t' → Holds IsSound t'
CasesPath-Holds h done = h
CasesPath-Holds h (stepped p s) = CasesStep-Holds (CasesPath-Holds h p) s

-- The row of a key after the row `c` is added, under that key or another.
added_history :
    (c : DiagnosisCase) (b : Bool) (o : Option DiagnosisCase)
    → c.review_status ≡ draft
    → RowHistory o (elim o [ some a ↦ some a | none ↦ if b then some c else none ])
added_history c b (some a) d = kept here refl
added_history c true none d = created (rw d here)
added_history c false none d = absent

CasesStep-RowHistory :
    {t t' : Table DiagnosisCase} (j : String)
    → CasesStep t t'
    → RowHistory (Table.get j t) (Table.get j t')
CasesStep-RowHistory {t} j (added c d i) =
    rw get-add (added_history c (c.case_id == j) (Table.get j t) d)
CasesStep-RowHistory {t} j (changed k f c row s) = elim (Bool-cases (k == j)) [
  | inl same ↦
      let at : Table.get j t ≡ some c =
        subst (λ i. Table.get i t ≡ some c) ((eq_iff k j).0 same) row in
      rw (get-modify, same, at) (kept s.path s.creator)
  | inr other ↦ rw (get-modify, other) (RowHistory-refl (Table.get j t))
]

pub CasesPath-RowHistory :
    {t t' : Table DiagnosisCase} (j : String)
    → CasesPath t t'
    → RowHistory (Table.get j t) (Table.get j t')
CasesPath-RowHistory {t} j done = RowHistory-refl (Table.get j t)
CasesPath-RowHistory j (stepped p s) =
    RowHistory-trans (CasesPath-RowHistory j p) (CasesStep-RowHistory j s)

pub after : {a b c : Table DiagnosisCase} → CasesPath a b → CasesPath b c → CasesPath a c
after p done = p
after p (stepped q s) = stepped (after p q) s
