-- ===== src/Cases/Service/Lifecycle.antt =====
-- The life of a case, as src/energy_agent/cases/application.py means it: the states it may move between,
-- and what is true of every row of its table.
use energy_agent_diagnosis.Common.{String, Option, none, some, true, ◌≡◌, ◌≢◌, refl, ◌∙◌}
use energy_agent_diagnosis.Persistence.Cases.{
  CaseStatus, draft, pending_review, approved, rejected, disabled, superseded, DiagnosisCase,
}

pub data Edge : CaseStatus → CaseStatus → Type 0 where
  submitted : Edge draft pending_review
  accepted : Edge pending_review approved
  refused : Edge pending_review rejected
  withdrawn : Edge approved disabled
  replaced : Edge approved superseded

pub data Lifecycle : CaseStatus → CaseStatus → Type 0 where
  here : {s : CaseStatus} → Lifecycle s s
  next : {a b c : CaseStatus} → Lifecycle a b → Edge b c → Lifecycle a c

-- What becomes of the row under a key.
pub data RowHistory : Option DiagnosisCase → Option DiagnosisCase → Type 0 where
  absent : RowHistory none none
  created : {c : DiagnosisCase} → Lifecycle draft c.review_status → RowHistory none (some c)
  kept :
      {c c' : DiagnosisCase}
      → Lifecycle c.review_status c'.review_status
      → c'.created_by ≡ c.created_by
      → RowHistory (some c) (some c')

-- A state that only a review leads to.
abbrev pub IsReviewed : CaseStatus → Type 0
IsReviewed s = (s ≢ draft) × (s ≢ pending_review)

-- A row has its own id; it is in use only while approved; and a reviewed one was reviewed by someone other
-- than its creator.
pub record IsSound (k : String) (c : DiagnosisCase) : Type 0 where
  pub named : c.case_id ≡ k
  pub in_use : c.is_active ≡ true → c.review_status ≡ approved
  pub four_eyes :
      IsReviewed c.review_status → (r : String) × (c.reviewer ≡ some r) × (r ≢ c.created_by)

pub chain : {a b c : CaseStatus} → Lifecycle a b → Lifecycle b c → Lifecycle a c
chain p here = p
chain p (next q e) = next (chain p q) e

pub RowHistory-trans :
    {a b c : Option DiagnosisCase} → RowHistory a b → RowHistory b c → RowHistory a c
RowHistory-trans absent h = h
RowHistory-trans (created p) (kept q e) = created (chain p q)
RowHistory-trans (kept p d) (kept q e) = kept (chain p q) (e ∙ d)

pub RowHistory-refl : (o : Option DiagnosisCase) → RowHistory o o
RowHistory-refl none = absent
RowHistory-refl (some c) = kept here refl
