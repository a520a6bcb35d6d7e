-- ===== src/Cases/Service/Rows.antt =====
-- What the assignments of src/energy_agent/cases/application.py and persistence/repositories/cases.py do to
-- the row of a case.
use energy_agent_diagnosis.Common.{
  String, Option, some, true, false, ◌≡◌, ◌≢◌, refl, arith, string_eq,
}
use energy_agent_diagnosis.Persistence.Cases.{
  draft, pending_review, approved, CaseIndexStatus, DiagnosisCase,
}
use energy_agent_diagnosis.Cases.Transition.{moved, queued_for_index, indexed_as}
use energy_agent_diagnosis.Cases.Service.Requests.{Library, Settings, Actor, Environment}
use energy_agent_diagnosis.Cases.Service.Indexing.{superseding}
use energy_agent_diagnosis.Cases.Service.Review.{
  CasePatchRequest, patched, submitting, reviewing, disabling, Decision,
}
use energy_agent_diagnosis.Cases.Service.Lifecycle.{
  here, next, submitted, accepted, refused, withdrawn, replaced, IsSound,
}
use energy_agent_diagnosis.Cases.Service.Steps.{RowStep}

pub patched-RowStep : (p : CasePatchRequest) (c : DiagnosisCase) → RowStep c (patched p c)
patched-RowStep p c = record {
  path = here;
  creator = refl;
  sound = λ k s. record { named = s.named; in_use = s.in_use; four_eyes = s.four_eyes };
}

pub inactive-RowStep :
    (status : CaseIndexStatus) (code text : Option String) (c : DiagnosisCase)
    → RowStep c (indexed_as status code text (some false) c)
inactive-RowStep status code text c = record {
  path = here;
  creator = refl;
  sound = λ k s. record {
    named = s.named;
    in_use = λ a. absurd (ground (arith, a));
    four_eyes = s.four_eyes;
  };
}

pub active-RowStep :
    (status : CaseIndexStatus) (code text : Option String) (c : DiagnosisCase)
    → c.review_status ≡ approved
    → RowStep c (indexed_as status code text (some true) c)
active-RowStep status code text c h = record {
  path = here;
  creator = refl;
  sound = λ k s. record { named = s.named; in_use = λ _. h; four_eyes = s.four_eyes };
}

pub queued-RowStep : (c : DiagnosisCase) → RowStep c (queued_for_index c)
queued-RowStep c = record {
  path = here;
  creator = refl;
  sound = λ k s. record {
    named = s.named;
    in_use = λ a. absurd (ground (arith, a));
    four_eyes = s.four_eyes;
  };
}

-- A case in another state than approved is not in use.
unused :
    (k : String) (c : DiagnosisCase) → IsSound k c → c.review_status ≢ approved → c.is_active ≢ true
unused k c s h a = h (s.in_use a)

module _ (lib : Library) (settings : Settings) (env : Environment) (actor : Actor) where
  pub submitting-RowStep :
      (case_id : String) (key : Option String) (c : DiagnosisCase)
      → c.review_status ≡ draft
      → RowStep c (moved (submitting lib settings env actor case_id key) c)
  submitting-RowStep case_id key c h = record {
    path = rw h (next here submitted);
    creator = refl;
    sound = λ k s. record {
      named = s.named;
      in_use = λ a. absurd (unused k c s (λ e. ground (arith, e, h)) a);
      four_eyes = λ r. absurd (r.1 refl);
    };
  }

  -- A state that leaves `approved` keeps the review that led there.
  pub superseding-RowStep :
      (case_id : String) (current c : DiagnosisCase)
      → c.review_status ≡ approved
      → RowStep c (moved (superseding lib settings env actor case_id current) c)
  superseding-RowStep case_id current c h = record {
    path = rw h (next here replaced);
    creator = refl;
    sound = λ k s. record {
      named = s.named;
      in_use = λ a. absurd (ground (arith, a));
      four_eyes = λ r. s.four_eyes ((λ e. ground (arith, e, h)), (λ e. ground (arith, e, h)));
    };
  }

  pub disabling-RowStep :
      (case_id reason : String) (key : Option String) (current c : DiagnosisCase)
      → c.review_status ≡ approved
      → RowStep c (moved (disabling lib settings env actor case_id reason key current) c)
  disabling-RowStep case_id reason key current c h = record {
    path = rw h (next here withdrawn);
    creator = refl;
    sound = λ k s. record {
      named = s.named;
      in_use = λ a. absurd (ground (arith, a));
      four_eyes = λ r. s.four_eyes ((λ e. ground (arith, e, h)), (λ e. ground (arith, e, h)));
    };
  }

  pub reviewing-RowStep :
      (case_id : String) (d : Decision) (comment key : Option String) (current c : DiagnosisCase)
      → c.review_status ≡ pending_review
      → actor.actor_id ≢ c.created_by
      → RowStep c (moved (reviewing lib settings env actor case_id d comment key current) c)
  reviewing-RowStep case_id Decision.approve comment key current c h other = record {
    path = rw h (next here accepted);
    creator = refl;
    sound = λ k s. record {
      named = s.named;
      in_use = λ a. refl;
      four_eyes = λ r. (actor.actor_id, refl, other);
    };
  }
  reviewing-RowStep case_id Decision.reject comment key current c h other = record {
    path = rw h (next here refused);
    creator = refl;
    sound = λ k s. record {
      named = s.named;
      in_use = λ a. absurd (unused k c s (λ e. ground (arith, e, h)) a);
      four_eyes = λ r. (actor.actor_id, refl, other);
    };
  }
