-- ===== src/Sessions/Answers.antt =====
-- Which answers the loop of `diagnose` of src/energy_agent/agent/execution_service.py lets pass.
use energy_agent_diagnosis.Common.{
  ℕ, Option, none, ◌≢◌, sym, ◌∙◌, map, any, ◌==◌, eq_iff, Every, nil, cons, Every-map, Distinct,
  no_elements, one_other, String, some, Bool, true, false, List, [], ◌∷◌, ◌≡◌, ◌↔◌, refl, arith,
  string_eq, contains, truthy, if◌then◌else◌,
}
use energy_agent_diagnosis.Common.Errors.{Outcome, ok, err, Error}
use energy_agent_diagnosis.Sessions.State.{ClarificationQuestion, UserFeedback, SessionMemory}
use energy_agent_diagnosis.Sessions.Requests.{DiagnosisChatRequest}
use energy_agent_diagnosis.Sessions.Clarify.{
  check_each, check_answers, pending_of, is_stale, or_questions,
}
use energy_agent_diagnosis.Sessions.Memory.{question_ids}

-- The answers are to pending questions that have no answer yet, each to one of its own, and none is
-- blank. `seen` has the questions answered before.
data Answers (strip : String → String) (pending resolved : List String)
    : List String → List UserFeedback → Type 0 where
  none_left : {seen : List String} → Answers strip pending resolved seen []
  one_more :
      {seen : List String} {a : UserFeedback} {answers : List UserFeedback}
      → truthy (strip a.answer) ≡ true
      → contains resolved a.question_id ≡ false
      → contains seen a.question_id ≡ false
      → contains pending a.question_id ≡ true
      → Answers strip pending resolved (a.question_id ∷ seen) answers
      → Answers strip pending resolved seen (a ∷ answers)

module _ (strip : String → String) (pending resolved : List String) where
  check_each_sound :
      (seen : List String) (answers : List UserFeedback)
      → check_each strip pending resolved seen answers ≡ ok tt
      → Answers strip pending resolved seen answers
  unfolding check_each
  check_each_sound seen [] h = none_left
  check_each_sound seen (a ∷ answers) h =
      let blank : truthy (strip a.answer) ≡ true = ground arith in
      let old : contains resolved a.question_id ≡ false = ground arith in
      let twice : contains seen a.question_id ≡ false = ground arith in
      let known : contains pending a.question_id ≡ true = ground arith in
      one_more blank old twice known
        (check_each_sound (a.question_id ∷ seen) answers (ground arith))

  check_each_complete :
      {seen : List String} {answers : List UserFeedback}
      → Answers strip pending resolved seen answers
      → check_each strip pending resolved seen answers ≡ ok tt
  unfolding check_each
  check_each_complete none_left = refl
  check_each_complete (one_more b o s k rest) = rw (b, o, s, k) (check_each_complete rest)

when_fresh :
    (b : Bool) (r : Outcome (Unit {0}))
    → (if b then err Error.clarification_stale else r) ≡ ok tt
    → (b ≡ false) × (r ≡ ok tt)
when_fresh true r h = absurd (ground (arith, h))
when_fresh false r h = (refl, h)

-- A question that waits for an answer: one of the pending ones, or any of the questions where none is named
-- as pending.
pub data Asked (pending : List String) (questions : List ClarificationQuestion) (id : String)
    : Type 0 where
  is_pending : contains pending id ≡ true → Asked pending questions id
  is_question :
      pending ≡ [] → any (λ q. q.question_id == id) questions ≡ true → Asked pending questions id

-- An answer that is not blank, to a question that waits for one and has none.
pub record IsAnswer (strip : String → String) (m : SessionMemory) (a : UserFeedback) : Type 0 where
  pub written : strip a.answer ≢ ""
  pub asked : Asked m.pending_question_ids m.clarification_questions a.question_id
  pub unanswered : contains m.resolved_question_ids a.question_id ≡ false

contains-question_ids :
    (qs : List ClarificationQuestion) (id : String)
    → contains (question_ids qs) id ≡ any (λ q. q.question_id == id) qs
contains-question_ids [] id = refl
contains-question_ids (q ∷ qs) id = ground (arith, contains-question_ids qs id)

contains-Asked :
    (pending : List String) (qs : List ClarificationQuestion) (id : String)
    → contains (or_questions pending (question_ids qs)) id ≡ true
    → Asked pending qs id
contains-Asked [] qs id h = is_question refl (sym (contains-question_ids qs id) ∙ h)
contains-Asked (k ∷ ks) qs id h = is_pending h

Asked-contains :
    (pending : List String) (qs : List ClarificationQuestion) (id : String)
    → Asked pending qs id
    → contains (or_questions pending (question_ids qs)) id ≡ true
Asked-contains [] qs id (is_pending h) = absurd (ground (arith, h))
Asked-contains [] qs id (is_question e h) = contains-question_ids qs id ∙ h
Asked-contains (k ∷ ks) qs id (is_pending h) = h
Asked-contains (k ∷ ks) qs id (is_question e h) = absurd (ground (arith, e))

is_stale_iff :
    (expected : Option ℕ) (revision : ℕ)
    → (is_stale expected revision ≡ false) ↔ ((r : ℕ) → expected ≡ some r → r ≡ revision)
is_stale_iff none revision = ((λ h r e. absurd (ground (arith, e))), (λ h. refl))
is_stale_iff (some n) revision =
    ((λ h r e. ground (arith, h, e)), (λ h. let same = h n refl in ground (arith, same)))

module _ (strip : String → String) (pending resolved : List String) where
  -- An answer that passes the tests where `seen` was answered before.
  abbrev Fits : List String → UserFeedback → Type 0
  Fits seen a =
      (strip a.answer ≢ "")
      × (contains pending a.question_id ≡ true)
      × (contains resolved a.question_id ≡ false)
      × (contains seen a.question_id ≡ false)

  later :
      (seen : List String) (id : String) {answers : List UserFeedback}
      → Every (Fits (id ∷ seen)) answers
      → Every (Fits seen) answers × Every (λ i. id ≢ i) (map (λ a. a.question_id) answers)
  later seen id nil = (nil, nil)
  later seen id (cons {x = a} f fs) =
      let (w, k, o, s) = f in
      let (rest, others) = later seen id fs in
      (
        cons (w, k, o, ground (arith, s)) rest,
        cons (λ e. ground (arith, s, e, eq_iff id a.question_id)) others,
      )

  earlier :
      (seen : List String) (id : String) {answers : List UserFeedback}
      → Every (Fits seen) answers
      → Every (λ i. id ≢ i) (map (λ a. a.question_id) answers)
      → Every (Fits (id ∷ seen)) answers
  earlier seen id {answers = []} nil ds = nil
  earlier seen id {answers = a ∷ answers} (cons f fs) (cons d ds) =
      let (w, k, o, s) = f in
      cons (w, k, o, ground (arith, s, d, eq_iff id a.question_id)) (earlier seen id fs ds)

  Answers-Distinct :
      {seen : List String} {answers : List UserFeedback}
      → Answers strip pending resolved seen answers
      → Every (Fits seen) answers × Distinct (map (λ a. a.question_id) answers)
  Answers-Distinct none_left = (nil, no_elements)
  Answers-Distinct {seen} (one_more {a = a} b o s k rest) =
      let (fits, apart) = Answers-Distinct rest in
      let (fits', others) = later seen a.question_id fits in
      (
        cons ((λ e. ground (arith, b, e, eq_iff (strip a.answer) "")), k, o, s) fits',
        one_other others apart,
      )

  Distinct-Answers :
      {seen : List String} (answers : List UserFeedback)
      → Every (Fits seen) answers
      → Distinct (map (λ a. a.question_id) answers)
      → Answers strip pending resolved seen answers
  Distinct-Answers [] nil ds = none_left
  Distinct-Answers (a ∷ answers) (cons f fs) (one_other others apart) =
      let (w, k, o, s) = f in
      one_more (ground (arith, w, eq_iff (strip a.answer) "")) o s k
        (Distinct-Answers answers (earlier _ a.question_id fs others) apart)

-- With answers and a memory, the answers are accepted exactly if the revision that the request expects, if
-- it names one, is that of the memory, each answer is not blank and is to a question that waits for an
-- answer and has none, and no two answers are to one question. A question waits if it is named as pending,
-- or if none is and it is one of the questions that were asked.
pub check_answers_iff :
    (strip : String → String) (p : DiagnosisChatRequest) (m : SessionMemory) (a : UserFeedback)
    (answers : List UserFeedback)
    → p.clarification_answers ≡ a ∷ answers
    → (check_answers strip p (some m) ≡ ok tt) ↔ (
        ((r : ℕ) → p.expected_memory_revision ≡ some r → r ≡ m.memory_revision)
        × Every (IsAnswer strip m) (a ∷ answers)
        × Distinct (map (λ x. x.question_id) (a ∷ answers)))
unfolding check_answers
check_answers_iff strip p m a answers given =
    let pending = pending_of m in
    let resolved = m.resolved_question_ids in
    (
      (λ h.
          let checked =
            when_fresh (is_stale p.expected_memory_revision m.memory_revision)
              (check_each strip pending resolved [] (a ∷ answers)) (rw given at h) in
          let (fits, apart) =
            Answers-Distinct strip pending resolved
              (check_each_sound strip pending resolved [] (a ∷ answers) checked.1) in
          (
            (is_stale_iff p.expected_memory_revision m.memory_revision).0 checked.0,
            Every-map
                (λ x f. record {
                  written = f.0;
                  asked =
                      contains-Asked m.pending_question_ids m.clarification_questions x.question_id
                        f.1;
                  unanswered = f.2;
                })
                fits,
            apart,
          )),
      (λ (fresh, right, apart).
          let fits : Every (Fits strip pending resolved []) (a ∷ answers) =
            Every-map
              (λ x r. (
                r.written,
                Asked-contains m.pending_question_ids m.clarification_questions x.question_id
                    r.asked,
                r.unanswered,
                refl,
              ))
              right in
          rw (given, (is_stale_iff p.expected_memory_revision m.memory_revision).1 fresh)
            (check_each_complete strip pending resolved {seen = []}
              (Distinct-Answers strip pending resolved (a ∷ answers) fits apart))),
    )
