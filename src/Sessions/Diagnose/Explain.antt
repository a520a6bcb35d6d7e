-- ===== src/Sessions/Diagnose/Explain.antt =====
-- `_explain_previous` of src/energy_agent/agent/execution_service.py.
use energy_agent_diagnosis.Common.{String, Option, none, some, [], string_eq, if◌then◌else◌}
use energy_agent_diagnosis.Common.Errors.{Outcome, ok, err, Error}
use energy_agent_diagnosis.Agent.Workflow.{DiagnosisPhase}
use energy_agent_diagnosis.Sessions.State.{
  DiagnosisIntent, StructuredDiagnosisResult, SessionMemory,
}
use energy_agent_diagnosis.Sessions.Store.{
  DiagnosisRun, Store, create_run, latest_run, latest_result, modify_run, finished,
}
use energy_agent_diagnosis.Sessions.Requests.{
  Library, Settings, DiagnosisChatRequest, DiagnosisResponse,
}
use energy_agent_diagnosis.Sessions.Memory.{of_memory, evidence_ids}
use energy_agent_diagnosis.Sessions.Diagnose.Events.{
  Environment, fingerprint, message_event, append_result,
}

module _ (lib : Library) (settings : Settings) (env : Environment) (p : DiagnosisChatRequest) where
  abbrev pub latest_saved : Option SessionMemory → Store → Option StructuredDiagnosisResult
  latest_saved memory s =
      elim (of_memory memory (λ m. m.final_result) none)
        as (λ _. Option StructuredDiagnosisResult) [
          | some r ↦ some r
          | none ↦
              elim (latest_result p.session_id s.results)
                as (λ _. Option StructuredDiagnosisResult) [
                  | none ↦ none
                  | some (id, r) ↦ some r.result
                ]
        ]

  abbrev pub parent_of : Option SessionMemory → Store → String
  parent_of memory s =
      of_memory memory (λ m. m.run_id)
        (elim (latest_run p.session_id s.runs) [ none ↦ "" | some (id, r) ↦ id ])

  abbrev pub explanation_run : Option SessionMemory → Option String → Store → DiagnosisRun
  explanation_run memory idempotency_key s = record {
    session_id = p.session_id;
    trace_id = env.trace_id;
    idempotency_key = idempotency_key;
    request_hash = fingerprint lib settings env p;
    phase = DiagnosisPhase.completed;
    status = "running";
    parent_run_id = some (parent_of memory s);
    run_type = "explanation";
    diagnosis_template_id = of_memory memory (λ m. m.diagnosis_template_id) none;
    diagnosis_template_version = of_memory memory (λ m. m.diagnosis_template_version) none;
    alarm_category = of_memory memory (λ m. m.alarm_category) none;
    guardrail_status = none;
    failure_category = none;
  }

  abbrev pub explanation : Option SessionMemory → StructuredDiagnosisResult → DiagnosisResponse
  explanation memory r = record {
    session_id = p.session_id;
    run_id = env.new_run;
    trace_id = env.trace_id;
    phase = DiagnosisPhase.completed;
    intent = some DiagnosisIntent.followup_clarification;
    result = some r;
    evidence = r.evidence;
    evidence_refs = evidence_ids r;
    tool_summaries = [];
    clarification_questions = [];
    degraded_components = [];
    memory_revision = of_memory memory (λ m. some m.memory_revision) none;
  }

  -- `_explain_previous`
  unfoldable pub explain_previous :
      Option SessionMemory → Option String → Store → Outcome DiagnosisResponse × Store
  explain_previous memory idempotency_key s =
      elim (latest_saved memory s) as (λ _. Outcome DiagnosisResponse × Store) [
        | none ↦ (err Error.conflict, s)
        | some r ↦
            let created =
              create_run env.new_run (explanation_run memory idempotency_key s)
                (message_event lib settings env p) s in
            let closed =
              modify_run env.new_run (finished DiagnosisPhase.completed "completed") created in
            (
              ok (explanation memory r),
              (if settings.has_timeline
                  then append_result lib settings env p p.session_id (some r) closed
                  else closed),
            )
      ]
