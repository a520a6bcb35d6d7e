-- ===== src/Sessions/Memory/Shown.antt =====
-- What src/energy_agent/agent/execution_service.py shows of a session: `_response` and `get_session`.
use energy_agent_diagnosis.Common.{String, Option, none, some, List, [], map, string_eq}
use energy_agent_diagnosis.Common.Errors.{Outcome, ok, err, Error}
use energy_agent_diagnosis.Common.Table
use energy_agent_diagnosis.Sessions.State.{
  Evidence, StructuredDiagnosisResult, DiagnosisState, SessionMemory,
}
use energy_agent_diagnosis.Sessions.Store.{
  DiagnosisSession, DiagnosisRun, ResultRow, Store, latest_run, latest_result,
}
use energy_agent_diagnosis.Sessions.Requests.{DiagnosisResponse}
use energy_agent_diagnosis.Sessions.Memory.Payload.{dump_tool}

-- `_response`
abbrev pub response_of : DiagnosisState → Option StructuredDiagnosisResult → DiagnosisResponse
response_of s result = record {
  session_id = s.session_id;
  run_id = s.run_id;
  trace_id = s.trace_id;
  phase = s.phase;
  intent = s.intent;
  result = result;
  evidence = s.evidence;
  evidence_refs = s.evidence_refs;
  tool_summaries = map dump_tool s.tool_results;
  clarification_questions = s.clarification_questions;
  degraded_components = s.degraded_components;
  memory_revision = some s.memory_revision;
}

abbrev pub remembered : String → SessionMemory → DiagnosisResponse
remembered session_id m = record {
  session_id = session_id;
  run_id = m.run_id;
  trace_id = m.trace_id;
  phase = m.phase;
  intent = m.intent;
  result = m.final_result;
  evidence = m.evidence;
  evidence_refs = m.evidence_refs;
  tool_summaries = m.tool_summaries;
  clarification_questions = m.clarification_questions;
  degraded_components = m.degraded_components;
  memory_revision = some m.memory_revision;
}

abbrev pub of_result {ℓ} :
    {A : Type ℓ} → Option (String × ResultRow) → (StructuredDiagnosisResult → A) → A → A
of_result none f a = a
of_result (some (id, r)) f a = f r.result

abbrev pub evidence_ids : StructuredDiagnosisResult → List String
evidence_ids r = map (λ (e : Evidence). e.evidence_id) r.evidence

-- What the tables say of a session that has no memory.
abbrev pub recorded :
    String
    → DiagnosisSession
    → Option (String × DiagnosisRun)
    → Option (String × ResultRow)
    → DiagnosisResponse
recorded session_id row run result = record {
  session_id = session_id;
  run_id = elim run [ none ↦ row.run_id | some (id, r) ↦ id ];
  trace_id = elim run [ none ↦ row.trace_id | some (id, r) ↦ r.trace_id ];
  phase = row.phase;
  intent = none;
  result = of_result result (λ r. some r) none;
  evidence = of_result result (λ r. r.evidence) [];
  evidence_refs = of_result result evidence_ids [];
  tool_summaries = [];
  clarification_questions = [];
  degraded_components = of_result result (λ r. r.degraded_components) [];
  memory_revision = none;
}

unfoldable pub get_session : String → Store → Outcome DiagnosisResponse
get_session session_id s =
    elim (Table.get session_id s.sessions) as (λ _. Outcome DiagnosisResponse) [
      | none ↦ err Error.resource_not_found
      | some row ↦ elim (Table.get session_id s.memory) as (λ _. Outcome DiagnosisResponse) [
        | some m ↦ ok (remembered session_id m)
        | none ↦ ok (
            recorded session_id row (latest_run session_id s.runs)
              (latest_result session_id s.results))
      ]
    ]
