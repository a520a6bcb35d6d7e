-- ===== src/Tests/Sessions/Storms.antt =====
-- The theorem on repeated alarms, at a concrete input.
use energy_agent_diagnosis.Common.{ℕ, String, none, some, true, [], ◌∷◌, ◌≡◌, refl, List, eq_refl}
use energy_agent_diagnosis.Common.Errors.{ok}
use energy_agent_diagnosis.Common.Table
use energy_agent_diagnosis.Agent.Workflow.{DiagnosisPhase}
use energy_agent_diagnosis.Sessions.Store.{AlarmDedup, Store}
use energy_agent_diagnosis.Sessions.Requests.{CreateSessionRequest}
use energy_agent_diagnosis.Sessions.Create.{Environment, AlarmKey, alarm_dedup_key, create_session}
use energy_agent_diagnosis.Sessions.Calls.{apply_all}
use energy_agent_diagnosis.Sessions.Storm.{over, again, creations, create_session-Storm}
use energy_agent_diagnosis.Tests.Sessions.Data.{
  library, settings, empty, session, request, creation,
}

abbrev key : String
key = alarm_dedup_key library "device-1" "over-temperature"

-- An alarm that was met once, and is open until 600.
abbrev alarm_row : AlarmDedup
alarm_row = record {
  device_id = "device-1";
  alarm_category = "over-temperature";
  session_id = "s1";
  alarm_ids = "alarm-1" ∷ [];
  expires_at = 600;
  hit_count = 1;
}

abbrev alarmed : Store
alarmed = record empty { sessions = ("s1", session) ∷ []; alarms = (key, alarm_row) ∷ [] }

abbrev at_time : ℕ → Environment
at_time now = record creation { now = now }

abbrev alarm : AlarmKey
alarm = record { device_id = "device-1"; alarm_category = "over-temperature"; alarm_id = "alarm-1" }

-- Two requests, of which the second comes after the first window.
abbrev requests : List (Environment × CreateSessionRequest)
requests = (at_time 500, request) ∷ (at_time 900, request) ∷ []

met : Table.get key alarmed.alarms ≡ some alarm_row
unfolding Table.get
met = rw (Table.get, eq_refl key) refl

found : Table.get "s1" alarmed.sessions ≡ some session
unfolding Table.get
found = refl

create_session-Storm_example :
    let s' = apply_all library settings (creations library settings requests) alarmed in
    let r = create_session library settings (at_time 1400) request none s' in
    (r.0
      ≡ ok (record {
        session_id = "s1";
        run_id = "r1";
        phase = DiagnosisPhase.need_user_input;
        trace_id = "t1";
        merged = true;
        duplicate_count = 4;
      }))
    × (r.1.sessions ≡ alarmed.sessions)
    × (r.1.runs ≡ alarmed.runs)
create_session-Storm_example =
    create_session-Storm library settings key "s1" session refl requests alarmed (at_time 1400)
      request
      (again (record { alarm = alarm; asked = refl; same = refl; early = refl })
        (again (record { alarm = alarm; asked = refl; same = refl; early = refl }) over))
      (record { alarm = alarm; asked = refl; same = refl; early = refl })
      (record { row = alarm_row; at = met; session = refl; expiry = refl; count = refl }) found
