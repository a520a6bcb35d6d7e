-- ===== src/Sessions/Steps.antt =====
-- Completed steps of a run of src/energy_agent/agent/execution_service.py: what the last of them leaves.
use energy_agent_diagnosis.Common.{
  String, none, some, true, List, [], ◌∷◌, ◌++◌, ◌≡◌, refl, arith, string_eq, truthy?, if-elim,
  if◌then◌else◌,
}
use energy_agent_diagnosis.Common.Errors.{Outcome, ok, err}
use energy_agent_diagnosis.Common.Table
use energy_agent_diagnosis.Common.Table.{Table, get-modify_self}
use energy_agent_diagnosis.Sessions.State.{DiagnosisState, SessionMemory, is_valid}
use energy_agent_diagnosis.Sessions.Store.{
  DiagnosisSession, Store, update_session-ok, phase_and_run, and_then, log, get-set_self,
}
use energy_agent_diagnosis.Sessions.Requests.{Library}
use energy_agent_diagnosis.Sessions.Memory.{memory_payload}
use energy_agent_diagnosis.Sessions.Run.{
  Callback, step, Ending, RunIds, set_template, step_log, log_step, call_back, call_all, ended,
}

-- The memory that a completed step leaves.
abbrev pub memory_of_step : Library → String → DiagnosisState → SessionMemory
memory_of_step lib name progress = record (memory_payload lib progress none) {
  last_completed_node = some name;
}

and_then_assoc :
    {A : Type 0} (g : Store → Outcome (Unit {0}) × Store) (h : Store → Outcome A × Store)
    (f' : Store → Outcome A × Store) (r : Outcome (Unit {0}) × Store)
    → ((s : Store) → f' s ≡ and_then (g s) h)
    → and_then r f' ≡ and_then (and_then r g) h
and_then_assoc g h f' (ok done, s) e = e s
and_then_assoc g h f' (err x, s) e = refl

-- What a completed step leaves of its session.
abbrev pub Stepped :
    Library → String → DiagnosisState → DiagnosisSession → Outcome (Unit {0}) × Store → Type 0
Stepped lib name progress row r =
    (r.0 ≡ ok tt)
    × (Table.get progress.session_id r.1.memory ≡ some (memory_of_step lib name progress))
    × (Table.get progress.session_id r.1.sessions
        ≡ some (phase_and_run progress.phase progress.run_id row))

log_step-Stepped :
    (lib : Library) {row : DiagnosisSession} (st : DiagnosisState) (name : String)
    (progress : DiagnosisState) (s : Store)
    → is_valid progress ≡ true
    → Table.get progress.session_id s.sessions ≡ some row
    → Stepped lib name progress row (log_step lib st name progress s)
unfolding log_step memory_payload
log_step-Stepped lib {row} st name progress s valid at =
    let f = phase_and_run progress.phase progress.run_id in
    let logged = log (step_log st name "OK" none) s in
    let routed =
      if truthy? progress.diagnosis_template_id then set_template progress logged else logged in
    let at' : Table.get progress.session_id routed.sessions ≡ some row =
      if-elim (λ (s' : Store). Table.get progress.session_id s'.sessions ≡ some row)
        (truthy? progress.diagnosis_template_id) _ _ (λ _. at) (λ _. at) in
    rw (log_step, valid, update_session-ok progress.session_id f routed row at')
      (
        refl,
        get-set_self progress.session_id (memory_of_step lib name progress) routed.memory,
        get-modify_self progress.session_id f routed.sessions row at',
      )

module _ (lib : Library) (ids : RunIds) where
  call_all-append :
      (cs ds : List Callback) (s : Store)
      → call_all lib ids (cs ++ ds) s
        ≡ and_then (call_all lib ids cs s) (λ s'. call_all lib ids ds s')
  unfolding call_all
  call_all-append [] ds s = refl
  call_all-append (c ∷ cs) ds s =
      and_then_assoc _ _ _ (call_back lib ids c s) (λ s'. call_all-append cs ds s')

  -- Calls of which the last is a completed step.
  pub call_all-Stepped :
      {row : DiagnosisSession} (cs : List Callback) (st : DiagnosisState) (name : String)
      (progress : DiagnosisState) (s : Store)
      → (call_all lib ids cs s).0 ≡ ok tt
      → Table.get progress.session_id (call_all lib ids cs s).1.sessions ≡ some row
      → is_valid progress ≡ true
      → Stepped lib name progress row (call_all lib ids (cs ++ step st name progress ∷ []) s)
  unfolding call_all call_back
  call_all-Stepped {row} cs st name progress s went at valid =
      rw (call_all-append cs (step st name progress ∷ []) s)
        (with_ok (call_all lib ids cs s) went at)
    where
      last :
          (r : Outcome (Unit {0}) × Store)
          → Stepped lib name progress row r
          → Stepped lib name progress row (and_then r (λ s'. (ok tt, s')))
      last (ok done, s') h = h
      last (err e, s') h = absurd (ground (arith, h))

      with_ok :
          (r : Outcome (Unit {0}) × Store)
          → r.0 ≡ ok tt
          → Table.get progress.session_id r.1.sessions ≡ some row
          → Stepped lib name progress row
              (and_then r (λ s'. call_all lib ids (step st name progress ∷ []) s'))
      with_ok (err e, s') h at = absurd (ground (arith, h))
      with_ok (ok done, s') h at =
          last (log_step lib st name progress s')
            (log_step-Stepped lib st name progress s' valid at)

  pub ended-ok :
      (ending : Ending) (r : Outcome (Unit {0}) × Store)
      → r.0 ≡ ok tt
      → ended lib ids ending r ≡ (ending, r.1)
  ended-ok ending (ok done, s) h = refl
  ended-ok ending (err e, s) h = absurd (ground (arith, h))
