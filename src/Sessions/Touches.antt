-- ===== src/Sessions/Touches.antt =====
-- Which rows of the table of sessions a run of src/energy_agent/agent/execution_service.py touches.
use energy_agent_diagnosis.Common.{
  String, Option, some, not, List, ◌≡◌, ◌≢◌, refl, sym, arith, eq_iff, string_eq, Every, nil, cons,
  inl, inr, Option-cases, truthy?, if-elim, option-elim,
}
use mathlib.Core.Path.{subst}
use energy_agent_diagnosis.Common.Errors.{Outcome, ok, err}
use energy_agent_diagnosis.Common.Table
use energy_agent_diagnosis.Common.Table.{Table, get-modify, get-modify_self}
use energy_agent_diagnosis.Sessions.State.{DiagnosisState, is_valid}
use energy_agent_diagnosis.Sessions.Store.{DiagnosisSession, Store, update_session, and_then}
use energy_agent_diagnosis.Sessions.Requests.{Library}
use energy_agent_diagnosis.Sessions.Run.{
  Callback, Ending, finished_with, RunIds, log_step, write_memory, call_back, call_all, invoke,
  ended, step_memory,
}

-- From one table of sessions to another by changes of one row.
pub data Touches (k : String) (t : Table DiagnosisSession) : Table DiagnosisSession → Type 0 where
  untouched : Touches k t t
  touched :
      {u : Table DiagnosisSession} (f : DiagnosisSession → DiagnosisSession)
      → Touches k t u
      → Touches k t (Table.modify k f u)

pub Touches-other :
    {k : String} {t u : Table DiagnosisSession} (j : String)
    → k ≢ j
    → Touches k t u
    → Table.get j u ≡ Table.get j t
Touches-other j ne untouched = refl
Touches-other {k} j ne (touched {u} f path) =
    ground (arith, ne, eq_iff k j, get-modify k j f u, Touches-other j ne path)

pub Touches-some :
    {k : String} {t u : Table DiagnosisSession} {row : DiagnosisSession}
    → Table.get k t ≡ some row
    → Touches k t u
    → (row' : DiagnosisSession) × (Table.get k u ≡ some row')
Touches-some {row} at untouched = (row, at)
Touches-some {k} at (touched {u} f path) =
    let (row', at') = Touches-some at path in (f row', get-modify_self k f u row' at')

-- What a callback of a run of a session names.
pub data OfSession (k : String) : Callback → Type 0 where
  of_step :
      (st : DiagnosisState) (name : String) (progress : DiagnosisState)
      → progress.session_id ≡ k
      → OfSession k (Callback.step st name progress)
  of_failed : (st : DiagnosisState) (name e : String) → OfSession k (Callback.step_failed st name e)
  of_empty : (st : DiagnosisState) (name : String) → OfSession k (Callback.step_empty st name)
  of_tool : (name status : String) (e : Option String) → OfSession k (Callback.tool name status e)
  of_written : (st : DiagnosisState) → OfSession k (Callback.written st)

-- A result whose sessions are touched at one key.
pub data Leaves {ℓ} {A : Type ℓ} (k : String) (t : Table DiagnosisSession)
    : A × Store → Type ℓ where
  leaves : {a : A} {s : Store} → Touches k t s.sessions → Leaves k t (a, s)

pub Leaves-Touches {ℓ} :
    {A : Type ℓ} {k : String} {t : Table DiagnosisSession} {r : A × Store}
    → Leaves k t r
    → Touches k t r.1.sessions
Leaves-Touches (leaves path) = path

module _ {k : String} {t : Table DiagnosisSession} where
  pub update_session-Leaves :
      (f : DiagnosisSession → DiagnosisSession) (s : Store)
      → Touches k t s.sessions
      → Leaves k t (update_session k f s)
  unfolding update_session
  update_session-Leaves f s path = elim (Option-cases (Table.get k s.sessions)) [
    | inl gone ↦ rw (update_session, gone) (leaves path)
    | inr (row, at) ↦ rw (update_session, at) (leaves (touched f path))
  ]

  pub and_then-Leaves :
      {A : Type 0} {r : Outcome (Unit {0}) × Store} (f : Store → Outcome A × Store)
      → Leaves k t r
      → ((s : Store) → Touches k t s.sessions → Leaves k t (f s))
      → Leaves k t (and_then r f)
  and_then-Leaves f (leaves {a = ok done} {s = s} path) h = h s path
  and_then-Leaves f (leaves {a = err e} {s = s} path) h = leaves path

pub update_session_at-Leaves :
    {k : String} {t : Table DiagnosisSession} (j : String) (f : DiagnosisSession → DiagnosisSession)
    (s : Store)
    → j ≡ k
    → Touches k t s.sessions
    → Leaves k t (update_session j f s)
update_session_at-Leaves {t} j f s same path =
    subst (λ i. Leaves i t (update_session j f s)) same
      (update_session-Leaves f s (subst (λ i. Touches i t s.sessions) (sym same) path))

module _ (lib : Library) (ids : RunIds) {k : String} {t : Table DiagnosisSession} where
  log_step-Leaves :
      (st : DiagnosisState) (name : String) (progress : DiagnosisState) (s : Store)
      → progress.session_id ≡ k
      → Touches k t s.sessions
      → Leaves k t (log_step lib st name progress s)
  unfolding log_step
  log_step-Leaves st name progress s at path =
      if-elim (Leaves k t) (not (is_valid progress)) _ _ (λ _. leaves path)
        (λ _.
          and_then-Leaves (λ s'. (ok tt, step_memory lib name progress s'))
            (update_session_at-Leaves progress.session_id _ _ at (
              if-elim (λ (s' : Store). Touches k t s'.sessions)
                (truthy? progress.diagnosis_template_id) _ _ (λ _. path) (λ _. path)))
            (λ s' path'. leaves path'))

  call_back-Leaves :
      (c : Callback) (s : Store)
      → OfSession k c
      → Touches k t s.sessions
      → Leaves k t (call_back lib ids c s)
  unfolding call_back write_memory
  call_back-Leaves _ s (of_step st name progress at) path =
      log_step-Leaves st name progress s at path
  call_back-Leaves _ s (of_failed st name e) path = leaves path
  call_back-Leaves _ s (of_empty st name) path = leaves path
  call_back-Leaves _ s (of_tool name status e) path = leaves path
  call_back-Leaves _ s (of_written st) path =
      option-elim (λ s'. Leaves k t (ok tt, s')) st.final_response s _ (leaves path)
        (λ r. leaves path)

  pub call_all-Leaves :
      {cs : List Callback} (s : Store)
      → Every (OfSession k) cs
      → Touches k t s.sessions
      → Leaves k t (call_all lib ids cs s)
  unfolding call_all
  call_all-Leaves s nil path = leaves path
  call_all-Leaves s (cons {x = c} {xs = cs} of_k rest) path =
      and_then-Leaves (λ s'. call_all lib ids cs s') (call_back-Leaves c s of_k path)
        (λ s' path'. call_all-Leaves s' rest path')

  ended-Leaves :
      {r : Outcome (Unit {0}) × Store} (ending : Ending)
      → Leaves k t r
      → Leaves k t (ended lib ids ending r)
  ended-Leaves ending (leaves {a = ok done} path) = leaves path
  ended-Leaves ending (leaves {a = err e} path) = leaves path

  pub invoke-Leaves :
      (cs : List Callback) (ending : Ending) (s : Store)
      → Every (OfSession k) cs
      → Touches k t s.sessions
      → Leaves k t (invoke lib ids cs ending s)
  unfolding invoke
  invoke-Leaves cs ending s of_k path = ended-Leaves ending (call_all-Leaves s of_k path)

module _ (lib : Library) (ids : RunIds) where
  ended-finished :
      (r : Outcome (Unit {0}) × Store) (ending : Ending) (o : DiagnosisState)
      → (ended lib ids ending r).0 ≡ finished_with o
      → ending ≡ finished_with o
  ended-finished (ok done, s) ending o h = h
  ended-finished (err e, s) ending o h = absurd (ground (arith, h))

  pub invoke-finished :
      (cs : List Callback) (ending : Ending) (s : Store) (o : DiagnosisState)
      → (invoke lib ids cs ending s).0 ≡ finished_with o
      → ending ≡ finished_with o
  unfolding invoke
  invoke-finished cs ending s o h = ended-finished (call_all lib ids cs s) ending o h
