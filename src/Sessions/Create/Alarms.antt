-- ===== src/Sessions/Create/Alarms.antt =====
-- The deduplication of alarms: src/energy_agent/persistence/repositories/alarm_dedup.py and
-- reliability/dedup.py, and which requests `create_session` gives it.
use Prim.Native.String.{◌++◌ as append}
use energy_agent_diagnosis.Common.{
  ℕ, ◌+◌, String, Option, none, some, Bool, true, false, not, ◌&&◌, [], ◌∷◌, ◌++◌, string_eq, leb,
  truthy?, if◌then◌else◌,
}
use energy_agent_diagnosis.Common.Table
use energy_agent_diagnosis.Agent.Workflow.{DiagnosisPhase}
use energy_agent_diagnosis.Guardrails.Decisions.{sorted_set}
use energy_agent_diagnosis.Sessions.State.{SessionSource}
use energy_agent_diagnosis.Sessions.Store.{AlarmDedup, Store, set}
use energy_agent_diagnosis.Sessions.Requests.{Library, Settings, CreateSessionRequest}

unfoldable pub normalize_alarm_category : Library → String → String
normalize_alarm_category lib value = lib.without_separators (lib.casefold value)

unfoldable pub alarm_dedup_key : Library → String → String → String
unfolding normalize_alarm_category
alarm_dedup_key lib device_id category =
    lib.sha256 (append device_id (append "\0" (normalize_alarm_category lib category)))

abbrev pub is_failed : DiagnosisPhase → Bool
is_failed DiagnosisPhase.failed = true
is_failed _ = false

abbrev pub hit_again : Library → Settings → ℕ → String → AlarmDedup → AlarmDedup
hit_again lib settings now alarm_id a = record a {
  expires_at = now + settings.window_seconds;
  hit_count = a.hit_count + 1;
  alarm_ids = sorted_set lib.texts (a.alarm_ids ++ alarm_id ∷ []);
}

-- An alarm that is still open, of a session that has not failed.
abbrev pub is_open : ℕ → Store → AlarmDedup → Bool
is_open now s a = not (leb a.expires_at now) && elim (Table.get a.session_id s.sessions) [
  | none ↦ false
  | some row ↦ not (is_failed row.phase)
]

-- `AlarmDedupRepository.hit`: the session of the alarm and the count of its hits.
unfoldable pub hit : Library → Settings → ℕ → String → String → Store → Option (String × ℕ) × Store
hit lib settings now key alarm_id s =
    elim (Table.get key s.alarms) as (λ _. Option (String × ℕ) × Store) [
      | none ↦ (none, s)
      | some a ↦
          if is_open now s a
          then (
            some (a.session_id, a.hit_count + 1),
            record s { alarms = Table.modify key (hit_again lib settings now alarm_id) s.alarms },
          )
          else (none, s)
    ]

-- `AlarmDedupRepository.register`
unfoldable pub register : Library → Settings → ℕ → String → String → String → String → Store → Store
unfolding alarm_dedup_key
register lib settings now device_id category alarm_id session_id s = record s {
  alarms =
      set (alarm_dedup_key lib device_id category)
        (record {
          device_id = device_id;
          alarm_category = normalize_alarm_category lib category;
          session_id = session_id;
          alarm_ids = alarm_id ∷ [];
          expires_at = now + settings.window_seconds;
          hit_count = 1;
        })
        s.alarms;
}

-- A device, the category of an alarm, and its id.
pub record AlarmKey : Type 0 where
  pub device_id : String
  pub alarm_category : String
  pub alarm_id : String

abbrev pub alarm_key_of : Option String → Option String → Option String → Option AlarmKey
alarm_key_of (some d) (some n) (some a) =
    if truthy? (some d) && truthy? (some n) && truthy? (some a)
    then some (record { device_id = d; alarm_category = n; alarm_id = a })
    else none
alarm_key_of _ _ _ = none

-- The alarm of a request, where the service deduplicates it.
abbrev pub alarm_of_source : SessionSource → Settings → CreateSessionRequest → Option AlarmKey
alarm_of_source SessionSource.chat settings p = none
alarm_of_source SessionSource.alarm settings p =
    if settings.has_alarm_dedup then alarm_key_of p.device_id p.alarm_name p.alarm_id else none

abbrev pub alarm_of : Settings → CreateSessionRequest → Option AlarmKey
alarm_of settings p = alarm_of_source p.source settings p
