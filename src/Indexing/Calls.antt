-- ===== src/Indexing/Calls.antt =====
-- Any use of the index repository (src/energy_agent/indexing/repository.py): its methods that write, in
-- any order.
use energy_agent_diagnosis.Common.{ℕ, String, Option, List, [], ◌∷◌}
use energy_agent_diagnosis.Persistence.Index.{IndexJobStatus, IndexJobCreate}
use energy_agent_diagnosis.Persistence.Database.{Database}
use energy_agent_diagnosis.Indexing.Repository
use energy_agent_diagnosis.Indexing.Jobs

pub data Call : Type 0 where
  add_job : String → IndexJobCreate → Call
  mark_published : ℕ → String → Call
  mark_publish_failed : ℕ → String → Call
  start : String → Call
  finish : String → IndexJobStatus → Call
  fail : String → String → String → Option ℕ → ℕ → Call
  retry : String → String → Call

unfoldable pub apply : Call → Database → Database
apply (add_job new_id r) db = (Repository.add_job new_id r db).1
apply (mark_published id job_id) db = Repository.mark_published id job_id db
apply (mark_publish_failed id code) db = Repository.mark_publish_failed id code db
apply (start job_id) db = (Jobs.start job_id db).1
apply (finish job_id status) db = Jobs.finish job_id status db
apply (fail job_id code message delay now) db = Jobs.fail job_id code message delay now db
apply (retry job_id trace_id) db = (Jobs.retry job_id trace_id db).1

unfoldable pub apply_all : List Call → Database → Database
apply_all [] db = db
apply_all (c ∷ cs) db = apply_all cs (apply c db)
