-- ===== src/Tests/Pipeline.antt =====
-- DatabaseWorkers and ResultWorkers one after the other, at a concrete input.
use services_backend.Common.{
  Bool, false, ◌≤◌, ◌≡◌, ◌≢◌, if◌then◌else◌, refl, true, List, [], ◌∷◌, arith, codes, ok,
}
use services_backend.QueryTopic.{
  Table, alarms, devconfigs, base_configs, runmode_configs, calibrations, rootplots, plotlyplots,
  query_topic,
}
use services_backend.ZmqQuery.{ZmqQuery}
use services_backend.QueryBatch.{QueryBatch}
use services_backend.ResultWorkers.{ResultState, result_job_func}
use services_backend.ResultWorkers.Reply.{versioned}
use services_backend.ResultWorkers.Answers.{count}
use services_backend.ResultWorkers.WriteBatch.{Answered}
use services_backend.DatabaseWorkers.Server.{Server, Reply, done, raised, committed}
use services_backend.DatabaseWorkers.Inserts.Writes.{tables, is_due, insert_tables}
use services_backend.DatabaseWorkers.Inserts.Clean.{IsHealthy}
use services_backend.DatabaseWorkers.Inserts.Versions.{insert_tables-Answered}
use services_backend.Tests.Data.{toy}
use services_backend.Tests.Inserts.{begin}
use services_backend.Tests.Result.{
  wrote, wrote_tables, wrote-Asked, wrote_is_write, result_state, result_struct,
}

abbrev two_numbers : Bool → Reply
two_numbers true = done [] (7 ∷ 8 ∷ [])
two_numbers false = raised [] (codes "usage_error") (codes "closed")

abbrev generous : Server
generous = record { answer = λ s q. two_numbers s.is_open; commit = λ s. committed }

abbrev generous_health : IsHealthy generous
generous_health = record {
  rows = λ q. [];
  versions = λ q. 7 ∷ 8 ∷ [];
  answers = λ s q e. rw e refl;
  commits = λ s e. refl;
}

abbrev fresh_batch : QueryBatch
fresh_batch = record wrote { version_nums = λ t. []; buffer = λ t. codes "[{1}, {1}]" }

two_suffice : (t : Table) → count t wrote_tables ≤ 2
unfolding count query_topic versioned
two_suffice alarms = omega arith
two_suffice devconfigs = omega arith
two_suffice base_configs = omega arith
two_suffice runmode_configs = omega arith
two_suffice calibrations = omega arith
two_suffice rootplots = omega arith
two_suffice plotlyplots = omega arith

insert_tables-Answered_example :
    let job = record result_struct {
      batch = (insert_tables generous 0 tables fresh_batch begin).0;
    } in
    ((t : Table)
      → t ≢ alarms
      → job.batch.version_nums t ≡ (if is_due t fresh_batch then 7 ∷ 8 ∷ [] else []))
    × ((st' : ResultState) × (rs : List ZmqQuery) × (result_job_func toy result_state job
          ≡ ok (st', true))
        × Answered toy result_state st' job.batch wrote_tables rs)
insert_tables-Answered_example =
    insert_tables-Answered generous generous_health toy wrote_tables 0 fresh_batch begin
      result_state result_struct refl (λ t. refl) two_suffice wrote_is_write wrote-Asked
