-- ===== src/ResultWorkers/WriteBatch.antt =====
-- `ResultJob` over a batch of write queries.
use services_backend.Common.{◌+◌, ◌≡◌, refl, true, false, Option, List, [], ◌∷◌, ◌++◌, map, ok}
use services_backend.QueryTopic.{Table}
use services_backend.Zstd.{Zstd}
use services_backend.ZmqQuery.{ZmqQuery}
use services_backend.QueryBatch.{QueryBatch}
use services_backend.Jobs.{ResultJobStruct}
use services_backend.ResultWorkers.{
  ResultState, is_read_batch, reply_loop, result_job_func, hand_on, processed,
}
use services_backend.ResultWorkers.Answers.{
  Asked, Enough, count, replies_of, expected, sender_of, write_loop-versions,
}

-- What a job over a batch of write queries leaves, with the replies `rs`.
pub record Answered (z : Zstd) (st st' : ResultState) (b : QueryBatch) (os : List (Option Table))
    (rs : List ZmqQuery) : Type 0 where
  pub queued : st'.m_data.query_replies ≡ st.m_data.query_replies ++ record b { queries = rs } ∷ []
  pub senders : map sender_of rs ≡ map sender_of b.queries
  pub answers : (t : Table) → replies_of t os rs ≡ expected z b t 0 (count t os)
  pub n_batches :
      st'.monitoring_vars.write_batches_processed ≡ st.monitoring_vars.write_batches_processed + 1
  pub completed : st'.monitoring_vars.jobs_completed ≡ st.monitoring_vars.jobs_completed + 1

-- A job over a batch of write queries, in which every table whose insertion gave version numbers
-- has one for each of its queries, does not fault. It queues one batch of replies. Each reply goes
-- to the sender of its query under its number; the queries of each table get the table's version
-- numbers, one each and in order, or the error of the batch, if the insertion gave none.
pub result_job_func-Answered :
    (z : Zstd) (st : ResultState) (args : ResultJobStruct) (os : List (Option Table))
    → is_read_batch args.batch.queries ≡ ok false
    → Asked args.batch.queries os
    → Enough args.batch (λ t. 0) os
    → (st' : ResultState) × (rs : List ZmqQuery) × (result_job_func z st args ≡ ok (st', true))
      × Answered z st st' args.batch os rs
unfolding result_job_func reply_loop
result_job_func-Answered z st args os write asked enough =
    let (rs, n, run, senders, answers) =
      write_loop-versions z args.batch args.batch.queries os (λ t. 0)
        st.monitoring_vars.result_access_errors asked enough in
    (
      hand_on st args false (rs, n),
      rs,
      rw write (rw run refl),
      unfold hand_on processed in
          record {
            queued = refl;
            senders = senders;
            answers = answers;
            n_batches = refl;
            completed = refl;
          },
    )
