-- ===== src/ResultWorkers.antt =====
-- UserTools/ResultWorkers/ResultWorkers.cpp: `ResultJob`, its fail function, and the distributor
-- thread. The replies are built by the child module `Reply`.
pub mod Reply
pub mod Rows
pub mod Routing
pub mod Versions
pub mod Answers
pub mod WriteBatch
pub mod Overdrawn
pub mod Distribute
use services_backend.Common.{
  ℕ, ◌+◌, Bool, true, false, Option, none, some, List, [], ◌∷◌, ◌++◌, Bytes, codes, get_elem?,
  if◌then◌else◌, ◌==◌, Outcome, ok, fault, Fault, index_out_of_range, front_of_empty, ◌>>=◌,
  or_fault,
}
use services_backend.QueryTopic.{Table}
use services_backend.Zstd.{Zstd}
use services_backend.ZmqQuery.{ZmqQuery, topic}
use services_backend.QueryBatch.{QueryBatch}
use services_backend.Jobs.{ResultJobStruct, Job, result_job}
use services_backend.DataModel.{DataModel}
use services_backend.Distributor.{Pools, Store, add_jobs}
use Reply.{read_reply, write_reply}

-- ResultWorkerMonitoring.h, the counters that the jobs update.
pub record ResultWorkerMonitoring : Type 0 where
  pub read_batches_processed : ℕ
  pub write_batches_processed : ℕ
  pub jobs_failed : ℕ
  pub jobs_completed : ℕ
  pub result_access_errors : ℕ

pub record ResultState : Type 0 where
  pub m_data : DataModel
  pub monitoring_vars : ResultWorkerMonitoring
  pub job_struct_pool : List ResultJobStruct

-- The loop over a batch of read queries; it carries the count of result access errors.
unfoldable pub read_loop :
    Zstd → List (Bytes × Bytes) → List ZmqQuery → ℕ → Outcome (List ZmqQuery × ℕ)
read_loop z cache [] n = ok ([], n)
read_loop z cache (q ∷ qs) n =
    read_reply z cache q n >>= λ r. read_loop z cache qs r.1 >>= λ rest. ok (r.0 ∷ rest.0, rest.1)

-- The loop over a batch of write queries; it carries the index into each table's version numbers
-- (`devconfig_i` to `rootplot_i`), too.
unfoldable pub write_loop :
    Zstd → QueryBatch → List ZmqQuery → (Table → ℕ) → ℕ → Outcome (List ZmqQuery × ℕ)
write_loop z b [] next n = ok ([], n)
write_loop z b (q ∷ qs) next n = write_reply z b next q n >>= λ r.
    write_loop z b qs r.1 r.2 >>= λ rest. ok (r.0 ∷ rest.0, rest.1)

-- A batch of read queries is known by the first letter of its first query's topic.
unfoldable pub is_read_batch : List ZmqQuery → Outcome Bool
is_read_batch [] = fault front_of_empty
is_read_batch (q ∷ qs) = or_fault (get_elem? (topic q) 0) index_out_of_range >>= λ c. ok (c == b'R')

-- The counters after the loop of a read or of a write batch, with `n` access errors.
unfoldable pub processed : Bool → ℕ → ResultWorkerMonitoring → ResultWorkerMonitoring
processed true n m = record m {
  read_batches_processed = m.read_batches_processed + 1;
  result_access_errors = n;
}
processed false n m = record m {
  write_batches_processed = m.write_batches_processed + 1;
  result_access_errors = n;
}

unfoldable pub reply_loop :
    Zstd → List (Bytes × Bytes) → QueryBatch → Bool → ℕ → Outcome (List ZmqQuery × ℕ)
reply_loop z cache b true n = read_loop z cache b.queries n
reply_loop z cache b false n = write_loop z b b.queries (λ t. 0) n

-- The end of the job: the batch goes to the reply sender, the struct back to its pool.
unfoldable pub hand_on : ResultState → ResultJobStruct → Bool → List ZmqQuery × ℕ → ResultState
unfolding processed
hand_on st args is_read (replies, n) =
    let batch = record (args.batch) { queries = replies } in
    let counted = processed is_read n st.monitoring_vars in
    record st {
      m_data = record (st.m_data) { query_replies = st.m_data.query_replies ++ batch ∷ [] };
      monitoring_vars = record counted { jobs_completed = st.monitoring_vars.jobs_completed + 1 };
      job_struct_pool = record args { batch = batch } ∷ st.job_struct_pool;
    }

-- `ResultJob`. The job's argument is null afterwards.
unfoldable pub result_job_func : Zstd → ResultState → ResultJobStruct → Outcome (ResultState × Bool)
result_job_func z st args = is_read_batch args.batch.queries >>= λ is_read.
    reply_loop z st.m_data.cached_configs args.batch is_read st.monitoring_vars.result_access_errors
    >>= λ r. ok (hand_on st args is_read r, true)

-- `ResultJobFail`: a null argument is only reported.
unfoldable pub result_job_fail : ResultState → Option ResultJobStruct → ResultState
result_job_fail st none = st
result_job_fail st (some args) = record st {
  monitoring_vars = record (st.monitoring_vars) {
    jobs_failed = st.monitoring_vars.jobs_failed + 1;
  };
  job_struct_pool = args ∷ st.job_struct_pool;
}

-- What round `i` of the distributor writes to the struct of its job.
unfoldable pub fill_job : ℕ → QueryBatch → ResultJobStruct → ResultJobStruct
fill_job i b s = record s { batch = b; m_job_name = codes "result_worker" }

-- `Thread`: it takes all that waits and adds one job for each batch.
unfoldable pub result_thread :
    Pools → Store ResultJobStruct → DataModel → Store ResultJobStruct × DataModel
result_thread pools store d =
    let s = add_jobs result_job pools fill_job 0 d.query_results (store, d.job_queue) in
    (s.0, record d { query_results = []; job_queue = s.1 })
