-- ===== src/ReadWorkers.antt =====
-- UserTools/ReadWorkers/ReadWorkers.cpp: `ReadMessageJob`, its fail function, and the distributor
-- thread.
pub mod Passing
pub mod Distribute
use services_backend.Common.{ℕ, ◌+◌, Bool, true, Option, none, some, List, [], ◌∷◌, ◌++◌, codes}
use services_backend.Zstd.{Zstd}
use services_backend.ZmqQuery.{ZmqQuery}
use services_backend.QueryBatch.{QueryBatch}
use services_backend.Jobs.{ReadJobStruct, Job, read_job}
use services_backend.DataModel.{DataModel}
use services_backend.Distributor.{Pools, Store, add_jobs}
use services_backend.Decode.{Decoded, discard, message, decode_query, decoded}

-- ReadWorkerMonitoring.h, the counters that the jobs update.
pub record ReadWorkerMonitoring : Type 0 where
  pub msgs_processed : ℕ
  pub jobs_failed : ℕ
  pub jobs_completed : ℕ

pub record ReadState : Type 0 where
  pub m_data : DataModel
  pub monitoring_vars : ReadWorkerMonitoring
  pub job_struct_pool : List ReadJobStruct

-- A round of the loop counts the query unless it was discarded.
abbrev pub counted : Decoded → ℕ → ℕ
counted (discard q) n = n
counted (message q text) n = n + 1

unfoldable pub read_loop : Zstd → List ZmqQuery → ℕ → List ZmqQuery × ℕ
read_loop z [] n = ([], n)
read_loop z (q ∷ qs) n =
    let d = decode_query z q in
    let rest = read_loop z qs (counted d n) in (decoded d ∷ rest.0, rest.1)

-- `ReadMessageJob`. The job's argument is null afterwards.
unfoldable pub read_message_job : Zstd → ReadState → ReadJobStruct → ReadState × Bool
read_message_job z st args =
    let looped = read_loop z args.local_msg_queue.queries st.monitoring_vars.msgs_processed in
    let batch = record (args.local_msg_queue) { queries = looped.0 } in
    (
      record st {
        m_data = record (st.m_data) { read_query_queue = st.m_data.read_query_queue ++ batch ∷ [] };
        monitoring_vars = record (st.monitoring_vars) {
          msgs_processed = looped.1;
          jobs_completed = st.monitoring_vars.jobs_completed + 1;
        };
        job_struct_pool = record args { local_msg_queue = batch } ∷ st.job_struct_pool;
      },
      true,
    )

-- `ReadMessageFail`: a null argument is only reported.
unfoldable pub read_message_fail : ReadState → Option ReadJobStruct → ReadState
read_message_fail st none = st
read_message_fail st (some args) = record st {
  monitoring_vars = record (st.monitoring_vars) {
    jobs_failed = st.monitoring_vars.jobs_failed + 1;
  };
  job_struct_pool = args ∷ st.job_struct_pool;
}

-- What round `i` of the distributor writes to the struct of its job.
unfoldable pub fill_job : ℕ → QueryBatch → ReadJobStruct → ReadJobStruct
fill_job i b s = record s { local_msg_queue = b; m_job_name = codes "read_worker" }

-- `Thread`: it takes all that waits and adds one job for each batch.
unfoldable pub read_thread :
    Pools → Store ReadJobStruct → DataModel → Store ReadJobStruct × DataModel
read_thread pools store d =
    let s = add_jobs read_job pools fill_job 0 d.read_msg_queue (store, d.job_queue) in
    (s.0, record d { read_msg_queue = []; job_queue = s.1 })
