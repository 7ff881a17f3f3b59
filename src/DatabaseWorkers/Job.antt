-- ===== src/DatabaseWorkers/Job.antt =====
-- UserTools/DatabaseWorkers/DatabaseWorkers.cpp: `DatabaseJob` as a whole. The read queries come
-- first and their batches are handed on at once, then come the insertions. Opening a connection or a
-- transaction is taken to succeed, and log lines are left out.
pub mod Delivery
use services_backend.Common.{
  ℕ, ◌+◌, ◌-◌, Bool, true, false, Option, none, some, List, [], ◌∷◌, ◌++◌, if◌then◌else◌, Outcome,
  ok, ◌>>=◌,
}
use services_backend.QueryBatch.{QueryBatch}
use services_backend.DataModel.{DataModel}
use services_backend.DatabaseWorkers.{DatabaseJobStruct, DatabaseDistributor, has_log_mon}
use services_backend.DatabaseWorkers.Server.{Server, Session, Statement}
use services_backend.DatabaseWorkers.Inserts.{Counts, Inserts}
use services_backend.DatabaseWorkers.Inserts.Rounds.{Loop, RoundEnd, left, threw, again, rounds}
use services_backend.DatabaseWorkers.Reads.{Pipeline}
use services_backend.DatabaseWorkers.Reads.Batches.{ReadCounts, read_batches}

-- What libpqxx and the database give: the pipeline of each round over each batch of read queries,
-- and the answers to the insertions. `stored` is in the database already.
pub record Database : Type 0 where
  pub pipelines : ℕ → ℕ → Pipeline
  pub server : Server
  pub stored : List Statement

-- DatabaseWorkerMonitoring.h, but for `jobs_failed` and `thread_crashes`.
pub record DatabaseCounters : Type 0 where
  pub reads : ReadCounts
  pub submissions : Counts
  pub submissions_failed : Counts
  pub logging_bytes : ℕ
  pub monitoring_bytes : ℕ
  pub jobs_completed : ℕ

-- What a worker shares with the other threads. The number of workers and the pool of argument
-- structs are the distributor's.
pub record DatabaseShared : Type 0 where
  pub model : DataModel
  pub distributor : DatabaseDistributor
  pub counters : DatabaseCounters

-- `arg` is empty after a job that returned. `raised_job` is one that threw; its argument stays.
pub data JobEnd : Type 0 where
  returned : DatabaseShared → JobEnd
  raised_job : DatabaseJobStruct → DatabaseShared → JobEnd

-- "pass them out for distribution"
unfoldable pub hand_on : List QueryBatch → DatabaseShared → DatabaseShared
hand_on bs s = record s { model = record (s.model) { query_results = s.model.query_results ++ bs } }

-- The state in which the loop around the insertions starts.
unfoldable pub start : List Statement → DatabaseJobStruct → DatabaseShared → Inserts
start stored j s = record {
  session = record { tx = []; stored = stored; is_open = true; asked = 0 };
  had_error = j.had_error;
  checkpoint = j.checkpoint;
  checkpoint_i = j.checkpoint_i;
  checkpoint_j = j.checkpoint_j;
  multicast_batch_pool = s.model.multicast_batch_pool;
  submissions = s.counters.submissions;
  submissions_failed = s.counters.submissions_failed;
  logging_bytes = s.counters.logging_bytes;
  monitoring_bytes = s.counters.monitoring_bytes;
}

-- What the insertions leave in the job and in the shared state.
unfoldable pub job_after : Loop → DatabaseJobStruct
job_after (j, r) = record j {
  had_error = r.had_error;
  checkpoint = r.checkpoint;
  checkpoint_i = r.checkpoint_i;
  checkpoint_j = r.checkpoint_j;
}

unfoldable pub shared_after : Inserts → DatabaseShared → DatabaseShared
shared_after r s = record s {
  model = record (s.model) { multicast_batch_pool = r.multicast_batch_pool };
  counters = record (s.counters) {
    submissions = r.submissions;
    submissions_failed = r.submissions_failed;
    logging_bytes = r.logging_bytes;
    monitoring_bytes = r.monitoring_bytes;
  };
}

-- The end of a job: its write batches are handed on, it is counted, and its struct goes back to the
-- pool.
unfoldable pub complete : DatabaseJobStruct → DatabaseShared → DatabaseShared
complete j s =
    let s' = hand_on j.write_queue s in
    record s' {
      counters = record (s'.counters) { jobs_completed = s'.counters.jobs_completed + 1 };
      distributor = record (s'.distributor) {
        n_log_mon_workers =
            if has_log_mon j
            then s'.distributor.n_log_mon_workers - 1
            else s'.distributor.n_log_mon_workers;
        job_struct_pool = j ∷ s'.distributor.job_struct_pool;
      };
    }

-- After the read queries.
unfoldable pub after_reads :
    DatabaseJobStruct
    → DatabaseShared
    → List QueryBatch × ReadCounts
    → DatabaseJobStruct × DatabaseShared
after_reads j s (bs, c) = (
  record j { read_queue = bs },
  hand_on bs (record s { counters = record (s.counters) { reads = c } }),
)

unfoldable pub job_end :
    DatabaseJobStruct → DatabaseShared → Option RoundEnd → Outcome (Option JobEnd)
job_end j s none = ok none
job_end j s (some (left r)) = ok (some (returned (complete (job_after r) (shared_after r.1 s))))
job_end j s (some (threw r)) = ok (some (raised_job (job_after r) (shared_after r.1 s)))
job_end j s (some (again r)) = ok none

-- `DatabaseJob`, with at most `n` rounds over a batch and `m` rounds of the insertions; `none` is a
-- job that is not over by then.
unfoldable pub database_job :
    Database → ℕ → ℕ → DatabaseJobStruct → DatabaseShared → Outcome (Option JobEnd)
database_job db n m j s = read_batches db.pipelines n 0 j.read_queue s.counters.reads >>= λ o.
    elim o [
      | none ↦ ok none
      | some r ↦
          let (j1, s1) = after_reads j s r in
          rounds db.server m (j1, start db.stored j1 s1) >>= job_end j1 s1
    ]
