-- ===== src/DatabaseWorkers/Job/Delivery.antt =====
-- A database job ends, and hands on all batches of queries that it was given.
use services_backend.Common.{
  ℕ, ◌+◌, ◌-◌, ◌^◌, ◌<◌, ◌≡◌, false, Option, none, some, List, ◌∷◌, ◌++◌, length, if◌then◌else◌,
}
use services_backend.ZmqQuery.{ZmqQuery}
use services_backend.QueryBatch.{QueryBatch}
use services_backend.DatabaseWorkers.{DatabaseJobStruct, has_log_mon}
use services_backend.DatabaseWorkers.Inserts.{Inserts}
use services_backend.DatabaseWorkers.Inserts.Rounds.{Loop, RoundEnd}
use services_backend.DatabaseWorkers.Inserts.Ending.{Ends}
use services_backend.DatabaseWorkers.Inserts.Parts.{all_parts}
use services_backend.DatabaseWorkers.Inserts.Keeps.{Keeps, LoopKeeps}
use services_backend.DatabaseWorkers.Reads.Batches.{ReadCounts}
use services_backend.DatabaseWorkers.Job.{DatabaseShared, JobEnd, returned, raised_job}

-- A batch that one more round than there are queries, within `n`, goes through.
abbrev pub Fits : ℕ → QueryBatch → Type 0
Fits n b = (length b.queries < 2 ^ 16) × (length b.queries < n)

abbrev AllRead : List QueryBatch → Option (List QueryBatch × ReadCounts) → Type 0
AllRead bs none = ⊥
AllRead bs (some r) = all_parts r.0 ≡ all_parts bs

-- A job struct that has the batches and messages that it came with.
pub record HasWork (j j' : DatabaseJobStruct) : Type 0 where
  pub read_parts : all_parts j'.read_queue ≡ all_parts j.read_queue
  pub write_parts : all_parts j'.write_queue ≡ all_parts j.write_queue
  pub log_texts : j'.logging_queue ≡ j.logging_queue
  pub mon_texts : j'.monitoring_queue ≡ j.monitoring_queue

-- A job that returned: all read batches and then all write batches are queued for the replies, with
-- the queries that they had; the job is counted, a worker for log and monitoring messages is free
-- again, and the argument struct is back in the pool, with the batches that it had and no error.
pub record Completed (j : DatabaseJobStruct) (s s' : DatabaseShared) : Type 0 where
  pub results :
      all_parts s'.model.query_results
      ≡ all_parts s.model.query_results ++ (all_parts j.read_queue ++ all_parts j.write_queue)
  pub completed : s'.counters.jobs_completed ≡ s.counters.jobs_completed + 1
  pub workers :
      s'.distributor.n_log_mon_workers
      ≡ s.distributor.n_log_mon_workers - (if has_log_mon j then 1 else 0)
  pub pool :
      (j' : DatabaseJobStruct) × (s'.distributor.job_struct_pool
        ≡ j' ∷ s.distributor.job_struct_pool)
      × HasWork j j'
      × (j'.had_error ≡ false)

-- A job that threw: the read batches are queued, the struct keeps its work, and the job is not counted,
-- not off the count of workers, and its struct is not in the pool.
pub record Raised (j : DatabaseJobStruct) (s : DatabaseShared) (j' : DatabaseJobStruct)
    (s' : DatabaseShared) : Type 0 where
  pub results :
      all_parts s'.model.query_results ≡ all_parts s.model.query_results ++ all_parts j.read_queue
  pub work : HasWork j j'
  pub completed : s'.counters.jobs_completed ≡ s.counters.jobs_completed
  pub distributor : s'.distributor ≡ s.distributor

abbrev pub Delivered : DatabaseJobStruct → DatabaseShared → Option JobEnd → Type 0
Delivered j s none = ⊥
Delivered j s (some (returned s')) = Completed j s s'
Delivered j s (some (raised_job j' s')) = Raised j s j' s'

abbrev LoopEnds : Loop → Option RoundEnd → Type 0
LoopEnds r o = Ends o × LoopKeeps r o
