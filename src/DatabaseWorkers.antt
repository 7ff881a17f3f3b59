-- ===== src/DatabaseWorkers.antt =====
-- UserTools/DatabaseWorkers/DatabaseWorkers.cpp: the distributor thread, which collects what waits
-- for the database in one job, the fail function, and the two slow controls that read the cache.
pub mod Collect
pub mod Reads
pub mod Server
pub mod Inserts
pub mod Job
pub mod Cache
use services_backend.Common.{
  ℕ, ◌+◌, ◌-◌, Bool, true, false, Option, none, some, List, [], ◌∷◌, ◌++◌, Bytes, codes, is_empty,
  not, ◌||◌, ltb, if◌then◌else◌,
}
use services_backend.QueryBatch.{QueryBatch}
use services_backend.DataModel.{DataModel}
use services_backend.ResultWorkers.Reply.{find_config}

pub data DatabaseJobStep : Type 0 where
  generics logging monitoring rootplots plotlyplots writes finish : DatabaseJobStep

-- The argument struct of a job, without its pointers and without `last_i`, `ids` and
-- `pipeline_error`, which are set before every use. The sets hold the indices of batches that
-- failed. `clear` leaves the checkpoint and the indices of the endpoint as they were.
pub record DatabaseJobStruct : Type 0 where
  pub m_job_name : Bytes
  pub read_queue : List QueryBatch
  pub write_queue : List QueryBatch
  pub logging_queue : List Bytes
  pub monitoring_queue : List Bytes
  pub rootplot_queue : List Bytes
  pub plotlyplot_queue : List Bytes
  pub bad_logs : List ℕ
  pub bad_mons : List ℕ
  pub bad_rootplots : List ℕ
  pub bad_plotlyplots : List ℕ
  pub had_error : Bool
  pub checkpoint : DatabaseJobStep
  pub endpoint : DatabaseJobStep
  pub checkpoint_i : ℕ
  pub checkpoint_j : ℕ
  pub endpoint_i : ℕ
  pub endpoint_j : ℕ

-- The distributor's `_args`. `job_queue` is the queue of the tool's own worker pool.
pub record DatabaseDistributor : Type 0 where
  pub the_job : Option DatabaseJobStruct
  pub n_log_mon_workers : ℕ
  pub job_queue : List DatabaseJobStruct
  pub job_struct_pool : List DatabaseJobStruct
  pub jobs_failed : ℕ

-- What the framework's pools give: the struct that the job from `job_pool` still carries, if its data
-- pointer is not null, and the one from `job_struct_pool`.
pub record DatabasePools : Type 0 where
  pub carried : Option DatabaseJobStruct
  pub get_new : DatabaseJobStruct

unfoldable pub clear_job : DatabaseJobStruct → DatabaseJobStruct
clear_job j = record j {
  read_queue = [];
  write_queue = [];
  logging_queue = [];
  monitoring_queue = [];
  rootplot_queue = [];
  plotlyplot_queue = [];
  bad_logs = [];
  bad_mons = [];
  bad_rootplots = [];
  bad_plotlyplots = [];
  had_error = false;
  endpoint = finish;
}

-- The job to fill: the one that the last call left, or a new one.
unfoldable pub job_to_fill : DatabasePools → Option DatabaseJobStruct → DatabaseJobStruct
job_to_fill pools (some j) = j
job_to_fill pools none = elim pools.carried [ some old ↦ old | none ↦ pools.get_new ]

-- The swaps: the job's queues are empty before them. `log_mon` says whether logging and monitoring
-- messages are grabbed.
unfoldable pub grab : Bool → DataModel → DatabaseJobStruct → DatabaseJobStruct
grab log_mon d j = record j {
  logging_queue = if log_mon then d.log_query_queue else [];
  monitoring_queue = if log_mon then d.mon_query_queue else [];
  rootplot_queue = d.rootplot_query_queue;
  plotlyplot_queue = d.plotlyplot_query_queue;
  write_queue = d.write_query_queue;
  read_queue = d.read_query_queue;
}

-- The data model after the swaps.
unfoldable pub grabbed : Bool → DataModel → DataModel
grabbed log_mon d = record d {
  log_query_queue = if log_mon then [] else d.log_query_queue;
  mon_query_queue = if log_mon then [] else d.mon_query_queue;
  rootplot_query_queue = [];
  plotlyplot_query_queue = [];
  write_query_queue = [];
  read_query_queue = [];
}

unfoldable pub has_log_mon : DatabaseJobStruct → Bool
has_log_mon j = not (is_empty j.logging_queue) || not (is_empty j.monitoring_queue)

unfoldable pub has_work : DatabaseJobStruct → Bool
has_work j =
    has_log_mon j
    || (not (is_empty j.rootplot_queue)
        || (not (is_empty j.plotlyplot_queue)
            || (not (is_empty j.write_queue) || not (is_empty j.read_queue))))

-- The end of the thread function: a job with something to do is added, one without is kept.
unfoldable pub submit : DatabaseJobStruct → DatabaseDistributor → DatabaseDistributor
submit j s =
    if has_work j
    then record s {
      the_job = none;
      n_log_mon_workers = if has_log_mon j then s.n_log_mon_workers + 1 else s.n_log_mon_workers;
      job_queue = s.job_queue ++ record j { m_job_name = codes "database_worker" } ∷ [];
    }
    else record s { the_job = some j }

-- `Thread`, one call.
unfoldable pub database_thread :
    ℕ → DatabasePools → DatabaseDistributor → DataModel → DatabaseDistributor × DataModel
database_thread max_log_mon_workers pools s d =
    let log_mon = ltb s.n_log_mon_workers max_log_mon_workers in
    let j = grab log_mon d (clear_job (job_to_fill pools s.the_job)) in
    (submit j s, grabbed log_mon d)

-- `DatabaseJobFail`: a null argument is only reported.
unfoldable pub database_job_fail :
    Option DatabaseJobStruct → DatabaseDistributor → DatabaseDistributor
database_job_fail none s = s
database_job_fail (some j) s = record s {
  jobs_failed = s.jobs_failed + 1;
  n_log_mon_workers = if has_log_mon j then s.n_log_mon_workers - 1 else s.n_log_mon_workers;
  job_struct_pool = j ∷ s.job_struct_pool;
}

-- `GetCachedDeviceConfig`
unfoldable pub get_cached_device_config : Bytes → List (Bytes × Bytes) → Bytes
get_cached_device_config device cache = elim (find_config device cache) [
  | some config ↦ config
  | none ↦ codes "No entry"
]

-- `GetCachedDevices`
unfoldable pub get_cached_devices : Bool → List (Bytes × Bytes) → Bytes
get_cached_devices first [] = []
get_cached_devices first ((device, config) ∷ cache) =
    (if first then [] else codes ", ") ++ (device ++ get_cached_devices false cache)
