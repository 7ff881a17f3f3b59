-- ===== src/Tests/Database.antt =====
-- The distributor of DatabaseWorkers at a concrete input.
use services_backend.Common.{
  ℕ, ◌+◌, IfOk, arith, false, List, ok, get_elem?, some, ◌≡◌, refl, true, none, [], ◌∷◌, codes,
}
use services_backend.DataModel.{DataModel}
use services_backend.DatabaseWorkers.{
  DatabaseJobStruct, DatabaseDistributor, DatabasePools, finish, database_thread,
  get_cached_device_config, get_cached_devices,
}
use services_backend.DatabaseWorkers.Collect.{Collects, database_thread-Collects}
use services_backend.ResultWorkers.Reply.{find_config}
use services_backend.QueryTopic.{query_topic}
use services_backend.ZmqQuery.{ZmqQuery, Row, topic}
use services_backend.DatabaseWorkers.Reads.{
  Pipeline, ReadLoop, result_of, is_skipped, submit_ids, pull, read_round,
}
use services_backend.DatabaseWorkers.Reads.Clean.{
  Tested, with_results, submitted, read_round-results,
}
use services_backend.DatabaseWorkers.Reads.PassedOver.{read_round-passed_over}
use services_backend.DatabaseWorkers.Reads.Batches.{read_rounds}
use services_backend.DatabaseWorkers.Reads.Ending.{IsRead, read_rounds-IsRead}
use services_backend.DatabaseWorkers.Server.{done, committed}
use services_backend.DatabaseWorkers.Inserts.{Counts}
use services_backend.DatabaseWorkers.Job.{Database, DatabaseShared}
use services_backend.Tests.Data.{query, batch, no_data}

abbrev pub old_job : DatabaseJobStruct
old_job = record {
  m_job_name = [];
  read_queue = [];
  write_queue = [];
  logging_queue = codes "[stale]" ∷ [];
  monitoring_queue = [];
  rootplot_queue = [];
  plotlyplot_queue = [];
  bad_logs = 0 ∷ [];
  bad_mons = [];
  bad_rootplots = [];
  bad_plotlyplots = [];
  had_error = false;
  checkpoint = finish;
  endpoint = finish;
  checkpoint_i = 0;
  checkpoint_j = 0;
  endpoint_i = 0;
  endpoint_j = 0;
}

abbrev pub distributor : DatabaseDistributor
distributor = record {
  the_job = none;
  n_log_mon_workers = 1;
  job_queue = [];
  job_struct_pool = [];
  jobs_failed = 0;
}

abbrev database_pools : DatabasePools
database_pools = record { carried = none; get_new = old_job }

abbrev waiting_data : DataModel
waiting_data = record no_data {
  log_query_queue = codes "[{1}]" ∷ codes "[{2}]" ∷ [];
  read_query_queue = batch (query (codes "R_ALARM") (codes "select 1") ∷ []) ∷ [];
}

database_thread-Collects_example :
    let r = database_thread 2 database_pools distributor waiting_data in
    Collects 2 distributor r.0 waiting_data r.1
database_thread-Collects_example =
    database_thread-Collects 2 database_pools distributor waiting_data

cached_device_list : get_cached_devices true ((codes "a", []) ∷ (codes "b", []) ∷ []) ≡ codes "a, b"
unfolding get_cached_devices
cached_device_list = refl

no_such_device : get_cached_device_config (codes "dev2") no_data.cached_configs ≡ codes "No entry"
unfolding get_cached_device_config find_config
no_such_device = refl

abbrev first_query : ZmqQuery
first_query = query (codes "R_ALARM") (codes "select 1")

abbrev cached_query : ZmqQuery
cached_query = query (codes "R_KACHE") (codes "dev1")

abbrev read_loop_of : List ZmqQuery → ReadLoop
read_loop_of qs = record {
  queries = qs;
  readquery_submissions = 0;
  readquery_submissions_failed = 0;
}

abbrev one_row_each : ℕ → List Row
one_row_each k = record { first = some (codes "x"); fields = none } ∷ []

abbrev pub healthy : Pipeline
healthy = record { answers = λ k. result_of (one_row_each k); unknown_id = codes "unknown id" }

two-Tested : Tested (first_query ∷ cached_query ∷ []) (false ∷ true ∷ [])
unfolding is_skipped topic query_topic
two-Tested = Tested.cons refl (Tested.cons refl Tested.nil)

read_round-results_example :
    (s' : ReadLoop) × (read_round healthy 0 (read_loop_of (first_query ∷ cached_query ∷ []))
      ≡ ok (s', none))
    × (s'.queries
        ≡ with_results one_row_each 0 (first_query ∷ cached_query ∷ []) (false ∷ true ∷ []))
    × (s'.readquery_submissions ≡ 0 + submitted (false ∷ true ∷ []))
    × (s'.readquery_submissions_failed ≡ 0)
read_round-results_example =
    read_round-results healthy one_row_each (λ k. refl)
      (read_loop_of (first_query ∷ cached_query ∷ [])) (false ∷ true ∷ []) two-Tested

abbrev failed_query : ZmqQuery
failed_query = record first_query { err = codes "syntax error" }

failed_is_skipped : is_skipped failed_query ≡ ok true
unfolding is_skipped
failed_is_skipped = refl

second_round :
    read_round healthy 1 (read_loop_of (failed_query ∷ first_query ∷ []))
    ≡ ok (read_loop_of (failed_query ∷ first_query ∷ []), none)
unfolding read_round pull submit_ids is_skipped topic query_topic
second_round = refl

read_round-passed_over_example :
    get_elem? (failed_query ∷ first_query ∷ []) 1 ≡ get_elem? (failed_query ∷ first_query ∷ []) 1
read_round-passed_over_example =
    read_round-passed_over healthy 1 (read_loop_of (failed_query ∷ first_query ∷ []))
      (read_loop_of (failed_query ∷ first_query ∷ [])) none failed_query refl failed_is_skipped
      second_round

abbrev nothing_inserted : Counts
nothing_inserted = record { generic = 0; to_logging = 0; to_monitoring = 0; to_table = λ t. 0 }

abbrev database : Database
database = record {
  pipelines = λ k n. healthy;
  server = record { answer = λ s q. done [] []; commit = λ s. committed };
  stored = [];
}

abbrev shared : DatabaseShared
shared = record {
  model = no_data;
  distributor = distributor;
  counters = record {
    reads = record { submissions = 0; submissions_failed = 0 };
    submissions = nothing_inserted;
    submissions_failed = nothing_inserted;
    logging_bytes = 0;
    monitoring_bytes = 0;
    jobs_completed = 0;
  };
}

abbrev reading_job : DatabaseJobStruct
reading_job = record old_job {
  read_queue = batch (first_query ∷ cached_query ∷ []) ∷ [];
  write_queue = batch (query (codes "W_ALARM") (codes "alarm") ∷ []) ∷ [];
}

read_rounds-IsRead_example :
    IfOk
      (IsRead (read_loop_of (first_query ∷ cached_query ∷ [])))
      (read_rounds (λ n. healthy) 3 0 0 (read_loop_of (first_query ∷ cached_query ∷ [])))
read_rounds-IsRead_example =
    read_rounds-IsRead (λ n. healthy) 3 0 0 (read_loop_of (first_query ∷ cached_query ∷ []))
      (omega arith) (omega arith) (omega arith)
