-- ===== src/Tests/Result.antt =====
-- ResultWorkers at concrete inputs.
use services_backend.ZmqQuery.{le_value, part, client_id, msg_id}
use services_backend.ZmqQuery.RoundTrip.{number_reply, number_reply-reads}
use services_backend.Common.{
  fault, index_out_of_range, ◌<◌, ℕ, ◌≡◌, ◌≢◌, refl, none, some, [], ◌∷◌, ◌++◌, codes, length, ok,
  arith, true, false, List, Option,
}
use services_backend.QueryBatch.{QueryBatch}
use services_backend.ResultWorkers.{ResultState, is_read_batch, result_job_func, result_thread}
use services_backend.ResultWorkers.Reply.{versioned, read_reply, find_config}
use services_backend.ResultWorkers.Versions.{table_for}
use services_backend.ResultWorkers.Answers.{Asked, Enough, count}
use services_backend.ResultWorkers.Overdrawn.{result_job_func-overdrawn}
use services_backend.ResultWorkers.WriteBatch.{Answered, result_job_func-Answered}
use services_backend.QueryTopic.{Table, devconfigs, update, cached_config, query_topic}
use services_backend.ZmqQuery.{topic, ZmqQuery, msg}
use services_backend.Jobs.{ResultJobStruct}
use services_backend.ResultWorkers.Rows.{Parts}
use services_backend.ResultWorkers.Routing.{
  read_flag, read_rows, read_reply-Parts, CachedReply, read_reply-cached,
}
use services_backend.ResultWorkers.Distribute.{result_batch, result_thread_lem}
use services_backend.Distributor.{Store}
use services_backend.Distributor.Order.{picks}
use services_backend.Tests.Data.{numbered, numbered-IsUnshared, toy, query, batch, no_data}

abbrev asked : ZmqQuery
asked = record (query (codes "R_CALIBRATION") (codes "select 1")) {
  result = record { first = some (codes "one"); fields = none } ∷ [];
}

calibration_is_read : query_topic b'C' ≢ some cached_config
unfolding query_topic
calibration_is_read = ground arith

read_reply-Parts_example :
    (r : ZmqQuery) × (k : ℕ) × (read_reply toy [] asked 0 ≡ ok (r, k))
    × Parts r (codes "client") (7 ∷ 0 ∷ 0 ∷ 0 ∷ []) (read_flag asked) (read_rows toy asked)
read_reply-Parts_example =
    read_reply-Parts toy [] asked 0 b'C' (codes "client") (7 ∷ 0 ∷ 0 ∷ 0 ∷ [])
      (codes "R_CALIBRATION") (codes "select 1") refl refl calibration_is_read

abbrev asked_cache : ZmqQuery
asked_cache = query (codes "R_KACHE") (codes "dev1")

k_is_cached : query_topic b'K' ≡ some cached_config
unfolding query_topic
k_is_cached = refl

read_reply-cached_example :
    (r : ZmqQuery) × (read_reply toy no_data.cached_configs asked_cache 0 ≡ ok (r, 0))
    × CachedReply toy
        (codes "client")
        (7 ∷ 0 ∷ 0 ∷ 0 ∷ [])
        r
        (find_config (msg asked_cache) no_data.cached_configs)
read_reply-cached_example =
    read_reply-cached toy no_data.cached_configs asked_cache 0 b'K' (codes "client")
      (7 ∷ 0 ∷ 0 ∷ 0 ∷ []) (codes "R_KACHE") (codes "dev1") refl refl k_is_cached

abbrev result_store : Store ResultJobStruct
result_store p = record { m_job_name = []; batch = batch [] }

result_thread_lem_example :
    let d = record no_data { query_results = batch (asked ∷ []) ∷ [] } in
    let (store', d') = result_thread numbered result_store d in
    (d'.query_results ≡ [])
    × (picks (result_batch store') d'.job_queue
        ≡ picks (result_batch result_store) [] ++ batch (asked ∷ []) ∷ [])
    × (length d'.job_queue ≡ 1)
result_thread_lem_example =
    result_thread_lem numbered result_store
      (record no_data { query_results = batch (asked ∷ []) ∷ [] }) numbered-IsUnshared
      (λ k later. tt)

abbrev wrote_config : ZmqQuery
wrote_config = query (codes "W_DEVCONFIG") (codes "{1}")

abbrev wrote_alarm : ZmqQuery
wrote_alarm = query (codes "W_ALARM") (codes "{}")

abbrev pub wrote : QueryBatch
wrote = record (batch (wrote_config ∷ wrote_alarm ∷ wrote_config ∷ [])) {
  version_nums = update (λ t. []) devconfigs (3 ∷ 4 ∷ []);
}

abbrev pub wrote_tables : List (Option Table)
wrote_tables =
    table_for (query_topic b'D') ∷ table_for (query_topic b'A') ∷ table_for (query_topic b'D') ∷ []

pub wrote-Asked : Asked wrote.queries wrote_tables
wrote-Asked =
    Asked.cons b'D' (codes "client") (7 ∷ 0 ∷ 0 ∷ 0 ∷ []) (codes "W_DEVCONFIG") (codes "{1}") refl
      refl
      (Asked.cons b'A' (codes "client") (7 ∷ 0 ∷ 0 ∷ 0 ∷ []) (codes "W_ALARM") (codes "{}") refl
        refl
        (Asked.cons b'D' (codes "client") (7 ∷ 0 ∷ 0 ∷ 0 ∷ []) (codes "W_DEVCONFIG") (codes "{1}")
          refl refl Asked.nil))

wrote-Enough : Enough wrote (λ t. 0) wrote_tables
unfolding count query_topic versioned
wrote-Enough devconfigs h = omega arith
wrote-Enough t h = ground arith

pub wrote_is_write : is_read_batch wrote.queries ≡ ok false
unfolding is_read_batch topic
wrote_is_write = refl

abbrev pub result_state : ResultState
result_state = record {
  m_data = no_data;
  monitoring_vars = record {
    read_batches_processed = 0;
    write_batches_processed = 0;
    jobs_failed = 0;
    jobs_completed = 0;
    result_access_errors = 0;
  };
  job_struct_pool = [];
}

abbrev pub result_struct : ResultJobStruct
result_struct = record { m_job_name = codes "result_worker"; batch = wrote }

result_job_func-Answered_example :
    (st' : ResultState) × (rs : List ZmqQuery) × (result_job_func toy result_state result_struct
      ≡ ok (st', true))
    × Answered toy result_state st' wrote wrote_tables rs
result_job_func-Answered_example =
    result_job_func-Answered toy result_state result_struct wrote_tables wrote_is_write wrote-Asked
      wrote-Enough

abbrev short : QueryBatch
short = record wrote { version_nums = update (λ t. []) devconfigs (3 ∷ []) }

short_of_numbers : length (short.version_nums devconfigs) < count devconfigs wrote_tables
unfolding count query_topic versioned
short_of_numbers = omega arith

result_job_func-overdrawn_example :
    result_job_func toy result_state (record result_struct { batch = short })
    ≡ fault index_out_of_range
result_job_func-overdrawn_example =
    result_job_func-overdrawn toy result_state (record result_struct { batch = short }) wrote_tables
      devconfigs wrote_is_write wrote-Asked refl short_of_numbers

number_reply-reads_example :
    let r = number_reply 1 1 2 0 513 (query (codes "W_ALARM") (codes "{}")) in
    (le_value (part r 3) ≡ 513)
    × (le_value (part r 2) ≡ 1)
    × (client_id r ≡ client_id (query (codes "W_ALARM") (codes "{}")))
    × (msg_id r ≡ msg_id (query (codes "W_ALARM") (codes "{}")))
number_reply-reads_example =
    number_reply-reads 1 1 2 0 513 (query (codes "W_ALARM") (codes "{}")) (omega arith)
      (omega arith) (omega arith) (omega arith)
