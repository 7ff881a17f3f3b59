-- ===== src/Tests/Read.antt =====
-- ReadWorkers and the discarded queries at concrete inputs.
use services_backend.Common.{◌≡◌, ◌≢◌, refl, List, [], ◌∷◌, ◌++◌, codes, length}
use services_backend.Zstd.{inflate}
use services_backend.ZmqQuery.{ZmqQuery, is_compressed}
use services_backend.Decode.{discard, decode_query, settle}
use services_backend.Decode.Bounds.{decode_query-discard}
use services_backend.Jobs.{ReadJobStruct}
use services_backend.ReadWorkers.{ReadState, read_message_job, read_thread}
use services_backend.ReadWorkers.Passing.{Passes, read_message_job-Passes}
use services_backend.ReadWorkers.Distribute.{read_batch, read_thread_lem}
use services_backend.Distributor.{Store}
use services_backend.Distributor.Order.{picks}
use services_backend.Tests.Data.{
  numbered, numbered-IsUnshared, toy, failing, magic, query, batch, no_data,
}

abbrev plain : ZmqQuery
plain = query (codes "R_ALARM") (codes "select 1")

abbrev packed : ZmqQuery
packed = query (codes "R_CALIBRATION") (magic (codes "select 2"))

abbrev idle_state : ReadState
idle_state = record {
  m_data = no_data;
  monitoring_vars = record { msgs_processed = 4; jobs_failed = 0; jobs_completed = 1 };
  job_struct_pool = [];
}

abbrev read_struct : List ZmqQuery → ReadJobStruct
read_struct qs = record { m_job_name = codes "read_worker"; local_msg_queue = batch qs }

read_message_job-Passes_example :
    Passes toy idle_state
      (read_message_job toy idle_state (read_struct (plain ∷ packed ∷ []))).0
      (batch (plain ∷ packed ∷ []))
read_message_job-Passes_example =
    read_message_job-Passes toy idle_state (read_struct (plain ∷ packed ∷ []))

abbrev read_store : Store ReadJobStruct
read_store p = read_struct []

read_thread_lem_example :
    let d = record no_data { read_msg_queue = batch (plain ∷ []) ∷ batch [] ∷ [] } in
    let (store', d') = read_thread numbered read_store d in
    (d'.read_msg_queue ≡ [])
    × (picks (read_batch store') d'.job_queue
        ≡ picks (read_batch read_store) [] ++ batch (plain ∷ []) ∷ batch [] ∷ [])
    × (length d'.job_queue ≡ 2)
read_thread_lem_example =
    read_thread_lem numbered read_store
      (record no_data { read_msg_queue = batch (plain ∷ []) ∷ batch [] ∷ [] }) numbered-IsUnshared
      (λ k later. tt)

abbrev failed_query : ZmqQuery
failed_query = record packed { err = codes "bad zstd size" }

packed_is_discarded : decode_query failing packed ≡ discard failed_query
unfolding decode_query is_compressed inflate settle
packed_is_discarded = refl

decode_query-discard_example : (failed_query.err ≢ []) × (failed_query.parts ≡ packed.parts)
decode_query-discard_example = decode_query-discard failing packed failed_query packed_is_discarded
