-- ===== src/Tests/Write.antt =====
-- WriteWorkers and the decompression at concrete inputs.
use services_backend.Common.{
  get_elem?, some, ◌+◌, ◌≡◌, refl, none, some, List, [], ◌∷◌, ◌++◌, codes, length, ok, arith, true,
}
use services_backend.QueryTopic.{Table, alarms, devconfigs, query_topic}
use services_backend.ZmqQuery.{ZmqQuery, topic, is_compressed}
use services_backend.QueryBatch.{QueryBatch, append_message}
use services_backend.Jobs.{WriteJobStruct, write_job}
use services_backend.Decode.{message, decode_query}
use services_backend.Decode.Bounds.{Reads, decode_query-Reads}
use services_backend.Zstd.{inflate}
use services_backend.WriteWorkers.{
  select, add_message, WriteState, WriteLoop, write_message, write_message_job, write_thread,
}
use services_backend.WriteWorkers.Fate.{
  Fate, noted, added, Fates, nil, cons, is_added, is_noted, topic_of, destination, added_count,
}
use services_backend.WriteWorkers.Batching.{Batched, HandsOn, write_message_job-Batched}
use services_backend.WriteWorkers.Distribute.{write_batch, write_thread_lem, write_thread-shared}
use services_backend.Distributor.{Pools, Store}
use services_backend.Distributor.Order.{picks}
use services_backend.Tests.Data.{numbered, numbered-IsUnshared, toy, magic, query, batch, no_data}

abbrev an_alarm : ZmqQuery
an_alarm = query (codes "W_ALARM") (codes "{}")

abbrev a_config : ZmqQuery
a_config = query (codes "W_DEVCONFIG") (magic (codes "{1}"))

abbrev a_generic : ZmqQuery
a_generic = query (codes "W_QUERY") (codes "select 1")

abbrev stray : ZmqQuery
stray = query (codes "W_XYZ") (codes "{9}")

abbrev state : WriteState
state = record {
  m_data = no_data;
  monitoring_vars = record { msgs_processed = 0; jobs_failed = 0; jobs_completed = 0 };
  job_struct_pool = [];
}

abbrev job_of : List ZmqQuery → WriteJobStruct
job_of qs = record {
  m_job_name = codes "write_worker";
  local_msg_queue = batch qs;
  out_buffer = none;
}

abbrev fates : List Fate
fates = added alarms (codes "{}") ∷ noted ∷ added devconfigs (codes "{1}") ∷ []

three_fates : Fates toy (an_alarm ∷ a_generic ∷ a_config ∷ []) fates
unfolding decode_query topic_of destination topic query_topic is_compressed inflate
three_fates =
    cons (is_added alarms (codes "{}") refl (omega arith))
      (cons (is_noted refl) (cons (is_added devconfigs (codes "{1}") refl (omega arith)) nil))

write_message_job-Batched_example :
    (st' : WriteState) × (done : QueryBatch) × (write_message_job toy state
        (job_of (an_alarm ∷ a_generic ∷ a_config ∷ []))
      ≡ ok (st', true))
    × Batched toy (batch (an_alarm ∷ a_generic ∷ a_config ∷ [])) fates done
    × HandsOn state st' (added_count fates) done
write_message_job-Batched_example =
    write_message_job-Batched toy state (job_of (an_alarm ∷ a_generic ∷ a_config ∷ [])) fates
      three_fates

abbrev after_alarm : WriteLoop
after_alarm = record {
  buffer = λ t. codes "[{}";
  generic_query_indices = [];
  pointer = some alarms;
  msgs_processed = 1;
}

-- A message of an unknown topic goes to the buffer that the one before it went to.
stray_message :
    write_message (message stray (codes "{9}")) 1 after_alarm
    ≡ ok (
      stray,
      record after_alarm {
        buffer =
            services_backend.QueryTopic.update after_alarm.buffer alarms
              (append_message (codes "[{}") (codes "{9}"));
        msgs_processed = 2;
      },
    )
unfolding topic query_topic write_message add_message select
stray_message = refl

decode_query-Reads_example :
    Reads a_config (record a_config { decompress_buffer = codes "{1}" }) (codes "{1}")
unfolding decode_query is_compressed inflate
decode_query-Reads_example = decode_query-Reads toy a_config _ (codes "{1}") refl

abbrev write_store : Store WriteJobStruct
write_store p = job_of []

write_thread_lem_example :
    let d = record no_data { write_msg_queue = batch (an_alarm ∷ []) ∷ batch [] ∷ [] } in
    let (store', d') = write_thread numbered write_store d in
    (d'.write_msg_queue ≡ [])
    × (picks (write_batch store') d'.job_queue
        ≡ picks (write_batch write_store) [] ++ batch (an_alarm ∷ []) ∷ batch [] ∷ [])
    × (length d'.job_queue ≡ 2)
write_thread_lem_example =
    write_thread_lem numbered write_store
      (record no_data { write_msg_queue = batch (an_alarm ∷ []) ∷ batch [] ∷ [] })
      numbered-IsUnshared (λ k later. tt)

-- Jobs that still point to one struct.
abbrev one_struct : Pools
one_struct = record { carried = λ i. some 7; get_new = λ i. i }

write_thread-shared_example :
    let d = record no_data { write_msg_queue = batch (an_alarm ∷ []) ∷ batch [] ∷ [] } in
    let (store', d') = write_thread one_struct write_store d in
    (get_elem? d'.job_queue (0 + 0) ≡ some (write_job 7))
    × (write_batch store' (write_job 7) ≡ batch [] ∷ [])
write_thread-shared_example =
    write_thread-shared one_struct write_store
      (record no_data { write_msg_queue = batch (an_alarm ∷ []) ∷ batch [] ∷ [] })
      (batch (an_alarm ∷ []) ∷ []) (batch []) 0 refl (omega arith) refl
