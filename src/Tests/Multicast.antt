-- ===== src/Tests/Multicast.antt =====
-- MulticastWorkers at concrete inputs.
use services_backend.Common.{
  ◌+◌, ◌%◌, ◌^◌, ◌≡◌, refl, List, [], ◌∷◌, ◌++◌, Bytes, codes, length, true, ok,
}
use services_backend.Zstd.{compressed, inflate}
use services_backend.Jobs.{logs, monitors, MulticastJobStruct}
use services_backend.MulticastWorkers.{
  MulticastState, topic_key, multicast_message_job, multicast_thread,
}
use services_backend.MulticastWorkers.Fate.{
  Fate, ignored, sent, Fates, nil, cons, payload, known, foreign, feed_letter, messages,
}
use services_backend.MulticastWorkers.Batching.{Queues, multicast_message_job-Queues}
use services_backend.MulticastWorkers.Counters.{multicast_message_job-logging_bytes, bytes_counted}
use services_backend.MulticastWorkers.Distribute.{multicast_msgs, multicast_thread_lem}
use services_backend.Distributor.{Store}
use services_backend.Distributor.Order.{picks}
use services_backend.Tests.Data.{numbered, numbered-IsUnshared, toy, magic, no_data}

abbrev a_log : Bytes
a_log = topic_key ++ b'"' ∷ b'L' ∷ codes "ogging\",\"msg\":\"hi\"}"

abbrev a_monitor : Bytes
a_monitor = topic_key ++ b'"' ∷ b'M' ∷ codes "onitoring\"}"

abbrev noise : Bytes
noise = codes "hello, world"

abbrev msgs : List Bytes
msgs = magic a_monitor ∷ noise ∷ a_log ∷ []

abbrev msg_fates : List Fate
msg_fates = sent monitors a_monitor ∷ ignored ∷ sent logs a_log ∷ []

three_sorted : Fates toy msgs msg_fates
unfolding payload compressed inflate feed_letter
three_sorted = cons (known b'"' (codes "onitoring\"}") a_monitor monitors refl refl) (
    cons (foreign noise refl refl)
      (cons (known b'"' (codes "ogging\",\"msg\":\"hi\"}") a_log logs refl refl) nil))

abbrev mc_state : MulticastState
mc_state = record {
  m_data = no_data;
  monitoring_vars = record {
    jobs_failed = 0;
    jobs_completed = 0;
    msgs_processed = 5;
    logs_processed = 2;
    mons_processed = 0;
    logging_bytes_processed = 0;
    monitoring_bytes_processed = 0;
    bytes_processed = 0;
  };
  job_struct_pool = [];
}

abbrev mc_job : List Bytes → MulticastJobStruct
mc_job texts = record {
  m_job_name = codes "multicast_worker";
  msg_buffer = texts;
  buffer = λ f. [];
  n_log_msgs = 0;
  n_mon_msgs = 0;
  decompress_buffer = [];
}

multicast_message_job-Queues_example :
    (st' : MulticastState) × (multicast_message_job toy 0 mc_state (mc_job msgs) ≡ ok (st', true))
    × Queues mc_state st' msg_fates
multicast_message_job-Queues_example =
    multicast_message_job-Queues toy 0 mc_state (mc_job msgs) msg_fates three_sorted

multicast_message_job-logging_bytes_example :
    (st' : MulticastState) × (multicast_message_job toy 0 mc_state (mc_job msgs) ≡ ok (st', true))
    × (st'.monitoring_vars.logging_bytes_processed
        ≡ (0 + bytes_counted (messages logs msg_fates)) % 2 ^ 32)
multicast_message_job-logging_bytes_example =
    multicast_message_job-logging_bytes toy 0 mc_state (mc_job msgs) msg_fates three_sorted

abbrev multicast_store : Store MulticastJobStruct
multicast_store p = mc_job []

multicast_thread_lem_example :
    let d = record no_data { in_multicast_msg_queue = msgs ∷ [] ∷ [] } in
    let (store', d') = multicast_thread (λ i f. []) numbered multicast_store d in
    (d'.in_multicast_msg_queue ≡ [])
    × (picks (multicast_msgs store') d'.job_queue
        ≡ picks (multicast_msgs multicast_store) [] ++ msgs ∷ [] ∷ [])
    × (length d'.job_queue ≡ 2)
multicast_thread_lem_example =
    multicast_thread_lem (λ i f. []) numbered multicast_store
      (record no_data { in_multicast_msg_queue = msgs ∷ [] ∷ [] }) numbered-IsUnshared
      (λ k later. tt)
