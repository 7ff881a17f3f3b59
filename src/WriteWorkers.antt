-- ===== src/WriteWorkers.antt =====
-- UserTools/WriteWorkers/WriteWorkers.cpp: `WriteMessageJob`, its fail function, and the
-- distributor thread.
pub mod Fate
pub mod Batching
pub mod Distribute
use services_backend.Common.{
  ℕ, ◌+◌, Bool, true, false, Option, none, some, List, [], ◌∷◌, ◌++◌, Bytes, codes, get_elem?,
  Outcome, ok, fault, Fault, stale_pointer, index_out_of_range, ◌>>=◌, or_fault,
}
use services_backend.QueryTopic.{
  QueryTopic, alarm, dev_config, base_config, runmode_config, calibration, rootplot, plotlyplot,
  generic, query_topic, Table, alarms, devconfigs, base_configs, runmode_configs, calibrations,
  plotlyplots, rootplots, update,
}
use services_backend.Zstd.{Zstd}
use services_backend.ZmqQuery.{ZmqQuery, topic}
use services_backend.QueryBatch.{QueryBatch, reset, close, append_message}
use services_backend.Jobs.{WriteJobStruct, Job, write_job}
use services_backend.DataModel.{DataModel}
use services_backend.Distributor.{Pools, Store, add_jobs}
use services_backend.Decode.{Decoded, discard, message, decode_query}

-- WriteWorkerMonitoring.h, the counters that the jobs update.
pub record WriteWorkerMonitoring : Type 0 where
  pub msgs_processed : ℕ
  pub jobs_failed : ℕ
  pub jobs_completed : ℕ

pub record WriteState : Type 0 where
  pub m_data : DataModel
  pub monitoring_vars : WriteWorkerMonitoring
  pub job_struct_pool : List WriteJobStruct

-- What the switch on the topic decides: a buffer pointer, or a note of the query's index. A topic
-- with no case of its own leaves the pointer as it is.
pub data Target : Type 0 where
  out_buffer : Option Table → Target
  generic_index : Target

unfoldable pub select : Option QueryTopic → Option Table → Target
select (some alarm) old = out_buffer (some alarms)
select (some dev_config) old = out_buffer (some devconfigs)
select (some base_config) old = out_buffer (some base_configs)
select (some runmode_config) old = out_buffer (some runmode_configs)
select (some calibration) old = out_buffer (some calibrations)
select (some plotlyplot) old = out_buffer (some plotlyplots)
select (some rootplot) old = out_buffer (some rootplots)
select (some generic) old = generic_index
select _ old = out_buffer old

-- The variables that the loop carries: the buffers and generic indices of the batch, the pointer
-- `m_args->out_buffer`, and the counter.
pub record WriteLoop : Type 0 where
  pub buffer : Table → Bytes
  pub generic_query_indices : List ℕ
  pub pointer : Option Table
  pub msgs_processed : ℕ

unfoldable pub add_message : ℕ → Bytes → Target → WriteLoop → Outcome WriteLoop
add_message i text (out_buffer none) s = fault stale_pointer
add_message i text (out_buffer (some t)) s = ok (record s {
  buffer = update s.buffer t (append_message (s.buffer t) text);
  pointer = some t;
  msgs_processed = s.msgs_processed + 1;
})
add_message i text generic_index s =
    ok (record s { generic_query_indices = s.generic_query_indices ++ i ∷ [] })

-- One round of the loop, for the query at index `i`.
unfoldable pub write_message : Decoded → ℕ → WriteLoop → Outcome (ZmqQuery × WriteLoop)
write_message (discard q) i s = ok (q, s)
write_message (message q text) i s = do
  c ← or_fault (get_elem? (topic q) 2) index_out_of_range
  s' ← add_message i text (select (query_topic c) s.pointer) s
  ok (q, s')

unfoldable pub write_loop :
    Zstd → ℕ → List ZmqQuery → WriteLoop → Outcome (List ZmqQuery × WriteLoop)
write_loop z i [] s = ok ([], s)
write_loop z i (q ∷ qs) s = write_message (decode_query z q) i s >>= λ r.
    write_loop z (i + 1) qs r.1 >>= λ rest. ok (r.0 ∷ rest.0, rest.1)

-- The variables at the start of the loop, over a batch that was reset.
unfoldable pub start : WriteState → WriteJobStruct → WriteLoop
start st args = record {
  buffer = (reset args.local_msg_queue).buffer;
  generic_query_indices = (reset args.local_msg_queue).generic_query_indices;
  pointer = args.out_buffer;
  msgs_processed = st.monitoring_vars.msgs_processed;
}

-- The batch that is handed on: the loop's queries and buffers, closed.
unfoldable pub close_batch : QueryBatch → List ZmqQuery → WriteLoop → QueryBatch
close_batch batch queries s = close (record batch {
  queries = queries;
  buffer = s.buffer;
  generic_query_indices = s.generic_query_indices;
})

-- The end of the job: the batch goes to the database workers, the struct back to its pool.
unfoldable pub hand_on : WriteState → WriteJobStruct → QueryBatch → WriteLoop → WriteState
hand_on st args done s = record st {
  m_data = record (st.m_data) { write_query_queue = st.m_data.write_query_queue ++ done ∷ [] };
  monitoring_vars = record (st.monitoring_vars) {
    msgs_processed = s.msgs_processed;
    jobs_completed = st.monitoring_vars.jobs_completed + 1;
  };
  job_struct_pool =
      record args { local_msg_queue = done; out_buffer = s.pointer } ∷ st.job_struct_pool;
}

-- `WriteMessageJob`. The job's argument is null afterwards.
unfoldable pub write_message_job : Zstd → WriteState → WriteJobStruct → Outcome (WriteState × Bool)
write_message_job z st args = write_loop z 0 args.local_msg_queue.queries (start st args) >>= λ r.
    ok (hand_on st args (close_batch (reset args.local_msg_queue) r.0 r.1) r.1, true)

-- `WriteMessageFail`: a null argument is only reported.
unfoldable pub write_message_fail : WriteState → Option WriteJobStruct → WriteState
write_message_fail st none = st
write_message_fail st (some args) = record st {
  monitoring_vars = record (st.monitoring_vars) {
    jobs_failed = st.monitoring_vars.jobs_failed + 1;
  };
  job_struct_pool = args ∷ st.job_struct_pool;
}

-- What round `i` of the distributor writes to the struct of its job. The struct's old `out_buffer` does
-- not point into the new batch.
unfoldable pub fill_job : ℕ → QueryBatch → WriteJobStruct → WriteJobStruct
fill_job i b s = record s {
  local_msg_queue = b;
  m_job_name = codes "write_worker";
  out_buffer = none;
}

-- `Thread`: it takes all that waits and adds one job for each batch.
unfoldable pub write_thread :
    Pools → Store WriteJobStruct → DataModel → Store WriteJobStruct × DataModel
write_thread pools store d =
    let s = add_jobs write_job pools fill_job 0 d.write_msg_queue (store, d.job_queue) in
    (s.0, record d { write_msg_queue = []; job_queue = s.1 })
