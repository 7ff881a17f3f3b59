-- ===== src/MulticastWorkers.antt =====
-- UserTools/MulticastWorkers/MulticastWorkers.cpp: `MulticastMessageJob`, its fail function, and
-- the distributor thread.
pub mod Fate
pub mod Invariant
pub mod Batching
pub mod Counters
pub mod Distribute
use services_backend.Common.{
  ℕ, ◌+◌, ◌-◌, ◌%◌, ◌^◌, Bool, true, false, Option, none, some, List, [], ◌∷◌, ◌++◌, Bytes, codes,
  get_elem?, take, length, bytes_eq, if◌then◌else◌, ◌==◌, Outcome, ok, fault, Fault,
  index_out_of_range, ◌>>=◌, or_fault,
}
use services_backend.QueryTopic.{QueryTopic, logging, monitoring, rootplot, plotlyplot, query_topic}
use services_backend.Zstd.{
  Zstd, Inflated, bad_size, too_large, corrupt, inflated, inflate, compressed,
}
use services_backend.QueryBatch.{append_message}
use services_backend.Jobs.{
  Feed, logs, monitors, rootplot_feed, plotlyplot_feed, MulticastJobStruct, Job, multicast_job,
}
use services_backend.DataModel.{DataModel}
use services_backend.Distributor.{Pools, Store, add_jobs}

-- MulticastWorkerMonitoring.h, the counters that the jobs update. They are `std::atomic<int>`;
-- the counts of messages and of bytes are kept as 32-bit patterns.
pub record MulticastWorkerMonitoring : Type 0 where
  pub jobs_failed : ℕ
  pub jobs_completed : ℕ
  pub msgs_processed : ℕ
  pub logs_processed : ℕ
  pub mons_processed : ℕ
  pub logging_bytes_processed : ℕ
  pub monitoring_bytes_processed : ℕ
  pub bytes_processed : ℕ

pub record MulticastState : Type 0 where
  pub m_data : DataModel
  pub monitoring_vars : MulticastWorkerMonitoring
  pub job_struct_pool : List MulticastJobStruct

-- The variables that the loop over the messages carries.
pub record MulticastLoop : Type 0 where
  pub buffer : Feed → Bytes
  pub n_log_msgs : ℕ
  pub n_mon_msgs : ℕ
  pub decompress_buffer : Bytes
  pub bytes_processed : ℕ

-- `the_msg`, if the message decodes, and the decompression buffer afterwards.
unfoldable pub settle : Bytes → Inflated → Option Bytes × Bytes
settle buffer bad_size = (none, buffer)
settle buffer too_large = (none, buffer)
settle buffer (corrupt room) = (none, room)
settle buffer (inflated filled text) = (some text, filled)

unfoldable pub read_message : Zstd → Bytes → Bytes → Option Bytes × Bytes
unfolding settle
read_message z raw buffer =
    if compressed raw then settle buffer (inflate z raw buffer) else (some raw, buffer)

-- The switch on the topic; `none` is its `default`.
unfoldable pub feed_of : Option QueryTopic → Option Feed
feed_of (some logging) = some logs
feed_of (some monitoring) = some monitors
feed_of (some rootplot) = some rootplot_feed
feed_of (some plotlyplot) = some plotlyplot_feed
feed_of _ = none

-- `{"topic":`, and then a quote and the topic's first letter.
abbrev pub topic_key : Bytes
topic_key = b'{' ∷ b'"' ∷ b't' ∷ b'o' ∷ b'p' ∷ b'i' ∷ b'c' ∷ b'"' ∷ b':' ∷ []

-- Where a message goes: nowhere if it does not begin as it should, or its topic is unknown.
unfoldable pub route : Bytes → Outcome (Option Feed)
route text =
    if bytes_eq (take 9 text) topic_key
    then (or_fault (get_elem? text 10) index_out_of_range >>= λ c. ok (feed_of (query_topic c)))
    else ok none

abbrev pub feed_eq : Feed → Feed → Bool
feed_eq logs logs = true
feed_eq monitors monitors = true
feed_eq rootplot_feed rootplot_feed = true
feed_eq plotlyplot_feed plotlyplot_feed = true
feed_eq _ _ = false

abbrev pub count_in : Feed → Feed → ℕ → ℕ
count_in f g n = if feed_eq f g then n + 1 else n

unfoldable pub add_message : Bytes → Option Feed → MulticastLoop → MulticastLoop
add_message text none s = s
add_message text (some f) s = record s {
  buffer = λ g. if feed_eq f g then append_message (s.buffer g) text else s.buffer g;
  n_log_msgs = count_in logs f s.n_log_msgs;
  n_mon_msgs = count_in monitors f s.n_mon_msgs;
  bytes_processed = (s.bytes_processed + length text) % 2 ^ 32;
}

unfoldable pub add_text : Option Bytes → MulticastLoop → Outcome MulticastLoop
unfolding add_message
add_text none s = ok s
add_text (some text) s = route text >>= λ o. ok (add_message text o s)

-- One round of the loop.
unfoldable pub multicast_message : Zstd → Bytes → MulticastLoop → Outcome MulticastLoop
unfolding add_text
multicast_message z raw s =
    let r = read_message z raw s.decompress_buffer in
    add_text r.0 (record s { decompress_buffer = r.1 })

unfoldable pub multicast_loop : Zstd → List Bytes → MulticastLoop → Outcome MulticastLoop
multicast_loop z [] s = ok s
multicast_loop z (raw ∷ raws) s = multicast_message z raw s >>= λ s'. multicast_loop z raws s'

unfoldable pub start : MulticastState → MulticastJobStruct → MulticastLoop
start st args = record {
  buffer = λ f. b'[' ∷ [];
  n_log_msgs = 0;
  n_mon_msgs = 0;
  decompress_buffer = args.decompress_buffer;
  bytes_processed = st.monitoring_vars.bytes_processed;
}

-- A buffer with a message in it is closed, and goes to its queue.
unfoldable pub closed : Bytes → Bytes
closed text = if length text == 1 then text else text ++ b']' ∷ []

unfoldable pub push_feed : Bytes → List Bytes → List Bytes
unfolding closed
push_feed text queue = if length text == 1 then queue else queue ++ closed text ∷ []

-- `n += buffer->length() - 2 - n_msgs`: the right side is a `size_t`, the left an `int`.
unfoldable pub add_bytes : ℕ → Bytes → ℕ → ℕ
add_bytes n text n_msgs = (n + (2 ^ 64 + 2 ^ 64 + length text - 2 - n_msgs) % 2 ^ 64) % 2 ^ 32

-- The end of the job. `msg_buffer` is cleared and in its pool when its size is added to
-- `msgs_processed`: `pooled_size` is what the vector, which another thread may have taken and filled
-- by then, has in it. The two buffers whose lengths are counted are taken as they were queued.
unfoldable pub hand_on : ℕ → MulticastState → MulticastJobStruct → MulticastLoop → MulticastState
unfolding push_feed add_bytes
hand_on pooled_size st args s = record st {
  m_data = record (st.m_data) {
    log_query_queue = push_feed (s.buffer logs) st.m_data.log_query_queue;
    mon_query_queue = push_feed (s.buffer monitors) st.m_data.mon_query_queue;
    rootplot_query_queue = push_feed (s.buffer rootplot_feed) st.m_data.rootplot_query_queue;
    plotlyplot_query_queue = push_feed (s.buffer plotlyplot_feed) st.m_data.plotlyplot_query_queue;
    multicast_buffer_pool = [] ∷ st.m_data.multicast_buffer_pool;
  };
  monitoring_vars = record (st.monitoring_vars) {
    jobs_completed = st.monitoring_vars.jobs_completed + 1;
    msgs_processed = (st.monitoring_vars.msgs_processed + pooled_size) % 2 ^ 32;
    logs_processed = (st.monitoring_vars.logs_processed + s.n_log_msgs) % 2 ^ 32;
    mons_processed = (st.monitoring_vars.mons_processed + s.n_mon_msgs) % 2 ^ 32;
    logging_bytes_processed =
        add_bytes st.monitoring_vars.logging_bytes_processed (closed (s.buffer logs)) s.n_log_msgs;
    monitoring_bytes_processed =
        add_bytes st.monitoring_vars.monitoring_bytes_processed (closed (s.buffer monitors))
          s.n_mon_msgs;
    bytes_processed = s.bytes_processed;
  };
  job_struct_pool =
      record args {
        msg_buffer = [];
        buffer = λ f. closed (s.buffer f);
        n_log_msgs = s.n_log_msgs;
        n_mon_msgs = s.n_mon_msgs;
        decompress_buffer = s.decompress_buffer;
      }
      ∷ st.job_struct_pool;
}

-- `MulticastMessageJob`. The job's argument is null afterwards.
unfoldable pub multicast_message_job :
    Zstd → ℕ → MulticastState → MulticastJobStruct → Outcome (MulticastState × Bool)
multicast_message_job z pooled_size st args =
    multicast_loop z args.msg_buffer (start st args) >>= λ s.
    ok (hand_on pooled_size st args s, true)

-- `MulticastMessageFail`: a null argument is only reported.
unfoldable pub multicast_message_fail : MulticastState → Option MulticastJobStruct → MulticastState
multicast_message_fail st none = st
multicast_message_fail st (some args) = record st {
  m_data = record (st.m_data) { multicast_buffer_pool = [] ∷ st.m_data.multicast_buffer_pool };
  monitoring_vars = record (st.monitoring_vars) {
    jobs_failed = st.monitoring_vars.jobs_failed + 1;
  };
  job_struct_pool = record args { msg_buffer = [] } ∷ st.job_struct_pool;
}

-- What round `i` of the distributor writes to the struct of its job, with the texts of the four strings
-- that `multicast_batch_pool` gives.
unfoldable pub fill_job :
    (ℕ → Feed → Bytes) → ℕ → List Bytes → MulticastJobStruct → MulticastJobStruct
fill_job get_text i msgs s = record s {
  m_job_name = codes "multicast_worker";
  msg_buffer = msgs;
  buffer = get_text i;
}

-- `Thread`: it takes all that waits and adds one job for each vector of messages.
unfoldable pub multicast_thread :
    (ℕ → Feed → Bytes)
    → Pools
    → Store MulticastJobStruct
    → DataModel
    → Store MulticastJobStruct × DataModel
multicast_thread get_text pools store d =
    let s =
      add_jobs multicast_job pools (fill_job get_text) 0 d.in_multicast_msg_queue
        (store, d.job_queue) in
    (s.0, record d { in_multicast_msg_queue = []; job_queue = s.1 })
