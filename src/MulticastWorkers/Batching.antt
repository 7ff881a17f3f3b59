-- ===== src/MulticastWorkers/Batching.antt =====
-- The texts that a multicast job queues are the JSON arrays of the messages of each feed.
use services_backend.Common.{
  ℕ, ◌+◌, ◌%◌, ◌^◌, ◌≡◌, refl, true, List, [], ◌∷◌, ◌++◌, append-nil, Bytes, All, ok, arith, length,
}
use services_backend.Zstd.{Zstd}
use services_backend.QueryBatch.Buffers.{
  NonEmpty, intercalate, open_array, json_array, length-open_array,
}
use services_backend.Jobs.{logs, monitors, rootplot_feed, plotlyplot_feed, MulticastJobStruct}
use services_backend.MulticastWorkers.{
  MulticastState, MulticastLoop, multicast_loop, start, hand_on, closed, push_feed,
  multicast_message_job,
}
use services_backend.MulticastWorkers.Fate.{Fate, Fates, messages, total_size}
use services_backend.MulticastWorkers.Invariant.{multicast_loop-Inv, start-Inv}

-- The log buffer at the end of the loop, and its count. No message is empty.
pub multicast_job-arrays :
    (z : Zstd) (st : MulticastState) (args : MulticastJobStruct) (fs : List Fate)
    → Fates z args.msg_buffer fs
    → (s : MulticastLoop) × (multicast_loop z args.msg_buffer (start st args) ≡ ok s)
      × (s.buffer logs ≡ open_array (messages logs fs))
      × (s.n_log_msgs ≡ length (messages logs fs))
      × All NonEmpty (messages logs fs)
multicast_job-arrays z st args fs h =
    let (s, run, inv) =
      multicast_loop-Inv z args.msg_buffer fs (λ g. []) st.monitoring_vars.bytes_processed
        (start st args) h (start-Inv st args) in
    (s, run, (inv.arrays logs).0, inv.n_logs, (inv.arrays logs).1)

-- What a feed's messages become: nothing, or one closed array.
unfoldable pub batch_of : List Bytes → List Bytes
batch_of [] = []
batch_of (m ∷ ms) = json_array (m ∷ ms) ∷ []

push_feed-batch_of :
    (text : Bytes) (queue ms : List Bytes)
    → text ≡ open_array ms
    → All NonEmpty ms
    → push_feed text queue ≡ queue ++ batch_of ms
unfolding push_feed batch_of closed
push_feed-batch_of text queue [] e h = rw e (unfold open_array intercalate in simp append-nil refl)
push_feed-batch_of text queue (m ∷ ms) e h =
    rw e (rw (length-open_array m ms h.0) (unfold open_array json_array in refl))

-- The result of a job over messages with fates `fs`.
pub record Queues (st st' : MulticastState) (fs : List Fate) : Type 0 where
  pub log_queue :
      st'.m_data.log_query_queue ≡ st.m_data.log_query_queue ++ batch_of (messages logs fs)
  pub mon_queue :
      st'.m_data.mon_query_queue ≡ st.m_data.mon_query_queue ++ batch_of (messages monitors fs)
  pub rootplot_queue :
      st'.m_data.rootplot_query_queue
      ≡ st.m_data.rootplot_query_queue ++ batch_of (messages rootplot_feed fs)
  pub plotlyplot_queue :
      st'.m_data.plotlyplot_query_queue
      ≡ st.m_data.plotlyplot_query_queue ++ batch_of (messages plotlyplot_feed fs)
  pub recycled : st'.m_data.multicast_buffer_pool ≡ [] ∷ st.m_data.multicast_buffer_pool
  pub n_logs :
      st'.monitoring_vars.logs_processed
      ≡ (st.monitoring_vars.logs_processed + length (messages logs fs)) % 2 ^ 32
  pub n_mons :
      st'.monitoring_vars.mons_processed
      ≡ (st.monitoring_vars.mons_processed + length (messages monitors fs)) % 2 ^ 32
  pub n_bytes :
      st'.monitoring_vars.bytes_processed % 2 ^ 32
      ≡ (st.monitoring_vars.bytes_processed + total_size fs) % 2 ^ 32

-- If every message of a multicast job has a fate, then the job does not fault. For each feed it
-- queues one text, the JSON array of the feed's messages in order, and none if the feed has no
-- message; it returns the emptied vector to its pool, and counts the log messages, the monitoring
-- messages and the bytes added, each modulo 2^32.
pub multicast_message_job-Queues :
    (z : Zstd) (pooled_size : ℕ) (st : MulticastState) (args : MulticastJobStruct) (fs : List Fate)
    → Fates z args.msg_buffer fs
    → (st' : MulticastState) × (multicast_message_job z pooled_size st args ≡ ok (st', true))
      × Queues st st' fs
unfolding multicast_message_job
multicast_message_job-Queues z pooled_size st args fs h =
    let (s, run, inv) =
      multicast_loop-Inv z args.msg_buffer fs (λ g. []) st.monitoring_vars.bytes_processed
        (start st args) h (start-Inv st args) in
    (
      hand_on pooled_size st args s,
      rw run refl,
      unfold hand_on in
          record {
            log_queue =
                push_feed-batch_of _ _ (messages logs fs) (inv.arrays logs).0 (inv.arrays logs).1;
            mon_queue =
                push_feed-batch_of _ _ (messages monitors fs) (inv.arrays monitors).0
                  (inv.arrays monitors).1;
            rootplot_queue =
                push_feed-batch_of _ _ (messages rootplot_feed fs) (inv.arrays rootplot_feed).0
                  (inv.arrays rootplot_feed).1;
            plotlyplot_queue =
                push_feed-batch_of _ _ (messages plotlyplot_feed fs) (inv.arrays plotlyplot_feed).0
                  (inv.arrays plotlyplot_feed).1;
            recycled = refl;
            n_logs = omega (arith, inv.n_logs);
            n_mons = omega (arith, inv.n_mons);
            n_bytes = inv.size;
          },
    )
