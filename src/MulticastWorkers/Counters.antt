-- ===== src/MulticastWorkers/Counters.antt =====
-- A byte count of a multicast job, and what it counts.
use services_backend.Common.{
  ℕ, ◌+◌, ◌-◌, ◌%◌, ◌^◌, ◌≡◌, refl, List, [], ◌∷◌, Bytes, ok, arith, length, false, All, ◌==◌, ◌<◌,
  length-append, true,
}
use services_backend.Zstd.{Zstd}
use services_backend.Jobs.{logs, MulticastJobStruct}
use services_backend.MulticastWorkers.{
  MulticastState, hand_on, closed, add_bytes, multicast_message_job,
}
use services_backend.QueryBatch.Buffers.{
  open_array, intercalate, NonEmpty, total_length, length-open_array, length-intercalate_total,
}
use services_backend.MulticastWorkers.Fate.{Fate, Fates, messages}
use services_backend.MulticastWorkers.Batching.{multicast_job-arrays}

-- What a job adds to a byte count, modulo 2^32, for these messages of the feed.
abbrev pub bytes_counted : List Bytes → ℕ
bytes_counted [] = 2 ^ 32 - 1
bytes_counted (m ∷ ms) = total_length (m ∷ ms) + length ms - 1

add_bytes-counted :
    (n k : ℕ) (text : Bytes) (ms : List Bytes)
    → text ≡ open_array ms
    → k ≡ length ms
    → All NonEmpty ms
    → add_bytes n (closed text) k ≡ (n + bytes_counted ms) % 2 ^ 32
unfolding add_bytes closed open_array
add_bytes-counted n k text [] e h full = unfold intercalate in rw (e, h) (omega arith)
add_bytes-counted n k text (m ∷ ms) e h full =
    let long : (length (open_array (m ∷ ms)) == 1) ≡ false = length-open_array m ms full.0 in
    let some_bytes : 0 < total_length (m ∷ ms) = unfold total_length in omega (arith, full.0) in
    rw (e, h, long)
      (omega (
        arith,
        length-append (b'[' ∷ intercalate (m ∷ ms)) (b']' ∷ []),
        length-intercalate_total m ms,
        some_bytes,
      ))

-- `logging_bytes_processed` does not count the bytes of the log messages, but, modulo 2^32, these
-- and the number of messages less two, if there are any, and takes one if there are none: the code
-- subtracts two bytes for the brackets, and one for each message, from the length of the buffer.
pub multicast_message_job-logging_bytes :
    (z : Zstd) (pooled_size : ℕ) (st : MulticastState) (args : MulticastJobStruct) (fs : List Fate)
    → Fates z args.msg_buffer fs
    → (st' : MulticastState) × (multicast_message_job z pooled_size st args ≡ ok (st', true))
      × (st'.monitoring_vars.logging_bytes_processed
          ≡ (st.monitoring_vars.logging_bytes_processed + bytes_counted (messages logs fs))
            % 2 ^ 32)
unfolding multicast_message_job
multicast_message_job-logging_bytes z pooled_size st args fs h =
    let (s, run, e, n, full) = multicast_job-arrays z st args fs h in
    (
      hand_on pooled_size st args s,
      rw run refl,
      unfold hand_on in
          add_bytes-counted _ s.n_log_msgs (s.buffer logs) (messages logs fs) e n full,
    )
