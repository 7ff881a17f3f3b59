-- ===== src/WriteWorkers/Batching.antt =====
-- The buffers that a write job hands on are the JSON arrays of the messages of each table.
use services_backend.Common.{
  ℕ, ◌+◌, ◌≡◌, refl, true, Option, none, some, List, [], ◌∷◌, ◌++◌, map, append_assoc, append-nil,
  Bytes, get_elem?, All, All-append, ok, arith, inl, inr, Bool-cases, Option-cases,
}
use services_backend.QueryTopic.{
  QueryTopic, alarm, query_topic, Table, table_eq, update, table_eq→eq,
}
use services_backend.Zstd.{Zstd}
use services_backend.ZmqQuery.{ZmqQuery, topic}
use services_backend.QueryBatch.{QueryBatch, reset, close, close_buffer, append_message}
use services_backend.QueryBatch.Buffers.{
  NonEmpty, intercalate, open_array, json_array, append_message-open_array, close_buffer-open_array,
}
use services_backend.Jobs.{WriteJobStruct}
use services_backend.Decode.{Decoded, discard, message, decode_query, decoded}
use services_backend.WriteWorkers.{
  WriteState, WriteLoop, select, add_message, write_message, write_loop, write_message_job, start,
  close_batch, hand_on,
}
use services_backend.WriteWorkers.Fate.{
  Fate, dropped, noted, added, destination, destination_of, topic_of, fate_of, HasFate, is_dropped,
  is_noted, is_added, message_for, messages, indices, added_count, Fates, nil, cons,
}

-- The pointer after a query: the table of an added message.
abbrev pointer_after : Fate → Option Table → Option Table
pointer_after dropped p = p
pointer_after noted p = p
pointer_after (added t m) p = some t

abbrev buffer_after : Fate → (Table → Bytes) → Table → Bytes
buffer_after dropped b = b
buffer_after noted b = b
buffer_after (added t m) b = update b t (append_message (b t) m)

abbrev indices_after : Fate → ℕ → List ℕ → List ℕ
indices_after dropped i l = l
indices_after noted i l = l ++ i ∷ []
indices_after (added t m) i l = l

abbrev count_after : Fate → ℕ → ℕ
count_after dropped n = n
count_after noted n = n
count_after (added t m) n = n + 1

abbrev after : Fate → ℕ → WriteLoop → WriteLoop
after f i s = record {
  buffer = buffer_after f s.buffer;
  generic_query_indices = indices_after f i s.generic_query_indices;
  pointer = pointer_after f s.pointer;
  msgs_processed = count_after f s.msgs_processed;
}

select-destination :
    (t : QueryTopic) (m : Bytes) (f : Fate) (i : ℕ) (s : WriteLoop)
    → destination t m ≡ some f
    → add_message i m (select (some t) s.pointer) s ≡ ok (after f i s)
unfolding destination select add_message
select-destination alarm m f i s h = ground arith
select-destination t m f i s h = ground arith

select_lem :
    (o : Option QueryTopic) (m : Bytes) (f : Fate) (i : ℕ) (s : WriteLoop)
    → destination_of o m ≡ some f
    → add_message i m (select o s.pointer) s ≡ ok (after f i s)
select_lem none m f i s h = cc
select_lem (some t) m f i s h = select-destination t m f i s h

write_message-after :
    (d : Decoded) (f : Fate) (i : ℕ) (s : WriteLoop)
    → fate_of d ≡ some f
    → write_message d i s ≡ ok (decoded d, after f i s)
unfolding write_message decoded
write_message-after (discard q) f i s h = ground arith
write_message-after (message q m) f i s h = elim (Option-cases (get_elem? (topic q) 2)) [
  | inl e ↦ unfold topic_of in ground arith
  | inr (c, e) ↦ unfold topic_of in ground (arith, select_lem (query_topic c) m f i s)
]

-- The loop's variables after the queries with fates `fs`, the first at index `i`.
abbrev finish : ℕ → List Fate → WriteLoop → WriteLoop
finish i [] s = s
finish i (f ∷ fs) s = finish (i + 1) fs (after f i s)

has_fate : (d : Decoded) (f : Fate) → HasFate d f → fate_of d ≡ some f
has_fate d f (is_dropped h) = h
has_fate d f (is_noted h) = h
has_fate d f (is_added t m h k) = h

write_loop-finish :
    (z : Zstd) (qs : List ZmqQuery) (fs : List Fate) (i : ℕ) (s : WriteLoop)
    → Fates z qs fs
    → write_loop z i qs s ≡ ok (map (λ q. decoded (decode_query z q)) qs, finish i fs s)
unfolding write_loop
write_loop-finish z qs fs i s nil = refl
write_loop-finish z (q ∷ qs) (f ∷ fs) i s (cons h hs) = ground (
  arith,
  write_message-after (decode_query z q) f i s (has_fate _ _ h),
  write_loop-finish z qs fs (i + 1) (after f i s) hs,
)

-- The buffers hold the open arrays of `held`.
abbrev Holds : (Table → Bytes) → (Table → List Bytes) → Type 0
Holds buffer held = (t : Table) → (buffer t ≡ open_array (held t)) × All NonEmpty (held t)

buffer_after-Holds :
    (d : Decoded) (f : Fate) (buffer : Table → Bytes) (held : Table → List Bytes)
    → HasFate d f
    → Holds buffer held
    → Holds (buffer_after f buffer) (λ t. held t ++ message_for t f)
buffer_after-Holds d f buffer held (is_dropped e) h t = simp append-nil (h t)
buffer_after-Holds d f buffer held (is_noted e) h t = simp append-nil (h t)
buffer_after-Holds d f buffer held (is_added s m e k) h t = elim (Bool-cases (table_eq s t)) [
  | inl same ↦
      let e' : s ≡ t = table_eq→eq s t same in
      rw same (
        rw (← e') (
          rw (h s).0 (append_message-open_array (held s) m (h s).1),
          All-append NonEmpty (held s) (m ∷ []) (h s).1 (k, tt),
        ))
  | inr other ↦ rw other (simp append-nil (h t))
]

finish-Holds :
    (z : Zstd) (qs : List ZmqQuery) (fs : List Fate) (i : ℕ) (s : WriteLoop)
    (held : Table → List Bytes)
    → Fates z qs fs
    → Holds s.buffer held
    → Holds (finish i fs s).buffer (λ t. held t ++ messages t fs)
unfolding messages
finish-Holds z qs fs i s held nil h t = simp append-nil (h t)
finish-Holds z (q ∷ qs) (f ∷ fs) i s held (cons h hs) k t =
    rw (← append_assoc)
      (finish-Holds z qs fs (i + 1) (after f i s) _ hs (buffer_after-Holds _ f s.buffer held h k) t)

finish-indices :
    (fs : List Fate) (i : ℕ) (s : WriteLoop)
    → ((finish i fs s).generic_query_indices ≡ s.generic_query_indices ++ indices i fs)
      × ((finish i fs s).msgs_processed ≡ s.msgs_processed + added_count fs)
unfolding indices added_count
finish-indices [] i s = (simp append-nil, omega arith)
finish-indices (dropped ∷ fs) i s = ground (arith, finish-indices fs (i + 1) s)
finish-indices (noted ∷ fs) i s = ground (
  arith,
  finish-indices fs (i + 1) (after noted i s),
  append_assoc s.generic_query_indices (i ∷ []) (indices (i + 1) fs),
)
finish-indices (added t m ∷ fs) i s =
    ground (arith, finish-indices fs (i + 1) (after (added t m) i s))

-- A batch `b` with its queries decoded and, for each table, the JSON array of its messages.
pub record Batched (z : Zstd) (b : QueryBatch) (fs : List Fate) (done : QueryBatch) : Type 0 where
  pub queries : done.queries ≡ map (λ q. decoded (decode_query z q)) b.queries
  pub arrays : (t : Table) → done.buffer t ≡ json_array (messages t fs)
  pub generics : done.generic_query_indices ≡ indices 0 fs
  pub cleared : (t : Table) → (done.version_nums t ≡ []) × (done.batch_err t ≡ [])

-- The result of a job that hands `done` on after `n` more messages.
pub record HandsOn (st st' : WriteState) (n : ℕ) (done : QueryBatch) : Type 0 where
  pub queued : st'.m_data.write_query_queue ≡ st.m_data.write_query_queue ++ done ∷ []
  pub processed : st'.monitoring_vars.msgs_processed ≡ st.monitoring_vars.msgs_processed + n
  pub completed : st'.monitoring_vars.jobs_completed ≡ st.monitoring_vars.jobs_completed + 1
  pub unfailed : st'.monitoring_vars.jobs_failed ≡ st.monitoring_vars.jobs_failed

-- If every query of the batch fails to decode or has a topic of write queries, with a message that
-- is not empty where it goes to a table, then `WriteMessageJob` does not fault, whatever the batch's
-- buffers and the struct's pointer were before. It hands on one batch, in which each table's buffer
-- is the JSON array of that table's messages in order, and empty if it has none, and the generic
-- queries are noted by their indices; it counts the messages added to arrays.
pub write_message_job-Batched :
    (z : Zstd) (st : WriteState) (args : WriteJobStruct) (fs : List Fate)
    → Fates z args.local_msg_queue.queries fs
    → (st' : WriteState) × (done : QueryBatch) × (write_message_job z st args ≡ ok (st', true))
      × Batched z args.local_msg_queue fs done
      × HandsOn st st' (added_count fs) done
write_message_job-Batched z st args fs h =
    let s = finish 0 fs (start st args) in
    let done = close_batch (reset batch) (map (λ q. decoded (decode_query z q)) batch.queries) s in
    (
      hand_on st args done s,
      done,
      unfold write_message_job in
          rw (write_loop-finish z batch.queries fs 0 (start st args) h) refl,
      record {
        queries = unfold close_batch close in refl;
        arrays = λ t. unfold close_batch close in closed t;
        generics = unfold close_batch close start reset in (finish-indices fs 0 (start st args)).0;
        cleared = λ t. unfold close_batch close reset in (refl, refl);
      },
      unfold hand_on in
          record {
            queued = refl;
            processed = unfold start in (finish-indices fs 0 (start st args)).1;
            completed = refl;
            unfailed = refl;
          },
    )
  where
    batch : QueryBatch
    batch = args.local_msg_queue

    held : Holds (finish 0 fs (start st args)).buffer (λ t. messages t fs)
    held =
        finish-Holds z batch.queries fs 0 (start st args) (λ t. []) h
          (unfold start reset open_array intercalate in λ t. (refl, tt))

    closed :
        (t : Table)
        → close_buffer ((finish 0 fs (start st args)).buffer t) ≡ json_array (messages t fs)
    closed t = rw (held t).0 (close_buffer-open_array (messages t fs) (held t).1)
