-- ===== src/DatabaseWorkers/Reads.antt =====
-- UserTools/DatabaseWorkers/DatabaseWorkers.cpp: the read queries of `DatabaseJob`, one batch. The
-- queries go to the database through a pipeline, and the batch is submitted again from behind a query
-- that failed. What `retrieve` of the pipeline gives or throws is an argument.
pub mod Clean
pub mod PassedOver
pub mod Batches
pub mod Ending
use services_backend.Common.{
  ℕ, zero, suc, ◌+◌, ◌%◌, ◌^◌, Bool, true, false, Option, none, some, List, [], ◌∷◌, Bytes,
  get_elem?, set, drop, is_empty, not, if◌then◌else◌, Outcome, ok, fault, index_out_of_range, ◌>>=◌,
  or_fault,
}
use services_backend.QueryTopic.{QueryTopic, cached_config, query_topic}
use services_backend.ZmqQuery.{ZmqQuery, Row, topic}

-- `px->retrieve`: a result, or an exception with the text that is kept of it.
pub data Answer : Type 0 where
  result_of : List Row → Answer
  raised : Bytes → Answer

-- The answers to the queries that were inserted, by their position in the batch, and the text for an
-- id that was not.
pub record Pipeline : Type 0 where
  pub answers : ℕ → Answer
  pub unknown_id : Bytes

-- The queries of the batch and the two counters.
pub record ReadLoop : Type 0 where
  pub queries : List ZmqQuery
  pub readquery_submissions : ℕ
  pub readquery_submissions_failed : ℕ

abbrev is_cached : Option QueryTopic → Bool
is_cached (some cached_config) = true
is_cached _ = false

-- Queries that have failed already, and those for a cached configuration, do not go to the database.
unfoldable pub is_skipped : ZmqQuery → Outcome Bool
is_skipped q =
    if not (is_empty q.err)
    then ok true
    else (or_fault (get_elem? (topic q) 2) index_out_of_range >>= λ c.
        ok (is_cached (query_topic c)))

-- "push the queries to the DB": whether each of them got an id.
unfoldable pub submit_ids : List ZmqQuery → Outcome (List Bool)
submit_ids [] = ok []
submit_ids (q ∷ qs) = is_skipped q >>= λ skip. submit_ids qs >>= λ ids. ok (not skip ∷ ids)

unfoldable pub retrieve : Pipeline → ℕ → Bool → Answer
retrieve px k true = px.answers k
retrieve px k false = raised px.unknown_id

unfoldable pub keep_result : ℕ → ZmqQuery → List Row → ReadLoop → ReadLoop
keep_result k q rows s = record s {
  queries = set s.queries k (record q { result = rows });
  readquery_submissions = s.readquery_submissions + 1;
}

unfoldable pub keep_error : ℕ → ZmqQuery → Bytes → ReadLoop → ReadLoop
keep_error k q text s = record s {
  queries = set s.queries k (record q { result = []; err = text });
  readquery_submissions_failed = s.readquery_submissions_failed + 1;
}

-- "pull the results", from the `i`-th id on. With an error it gives the new value of `last_i`, a
-- `uint16_t`. The query that is tested is the one at `i`, the one that is written to stands at
-- `i + last_i`.
unfoldable pub pull : Pipeline → ℕ → ℕ → List Bool → ReadLoop → Outcome (ReadLoop × Option ℕ)
pull px last_i i [] s = ok (s, none)
pull px last_i i (id ∷ ids) s = or_fault (get_elem? s.queries i) index_out_of_range >>= λ tested.
    is_skipped tested >>= λ skip. elim skip [
      | true ↦ pull px last_i (i + 1) ids s
      | false ↦ or_fault (get_elem? s.queries (i + last_i)) index_out_of_range >>= λ q.
          elim (retrieve px (i + last_i) id) [
            | result_of rows ↦ pull px last_i (i + 1) ids (keep_result (i + last_i) q rows s)
            | raised text ↦
                ok (keep_error (i + last_i) q text s, some ((last_i + (i + 1)) % 2 ^ 16))
          ]
    ]

-- One round of the loop over a batch.
unfoldable pub read_round : Pipeline → ℕ → ReadLoop → Outcome (ReadLoop × Option ℕ)
read_round px last_i s = submit_ids (drop last_i s.queries) >>= λ ids. pull px last_i 0 ids s
