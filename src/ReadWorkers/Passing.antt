-- ===== src/ReadWorkers/Passing.antt =====
-- A read job decodes every query of its batch in place and hands the batch on.
use services_backend.Common.{ℕ, ◌+◌, ◌≡◌, refl, List, [], ◌∷◌, ◌++◌, map, arith}
use services_backend.Zstd.{Zstd}
use services_backend.ZmqQuery.{ZmqQuery}
use services_backend.QueryBatch.{QueryBatch}
use services_backend.Jobs.{ReadJobStruct}
use services_backend.Decode.{Decoded, discard, message, decode_query, decoded}
use services_backend.ReadWorkers.{ReadState, counted, read_loop, read_message_job}

-- How many queries of a batch decode.
unfoldable pub decodable : Zstd → List ZmqQuery → ℕ
decodable z [] = 0
decodable z (q ∷ qs) = counted (decode_query z q) (decodable z qs)

counted_add : (d : Decoded) (m n : ℕ) → counted d m + n ≡ m + counted d n
counted_add (discard q) m n = refl
counted_add (message q t) m n = omega arith

read_loop_lem :
    (z : Zstd) (qs : List ZmqQuery) (n : ℕ)
    → read_loop z qs n ≡ (map (λ q. decoded (decode_query z q)) qs, n + decodable z qs)
unfolding read_loop decodable
read_loop_lem z [] n = ground arith
read_loop_lem z (q ∷ qs) n = ground (
  arith,
  read_loop_lem z qs (counted (decode_query z q) n),
  counted_add (decode_query z q) n (decodable z qs),
)

-- The result of a read job: one batch more for the database workers, with the queries of the job's
-- batch decoded in place and in order, and the counters.
pub record Passes (z : Zstd) (st st' : ReadState) (b : QueryBatch) : Type 0 where
  pub queued :
      st'.m_data.read_query_queue
      ≡ st.m_data.read_query_queue
        ++ record b { queries = map (λ q. decoded (decode_query z q)) b.queries } ∷ []
  pub processed :
      st'.monitoring_vars.msgs_processed ≡ st.monitoring_vars.msgs_processed + decodable z b.queries
  pub completed : st'.monitoring_vars.jobs_completed ≡ st.monitoring_vars.jobs_completed + 1
  pub others : st'.m_data.write_query_queue ≡ st.m_data.write_query_queue

-- `ReadMessageJob` hands on every query of its batch, in order, those that do not decode too, and
-- counts those that do.
pub read_message_job-Passes :
    (z : Zstd) (st : ReadState) (args : ReadJobStruct)
    → Passes z st (read_message_job z st args).0 args.local_msg_queue
unfolding read_message_job
read_message_job-Passes z st args =
    ground (arith, read_loop_lem z args.local_msg_queue.queries st.monitoring_vars.msgs_processed)
