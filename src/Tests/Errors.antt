-- ===== src/Tests/Errors.antt =====
-- Insertions of DatabaseWorkers that the database refuses, at concrete inputs.
use services_backend.Common.{
  ℕ, ◌≡◌, refl, Option, some, List, [], ◌∷◌, ◌++◌, map, Bytes, codes, Outcome, ok, fault,
  index_out_of_range,
}
use services_backend.QueryTopic.{Table, devconfigs, plotlyplots}
use services_backend.ZmqQuery.{msg, is_compressed}
use services_backend.Zstd.{compressed}
use services_backend.QueryBatch.{QueryBatch, got}
use services_backend.DatabaseWorkers.{DatabaseJobStruct}
use services_backend.DatabaseWorkers.Server.{
  Statement, logging_insert, feed_statement, error_text, executed, renewed, after_commit,
}
use services_backend.DatabaseWorkers.Inserts.{fail_at, last_i, span}
use services_backend.DatabaseWorkers.Inserts.Generics.{
  exec_query, exec_queries, exec_batch, exec_batches, exec_generics, query_reply, query_done,
  query_failed,
}
use services_backend.DatabaseWorkers.Inserts.Feeds.{
  feed_items, feed_item, feed_reply, insert_feed, feed_done, feed_failed, count_feed, count_bytes,
}
use services_backend.DatabaseWorkers.Inserts.Writes.{
  insert_writes, insert_batches, insert_tables, insert_table, table_reply, insert_done,
  insert_failed, is_due,
}
use services_backend.DatabaseWorkers.Inserts.Rounds.{
  RoundEnd, left, round, rounds, sections, from_logs, from_plots, unless_at, commit_end,
}
use services_backend.Tests.Data.{batch}
use services_backend.Tests.Inserts.{begin, picky, empty_job, small_batch}

-- What is in the database when the loop is left.
abbrev stored_by : Outcome (Option RoundEnd) → List Statement
stored_by (ok (some (left t))) = t.1.session.stored
stored_by o = []

-- A refused log message: the one before it never gets to the database, and the next round, which
-- ends before the log messages, executes nothing.
abbrev lossy_job : DatabaseJobStruct
lossy_job = record empty_job { logging_queue = codes "log1" ∷ codes "bad" ∷ codes "log2" ∷ [] }

lost_log : stored_by (rounds picky 3 (lossy_job, begin)) ≡ logging_insert (codes "log2") ∷ []
unfolding rounds round sections exec_generics exec_batches unless_at from_logs from_plots
    insert_feed feed_items feed_item feed_reply feed_done feed_failed feed_statement count_feed
    count_bytes insert_writes insert_batches commit_end after_commit executed renewed fail_at last_i
    span
lost_log = refl

-- The same with a generic query: it was executed before the refused message, and in the next round
-- it finds the transaction closed, so it is reported as failed.
abbrev errors_of : List QueryBatch → List Bytes
errors_of [] = []
errors_of (b ∷ bs) = map (λ q. q.err) b.queries ++ errors_of bs

abbrev errors_by : Outcome (Option RoundEnd) → List Bytes
errors_by (ok (some (left t))) = errors_of t.0.write_queue
errors_by o = []

abbrev refused_job : DatabaseJobStruct
refused_job = record empty_job {
  write_queue = small_batch (codes "q1") [] ∷ [];
  logging_queue = codes "bad" ∷ [];
}

closed_transaction :
    errors_by (rounds picky 4 (refused_job, begin)) ≡ codes "usage_error: closed" ∷ []
unfolding rounds round sections exec_generics exec_batches exec_batch exec_queries exec_query
    query_reply query_done query_failed unless_at from_logs from_plots insert_feed feed_items
    feed_item feed_reply feed_done feed_failed feed_statement count_feed count_bytes insert_writes
    insert_batches insert_tables insert_table is_due got commit_end after_commit executed renewed
    fail_at last_i span error_text msg is_compressed compressed
closed_transaction = refl

-- A refused log message and a refused table buffer of the second batch: the next round reads the
-- queue of log messages up to an index that belongs to the batches.
abbrev stale_job : DatabaseJobStruct
stale_job = record empty_job {
  write_queue = small_batch (codes "q1") [] ∷ small_batch (codes "q2") (codes "bad") ∷ [];
  logging_queue = codes "bad" ∷ [];
}

stale_endpoint : rounds picky 4 (stale_job, begin) ≡ fault index_out_of_range
unfolding rounds round sections exec_generics exec_batches exec_batch exec_queries exec_query
    query_reply query_done query_failed unless_at from_logs from_plots insert_feed feed_items
    feed_item feed_reply feed_done feed_failed feed_statement count_feed count_bytes insert_writes
    insert_batches insert_tables insert_table table_reply insert_done insert_failed is_due got
    commit_end after_commit executed renewed fail_at last_i span error_text msg is_compressed
    compressed
stale_endpoint = refl

-- A device configuration that is inserted, and a plot of the same batch that is refused: the
-- insertion is rolled back and not repeated, but the batch keeps its version number.
abbrev config_and_plot : Table → Bytes
config_and_plot devconfigs = codes "config"
config_and_plot plotlyplots = codes "bad"
config_and_plot t = []

abbrev rolled_back_job : DatabaseJobStruct
rolled_back_job = record empty_job {
  write_queue = record (batch []) { buffer = config_and_plot } ∷ [];
}

abbrev configs_by : Outcome (Option RoundEnd) → List (List ℕ)
configs_by (ok (some (left t))) = map (λ b. b.version_nums devconfigs) t.0.write_queue
configs_by o = []

rolled_back :
    (stored_by (rounds picky 3 (rolled_back_job, begin)) ≡ [])
    × (configs_by (rounds picky 3 (rolled_back_job, begin)) ≡ (7 ∷ []) ∷ [])
unfolding rounds round sections exec_generics exec_batches exec_batch exec_queries unless_at
    from_logs from_plots insert_feed feed_items insert_writes insert_batches insert_tables
    insert_table table_reply insert_done insert_failed is_due got commit_end after_commit executed
    renewed fail_at last_i span error_text
rolled_back = (refl, refl)
