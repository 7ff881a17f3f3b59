-- ===== src/Tests/Inserts.antt =====
-- The insertions of DatabaseWorkers at concrete inputs.
use services_backend.Common.{
  ◌^◌, ◌<◌, ◌≡◌, ◌≢◌, refl, Bool, true, false, [], ◌∷◌, ◌++◌, map, Bytes, codes, length, IfOk, Runs,
  bytes_eq, arith,
}
use services_backend.QueryTopic.{Table, alarms}
use services_backend.ZmqQuery.{msg, is_compressed}
use services_backend.Zstd.{compressed}
use services_backend.QueryBatch.{QueryBatch, got}
use services_backend.Jobs.{Feed, logs, monitors, rootplot_feed, plotlyplot_feed}
use services_backend.DatabaseWorkers.{DatabaseJobStruct, finish}
use services_backend.DatabaseWorkers.Server.{
  Statement, user_query, logging_insert, monitoring_insert, insert, feed_statement, Reply, done,
  raised, committed, commit_failed, Session, Server,
}
use services_backend.DatabaseWorkers.Inserts.{Counts, Inserts}
use services_backend.DatabaseWorkers.Inserts.Feeds.{feed_queue, feed_items}
use services_backend.DatabaseWorkers.Inserts.Writes.{is_due}
use services_backend.DatabaseWorkers.Inserts.Rounds.{rounds}
use services_backend.DatabaseWorkers.Inserts.Chances.{
  chances, open_batches, open_queries, open_tables, open_below,
}
use services_backend.DatabaseWorkers.Inserts.Ending.{Ends, rounds-Ends}
use services_backend.DatabaseWorkers.Inserts.Clean.{
  IsHealthy, generic_statements, query_statements, feed_statements, write_statements,
  table_statements,
}
use services_backend.DatabaseWorkers.Inserts.Clean.Job.{IsFresh, statements, feed_part}
use services_backend.DatabaseWorkers.Inserts.Clean.Rounds.{Commits, rounds-Commits}
use services_backend.DatabaseWorkers.Inserts.Lost.{Refuses, feed_items-Lost}
use services_backend.Tests.Data.{query, batch}
use services_backend.Tests.Database.{old_job}

-- A database that refuses the text `bad`, and everything that a closed transaction is given.
abbrev text_of : Statement → Bytes
text_of (user_query text) = text
text_of (logging_insert text) = text
text_of (monitoring_insert text) = text
text_of (insert t text) = text

abbrev is_bad : Bytes → Bool
is_bad text = bytes_eq text (codes "bad")

abbrev reply_to : Bool → Bool → Reply
reply_to true true = raised [] (codes "sql_error") (codes "bad")
reply_to true false = done [] (7 ∷ [])
reply_to false bad = raised [] (codes "usage_error") (codes "closed")

abbrev pub picky : Server
picky = record { answer = λ s q. reply_to s.is_open (is_bad (text_of q)); commit = λ s. committed }

abbrev friendly : Server
friendly = record { answer = λ s q. reply_to s.is_open false; commit = λ s. committed }

abbrev no_counts : Counts
no_counts = record { generic = 0; to_logging = 0; to_monitoring = 0; to_table = λ t. 0 }

abbrev pub begin : Inserts
begin = record {
  session = record { tx = []; stored = []; is_open = true; asked = 0 };
  had_error = false;
  checkpoint = finish;
  checkpoint_i = 0;
  checkpoint_j = 0;
  multicast_batch_pool = [];
  submissions = no_counts;
  submissions_failed = no_counts;
  logging_bytes = 0;
  monitoring_bytes = 0;
}

abbrev pub empty_job : DatabaseJobStruct
empty_job = record old_job { logging_queue = []; bad_logs = [] }

abbrev only_alarms : Bytes → Table → Bytes
only_alarms text alarms = text
only_alarms text t = []

-- One generic query and an alarm.
abbrev pub small_batch : Bytes → Bytes → QueryBatch
small_batch asked text = record (batch (query (codes "W_QUERY") asked ∷ [])) {
  generic_query_indices = 0 ∷ [];
  buffer = only_alarms text;
}

abbrev small_job : DatabaseJobStruct
small_job = record empty_job {
  write_queue = small_batch (codes "q1") (codes "alarm") ∷ [];
  logging_queue = codes "log1" ∷ codes "log2" ∷ [];
}

friendly-IsHealthy : IsHealthy friendly
friendly-IsHealthy = record {
  rows = λ q. [];
  versions = λ q. 7 ∷ [];
  answers = λ s q e. rw e refl;
  commits = λ s e. refl;
}

not_failed : (s : Session) → picky.commit s ≢ commit_failed
not_failed s e = cc

small_chances : chances small_job < 20
unfolding chances open_batches open_queries open_tables open_below
small_chances = omega arith

rounds-Ends_example : IfOk Ends (rounds picky 20 (small_job, begin))
rounds-Ends_example = rounds-Ends picky 20 (small_job, begin) not_failed refl small_chances

few_texts : (f : Feed) → length (feed_queue f small_job) < 2 ^ 16
few_texts logs = omega arith
few_texts monitors = omega arith
few_texts rootplot_feed = omega arith
few_texts plotlyplot_feed = omega arith

small_job-IsFresh : IsFresh small_job
small_job-IsFresh = record {
  endpoint = refl;
  indexed = ((omega arith, tt), tt);
  few_writes = omega arith;
  few_texts = few_texts;
}

rounds-Commits_example :
    Runs (Commits ([] ++ ([] ++ statements 0 small_job))) (rounds friendly 3 (small_job, begin))
rounds-Commits_example =
    rounds-Commits small_job begin small_job-IsFresh refl refl friendly friendly-IsHealthy 2

small_statements :
    statements 0 small_job
    ≡ user_query (codes "q1")
      ∷ logging_insert (codes "log1")
      ∷ logging_insert (codes "log2")
      ∷ insert alarms (codes "alarm")
      ∷ []
unfolding statements generic_statements query_statements feed_part feed_statements write_statements
    table_statements is_due got msg is_compressed compressed feed_statement
small_statements = refl

picky-Refuses : Refuses picky logs is_bad
unfolding feed_statement
picky-Refuses = record {
  accepted = λ s text e f. ([], 7 ∷ [], rw (e, f) refl);
  refused = λ s text e f. ([], codes "sql_error", codes "bad", rw (e, f) refl);
}

feed_items-Lost_example :
    let r =
      feed_items picky logs 0
        ((codes "log1" ∷ []) ++ codes "bad" ∷ codes "log2" ∷ [])
        ([], begin) in
    (r.1.session.tx ≡ map (feed_statement logs) (codes "log2" ∷ []))
    × (r.1.session.stored ≡ [])
    × (r.1.had_error ≡ true)
feed_items-Lost_example =
    feed_items-Lost picky logs is_bad picky-Refuses (codes "log1" ∷ []) (codes "log2" ∷ [])
      (codes "bad") 0 [] begin refl tt refl (refl, tt)
