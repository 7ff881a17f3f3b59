-- ===== src/DatabaseWorkers/Inserts/Feeds.antt =====
-- UserTools/DatabaseWorkers/DatabaseWorkers.cpp: the sections of `DatabaseJob` that insert the
-- multicast buffers. The four differ in the queue, the set of bad indices and the counters.
use services_backend.Common.{
  ℕ, suc, ◌+◌, Bool, false, List, [], ◌∷◌, Bytes, length, ◌||◌, ◌==◌, if◌then◌else◌, Outcome, ok,
  ◌>>=◌,
}
use services_backend.QueryTopic.{Table, update}
use services_backend.Jobs.{Feed, logs, monitors, rootplot_feed, plotlyplot_feed}
use services_backend.DatabaseWorkers.{
  DatabaseJobStep, logging, monitoring, rootplots, plotlyplots, DatabaseJobStruct,
}
use services_backend.DatabaseWorkers.Server.{Server, Reply, done, raised, feed_statement, executed}
use services_backend.DatabaseWorkers.Inserts.{Counts, Inserts, fail_at, last_i, span}

abbrev pub feed_queue : Feed → DatabaseJobStruct → List Bytes
feed_queue logs j = j.logging_queue
feed_queue monitors j = j.monitoring_queue
feed_queue rootplot_feed j = j.rootplot_queue
feed_queue plotlyplot_feed j = j.plotlyplot_queue

-- An index is below 2^16, so as an `int16_t` it still stands for itself alone.
abbrev pub bad_set : Feed → DatabaseJobStruct → List ℕ
bad_set logs j = j.bad_logs
bad_set monitors j = j.bad_mons
bad_set rootplot_feed j = j.bad_rootplots
bad_set plotlyplot_feed j = j.bad_plotlyplots

abbrev pub with_bad_set : Feed → List ℕ → DatabaseJobStruct → DatabaseJobStruct
with_bad_set logs bad j = record j { bad_logs = bad }
with_bad_set monitors bad j = record j { bad_mons = bad }
with_bad_set rootplot_feed bad j = record j { bad_rootplots = bad }
with_bad_set plotlyplot_feed bad j = record j { bad_plotlyplots = bad }

abbrev pub feed_step : Feed → DatabaseJobStep
feed_step logs = logging
feed_step monitors = monitoring
feed_step rootplot_feed = rootplots
feed_step plotlyplot_feed = plotlyplots

abbrev pub count : List ℕ → ℕ → Bool
count [] i = false
count (k ∷ ks) i = k == i || count ks i

unfoldable pub count_feed : Feed → Counts → Counts
count_feed logs c = record c { to_logging = c.to_logging + 1 }
count_feed monitors c = record c { to_monitoring = c.to_monitoring + 1 }
count_feed rootplot_feed c = record c {
  to_table = update c.to_table Table.rootplots (c.to_table Table.rootplots + 1);
}
count_feed plotlyplot_feed c = record c {
  to_table = update c.to_table Table.plotlyplots (c.to_table Table.plotlyplots + 1);
}

-- Only log and monitoring messages are counted in bytes.
unfoldable pub count_bytes : Feed → Bytes → Inserts → Inserts
count_bytes logs text s = record s { logging_bytes = s.logging_bytes + length text }
count_bytes monitors text s = record s { monitoring_bytes = s.monitoring_bytes + length text }
count_bytes _ text s = s

-- The buffer goes to the pool whether or not it was inserted.
abbrev pooled : Bytes → Inserts → Inserts
pooled text s = record s { multicast_batch_pool = text ∷ s.multicast_batch_pool }

unfoldable pub feed_done : Feed → Bytes → Inserts → Inserts
feed_done f text s = pooled text (
    count_bytes f text (record s {
      session = executed (feed_statement f text) s.session;
      submissions = count_feed f s.submissions;
    }))

unfoldable pub feed_failed : Feed → ℕ → Bytes → Inserts → Inserts
feed_failed f i text s =
    pooled text (fail_at i (record s { submissions_failed = count_feed f s.submissions_failed }))

-- What the answer does to the set of bad indices and the state.
unfoldable pub feed_reply : Feed → ℕ → Bytes → List ℕ → Inserts → Reply → List ℕ × Inserts
feed_reply f i text bad s (done rows versions) = (bad, feed_done f text s)
feed_reply f i text bad s (raised versions name what) = (i ∷ bad, feed_failed f i text s)

-- One buffer.
unfoldable pub feed_item : Server → Feed → ℕ → Bytes → List ℕ × Inserts → List ℕ × Inserts
feed_item srv f i text (bad, s) =
    if count bad i
    then (bad, s)
    else feed_reply f i text bad s (srv.answer s.session (feed_statement f text))

unfoldable pub feed_items : Server → Feed → ℕ → List Bytes → List ℕ × Inserts → List ℕ × Inserts
feed_items srv f i [] r = r
feed_items srv f i (text ∷ texts) r = feed_items srv f (suc i) texts (feed_item srv f i text r)

-- A whole section.
unfoldable pub insert_feed :
    Server → Feed → DatabaseJobStruct → Inserts → Outcome (DatabaseJobStruct × Inserts)
insert_feed srv f j s =
    span 0 (last_i (feed_step f) (length (feed_queue f j)) j) (feed_queue f j) >>= λ texts.
    let r = feed_items srv f 0 texts (bad_set f j, s) in ok (with_bad_set f (r.0) j, r.1)
