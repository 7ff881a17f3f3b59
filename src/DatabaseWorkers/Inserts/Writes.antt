-- ===== src/DatabaseWorkers/Inserts/Writes.antt =====
-- UserTools/DatabaseWorkers/DatabaseWorkers.cpp: the section of `DatabaseJob` that inserts the
-- buffers of the write batches, one for each table.
use services_backend.Common.{
  ℕ, suc, ◌+◌, Bool, ◌&&◌, List, [], ◌∷◌, ◌++◌, length, drop, is_empty, if◌then◌else◌, Outcome, ok,
  ◌>>=◌,
}
use services_backend.QueryTopic.{
  Table, alarms, devconfigs, base_configs, runmode_configs, calibrations, rootplots, plotlyplots,
  update,
}
use services_backend.QueryBatch.{QueryBatch, got}
use services_backend.DatabaseWorkers.{writes, DatabaseJobStruct}
use services_backend.DatabaseWorkers.Server.{
  Server, Reply, insert, done, raised, error_text, executed,
}
use services_backend.DatabaseWorkers.Inserts.{Counts, Inserts, fail_at, last_i, span}

-- The order of the insertions of a batch.
abbrev pub tables : List Table
tables =
    alarms ∷ devconfigs ∷ base_configs ∷ runmode_configs ∷ calibrations ∷ rootplots ∷ plotlyplots
    ∷ []

-- The insertion of alarms returns nothing.
abbrev pub pushed : Table → List ℕ → (Table → List ℕ) → Table → List ℕ
pushed alarms versions nums = nums
pushed t versions nums = update nums t (nums t ++ versions)

abbrev pub push_versions : Table → List ℕ → QueryBatch → QueryBatch
push_versions t versions b = record b { version_nums = pushed t versions b.version_nums }

abbrev count_table : Table → Counts → Counts
count_table t c = record c { to_table = update c.to_table t (c.to_table t + 1) }

unfoldable pub insert_done : Table → QueryBatch → Inserts → Inserts
insert_done t b s = record s {
  session = executed (insert t (b.buffer t)) s.session;
  submissions = count_table t s.submissions;
}

unfoldable pub insert_failed : Table → ℕ → Inserts → Inserts
insert_failed t i s =
    fail_at (i + 1) (record s { submissions_failed = count_table t s.submissions_failed })

-- Whether a buffer is inserted: there is one, and it did not fail in an earlier round.
unfoldable pub is_due : Table → QueryBatch → Bool
is_due t b = got t b && is_empty (b.batch_err t)

-- What the answer does to the `i`-th batch and the state.
unfoldable pub table_reply : ℕ → Table → QueryBatch → Inserts → Reply → QueryBatch × Inserts
table_reply i t b s (done rows versions) = (push_versions t versions b, insert_done t b s)
table_reply i t b s (raised versions name what) = (
  record (push_versions t versions b) { batch_err = update b.batch_err t (error_text name what) },
  insert_failed t i s,
)

-- The buffer for one table.
unfoldable pub insert_table : Server → ℕ → Table → QueryBatch → Inserts → QueryBatch × Inserts
insert_table srv i t b s =
    if is_due t b
    then table_reply i t b s (srv.answer s.session (insert t (b.buffer t)))
    else (b, s)

unfoldable pub insert_tables : Server → ℕ → List Table → QueryBatch → Inserts → QueryBatch × Inserts
insert_tables srv i [] b s = (b, s)
insert_tables srv i (t ∷ ts) b s =
    let r = insert_table srv i t b s in insert_tables srv i ts r.0 r.1

unfoldable pub insert_batches : Server → ℕ → List QueryBatch → Inserts → List QueryBatch × Inserts
insert_batches srv i [] s = ([], s)
insert_batches srv i (b ∷ bs) s =
    let r = insert_tables srv i tables b s in
    let rest = insert_batches srv (suc i) bs r.1 in (r.0 ∷ rest.0, rest.1)

-- A whole section.
unfoldable pub insert_writes :
    Server → DatabaseJobStruct → Inserts → Outcome (DatabaseJobStruct × Inserts)
insert_writes srv j s =
    let n = last_i writes (length j.write_queue) j in
    span 0 n j.write_queue >>= λ bs.
    let r = insert_batches srv 0 bs s in
    ok (record j { write_queue = r.0 ++ drop n j.write_queue }, r.1)
