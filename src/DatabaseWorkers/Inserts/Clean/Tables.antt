-- ===== src/DatabaseWorkers/Inserts/Clean/Tables.antt =====
-- The buffers of write batches that the database takes.
use services_backend.Common.{
  ℕ, suc, ◌≡◌, refl, ap, ◌∙◌, Bool, true, false, List, [], ◌∷◌, if◌then◌else◌,
}
use services_backend.QueryTopic.{Table}
use services_backend.QueryBatch.{QueryBatch, got}
use services_backend.DatabaseWorkers.Server.{Server, Statement, insert, executed}
use services_backend.DatabaseWorkers.Inserts.{Inserts}
use services_backend.DatabaseWorkers.Inserts.Writes.{
  tables, push_versions, insert_done, is_due, table_reply, insert_table, insert_tables,
  insert_batches,
}
use services_backend.DatabaseWorkers.Inserts.Clean.{
  when, IsHealthy, table_statements, write_statements, Executes, Executes-nothing, Executes-trans,
}

-- A batch after insertions: its buffers and errors are the same.
pub record Inserted (b : QueryBatch) (added : List Statement) (s : Inserts)
    (r : QueryBatch × Inserts) : Type 0 where
  pub buffer : r.0.buffer ≡ b.buffer
  pub batch_err : r.0.batch_err ≡ b.batch_err
  pub executes : Executes added s r.1

pub table_statements-same :
    (b c : QueryBatch) (ts : List Table)
    → c.buffer ≡ b.buffer
    → c.batch_err ≡ b.batch_err
    → table_statements c ts ≡ table_statements b ts
unfolding table_statements is_due got
table_statements-same b c [] e f = refl
table_statements-same b c (t ∷ ts) e f = rw (table_statements-same b c ts e f, e, f) refl

table_case :
    (t : Table) (versions : List ℕ) (b : QueryBatch) (s : Inserts) (due : Bool)
    (r : QueryBatch × Inserts)
    → r ≡ (push_versions t versions b, insert_done t b s)
    → Inserted b (when due (insert t (b.buffer t))) s (if due then r else (b, s))
unfolding insert_done executed
table_case t versions b s true r e = rw e (record {
  buffer = refl;
  batch_err = refl;
  executes = record {
    tx = refl;
    stored = refl;
    is_open = refl;
    had_error = refl;
    checkpoint_j = refl;
  };
})
table_case t versions b s false r e = record {
  buffer = refl;
  batch_err = refl;
  executes = Executes-nothing s;
}

module _ (srv : Server) (h : IsHealthy srv) where
  pub insert_table-Inserted :
      (i : ℕ) (t : Table) (b : QueryBatch) (s : Inserts)
      → s.session.is_open ≡ true
      → Inserted b (when (is_due t b) (insert t (b.buffer t))) s (insert_table srv i t b s)
  unfolding insert_table table_reply
  insert_table-Inserted i t b s alive =
      table_case t (h.versions (insert t (b.buffer t))) b s (is_due t b) _
        (ap (table_reply i t b s) (h.answers s.session (insert t (b.buffer t)) alive))

  insert_tables-Inserted :
      (i : ℕ) (ts : List Table) (b : QueryBatch) (s : Inserts)
      → s.session.is_open ≡ true
      → Inserted b (table_statements b ts) s (insert_tables srv i ts b s)
  unfolding insert_tables table_statements
  insert_tables-Inserted i [] b s alive = record {
    buffer = refl;
    batch_err = refl;
    executes = Executes-nothing s;
  }
  insert_tables-Inserted i (t ∷ ts) b s alive =
      let r = insert_table srv i t b s in
      let one = insert_table-Inserted i t b s alive in
      let rest = insert_tables-Inserted i ts r.0 r.1 (one.executes.is_open ∙ alive) in
      record {
        buffer = rest.buffer ∙ one.buffer;
        batch_err = rest.batch_err ∙ one.batch_err;
        executes =
            Executes-trans one.executes
              (rw (table_statements-same b r.0 ts one.buffer one.batch_err) at rest.executes);
      }

  -- The batches one after the other.
  pub insert_batches-Executes :
      (i : ℕ) (bs : List QueryBatch) (s : Inserts)
      → s.session.is_open ≡ true
      → Executes (write_statements bs) s (insert_batches srv i bs s).1
  unfolding insert_batches write_statements
  insert_batches-Executes i [] s alive = Executes-nothing s
  insert_batches-Executes i (b ∷ bs) s alive =
      let r = insert_tables srv i tables b s in
      let one = insert_tables-Inserted i tables b s alive in
      Executes-trans one.executes
        (insert_batches-Executes (suc i) bs r.1 (one.executes.is_open ∙ alive))
