-- ===== src/DatabaseWorkers/Inserts/Falls/Tables.antt =====
-- The unflagged table buffers fall.
use services_backend.Common.{
  ℕ, suc, ◌≡◌, refl, true, List, [], ◌∷◌, is_empty, arith, Bool-cases, inl, inr,
}
use services_backend.QueryTopic.{Table}
use services_backend.QueryBatch.{QueryBatch}
use services_backend.DatabaseWorkers.Server.{Server, Reply, done, raised, error_text}
use services_backend.DatabaseWorkers.Inserts.{Inserts, fail_at}
use services_backend.DatabaseWorkers.Inserts.Writes.{
  tables, insert_done, insert_failed, is_due, table_reply, insert_table, insert_tables,
  insert_batches,
}
use services_backend.DatabaseWorkers.Inserts.Chances.{
  unflagged, open_batches, error_text-unflagged, open_tables-update,
}
use services_backend.DatabaseWorkers.Inserts.Falls.{
  Falls-refl, Falls-trans, Lowers, kept, lowered, open_batch, batches-Falls,
}

table_reply-Falls :
    (i : ℕ) (t : Table) (b : QueryBatch) (s : Inserts) (r : Reply)
    → is_empty (b.batch_err t) ≡ true
    → Lowers open_batch b s (table_reply i t b s r)
unfolding table_reply insert_done insert_failed fail_at open_batches
table_reply-Falls i t b s (done rows versions) e = kept s _ refl refl
table_reply-Falls i t b s (raised versions name what) e =
    let text = error_text name what in
    let was : unflagged (b.batch_err t) ≡ 1 = rw e refl in
    lowered s _
      (omega (arith, was, open_tables-update b.batch_err t text (error_text-unflagged name what)))

insert_table-Falls :
    (srv : Server) (i : ℕ) (t : Table) (b : QueryBatch) (s : Inserts)
    → Lowers open_batch b s (insert_table srv i t b s)
unfolding insert_table is_due
insert_table-Falls srv i t b s = elim (Bool-cases (is_due t b)) [
  | inl e ↦ rw (e, insert_table) (table_reply-Falls i t b s _ (ground arith))
  | inr e ↦ rw (e, insert_table) (Falls-refl _ s)
]

insert_tables-Falls :
    (srv : Server) (i : ℕ) (ts : List Table) (b : QueryBatch) (s : Inserts)
    → Lowers open_batch b s (insert_tables srv i ts b s)
unfolding insert_tables
insert_tables-Falls srv i [] b s = Falls-refl _ s
insert_tables-Falls srv i (t ∷ ts) b s =
    let r = insert_table srv i t b s in
    Falls-trans (insert_table-Falls srv i t b s) (insert_tables-Falls srv i ts r.0 r.1)

pub insert_batches-Falls :
    (srv : Server) (i : ℕ) (bs : List QueryBatch) (s : Inserts)
    → Lowers open_batches bs s (insert_batches srv i bs s)
unfolding insert_batches
insert_batches-Falls srv i [] s = Falls-refl _ s
insert_batches-Falls srv i (b ∷ bs) s =
    let r = insert_tables srv i tables b s in
    batches-Falls b r.0 bs _ (insert_tables-Falls srv i tables b s)
      (insert_batches-Falls srv (suc i) bs r.1)
