-- ===== src/DatabaseWorkers/Inserts/Parts.antt =====
-- The insertions keep the write batches and their queries, but for results, errors and version
-- numbers: list by list.
use services_backend.Common.{
  ℕ, suc, ◌≡◌, refl, ap, ◌∙◌, List, [], ◌∷◌, ◌++◌, Bytes, get_elem?, set, is_empty, IfOk, IfOk->>=,
  IfOk-map, IfOk-then, IfOk-or_fault, index_out_of_range, Bool-cases, inl, inr,
}
use services_backend.QueryTopic.{Table}
use services_backend.ZmqQuery.{ZmqQuery}
use services_backend.QueryBatch.{QueryBatch}
use services_backend.DatabaseWorkers.{DatabaseJobStruct}
use services_backend.DatabaseWorkers.Server.{Server, Reply, done, raised}
use services_backend.DatabaseWorkers.Inserts.{Inserts}
use services_backend.DatabaseWorkers.Inserts.Generics.{
  query_reply, exec_query, exec_queries, exec_batch, exec_batches,
}
use services_backend.DatabaseWorkers.Inserts.Writes.{
  tables, table_reply, is_due, insert_table, insert_tables, insert_batches,
}
use services_backend.DatabaseWorkers.Reads.Batches.{parts_of, parts_of-set}

-- The parts of all queries of all batches.
unfoldable pub all_parts : List QueryBatch → List (List (List Bytes))
all_parts [] = []
all_parts (b ∷ bs) = parts_of b.queries ∷ all_parts bs

pub all_parts-append :
    (bs cs : List QueryBatch) → all_parts (bs ++ cs) ≡ all_parts bs ++ all_parts cs
unfolding all_parts
all_parts-append [] cs = refl
all_parts-append (b ∷ bs) cs = ap (◌∷◌ (parts_of b.queries)) (all_parts-append bs cs)

query_reply-parts :
    (i j : ℕ) (q : ZmqQuery) (s : Inserts) (r : Reply) → (query_reply i j q s r).0.parts ≡ q.parts
unfolding query_reply
query_reply-parts i j q s (done rows versions) = refl
query_reply-parts i j q s (raised versions name what) = refl

exec_query-parts :
    (srv : Server) (i j : ℕ) (q : ZmqQuery) (s : Inserts)
    → (exec_query srv i j q s).0.parts ≡ q.parts
unfolding exec_query
exec_query-parts srv i j q s = elim (Bool-cases (is_empty q.err)) [
  | inl e ↦ rw (e, exec_query) (query_reply-parts i j q s _)
  | inr e ↦ rw (e, exec_query) refl
]

abbrev SameQueries : List ZmqQuery → List ZmqQuery × Inserts → Type 0
SameQueries qs r = parts_of r.0 ≡ parts_of qs

abbrev SameBatch : QueryBatch → QueryBatch × Inserts → Type 0
SameBatch b r = parts_of r.0.queries ≡ parts_of b.queries

abbrev pub SameBatches : List QueryBatch → List QueryBatch × Inserts → Type 0
SameBatches bs r = all_parts r.0 ≡ all_parts bs

exec_queries-parts :
    (srv : Server) (i j : ℕ) (ks : List ℕ) (qs : List ZmqQuery) (s : Inserts)
    → IfOk (SameQueries qs) (exec_queries srv i j ks qs s)
unfolding exec_queries
exec_queries-parts srv i j [] qs s = refl
exec_queries-parts srv i j (k ∷ ks) qs s =
    IfOk-or_fault (SameQueries qs) (get_elem? qs k) index_out_of_range _ (λ q e.
      let r = exec_query srv i j q s in
      let same = parts_of-set qs k q r.0 e (exec_query-parts srv i j q s) in
      IfOk-map (SameQueries (set qs k r.0)) (SameQueries qs)
        (exec_queries srv i (suc j) ks (set qs k r.0) r.1)
        (exec_queries-parts srv i (suc j) ks (set qs k r.0) r.1) (λ t h. h ∙ same))

exec_batch-parts :
    (srv : Server) (job : DatabaseJobStruct) (i : ℕ) (b : QueryBatch) (s : Inserts)
    → IfOk (SameBatch b) (exec_batch srv job i b s)
unfolding exec_batch
exec_batch-parts srv job i b s = IfOk-then (SameBatch b) _ _ (λ ks.
    IfOk->>= (SameQueries b.queries) (SameBatch b)
      (exec_queries srv i s.checkpoint_j ks b.queries s) _
      (exec_queries-parts srv i s.checkpoint_j ks b.queries s) (λ r h. h))

pub exec_batches-parts :
    (srv : Server) (job : DatabaseJobStruct) (i : ℕ) (bs : List QueryBatch) (s : Inserts)
    → IfOk (SameBatches bs) (exec_batches srv job i bs s)
unfolding exec_batches all_parts
exec_batches-parts srv job i [] s = refl
exec_batches-parts srv job i (b ∷ bs) s =
    IfOk->>= (SameBatch b) (SameBatches (b ∷ bs)) (exec_batch srv job i b s) _
      (exec_batch-parts srv job i b s)
      (λ r h.
        IfOk->>= (SameBatches bs) (SameBatches (b ∷ bs)) (exec_batches srv job (suc i) bs r.1) _
          (exec_batches-parts srv job (suc i) bs r.1) (λ rest k. rw (h, k) refl))

table_reply-queries :
    (i : ℕ) (t : Table) (b : QueryBatch) (s : Inserts) (r : Reply)
    → (table_reply i t b s r).0.queries ≡ b.queries
unfolding table_reply
table_reply-queries i t b s (done rows versions) = refl
table_reply-queries i t b s (raised versions name what) = refl

insert_table-queries :
    (srv : Server) (i : ℕ) (t : Table) (b : QueryBatch) (s : Inserts)
    → (insert_table srv i t b s).0.queries ≡ b.queries
unfolding insert_table
insert_table-queries srv i t b s = elim (Bool-cases (is_due t b)) [
  | inl e ↦ rw (e, insert_table) (table_reply-queries i t b s _)
  | inr e ↦ rw (e, insert_table) refl
]

pub insert_tables-queries :
    (srv : Server) (i : ℕ) (ts : List Table) (b : QueryBatch) (s : Inserts)
    → (insert_tables srv i ts b s).0.queries ≡ b.queries
unfolding insert_tables
insert_tables-queries srv i [] b s = refl
insert_tables-queries srv i (t ∷ ts) b s =
    let r = insert_table srv i t b s in
    insert_tables-queries srv i ts r.0 r.1 ∙ insert_table-queries srv i t b s

pub insert_batches-parts :
    (srv : Server) (i : ℕ) (bs : List QueryBatch) (s : Inserts)
    → all_parts (insert_batches srv i bs s).0 ≡ all_parts bs
unfolding insert_batches all_parts
insert_batches-parts srv i [] s = refl
insert_batches-parts srv i (b ∷ bs) s =
    let r = insert_tables srv i tables b s in
    rw (insert_tables-queries srv i tables b s, insert_batches-parts srv (suc i) bs r.1) refl
