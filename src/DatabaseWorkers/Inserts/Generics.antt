-- ===== src/DatabaseWorkers/Inserts/Generics.antt =====
-- UserTools/DatabaseWorkers/DatabaseWorkers.cpp: the section of `DatabaseJob` that executes the
-- users' own queries, first of all since they are not validated.
use services_backend.Common.{
  ℕ, suc, ◌+◌, List, [], ◌∷◌, ◌++◌, length, get_elem?, set, drop, is_empty, if◌then◌else◌, Outcome,
  ok, index_out_of_range, ◌>>=◌, or_fault,
}
use services_backend.ZmqQuery.{ZmqQuery, msg}
use services_backend.QueryBatch.{QueryBatch}
use services_backend.DatabaseWorkers.{generics, DatabaseJobStruct}
use services_backend.DatabaseWorkers.Server.{
  Server, Reply, user_query, done, raised, error_text, executed,
}
use services_backend.DatabaseWorkers.Inserts.{Inserts, fail_at, step_eq, last_i, span}

unfoldable pub query_done : ZmqQuery → Inserts → Inserts
query_done q s = record s {
  session = executed (user_query (msg q)) s.session;
  submissions = record (s.submissions) { generic = s.submissions.generic + 1 };
}

-- The `j`-th generic query of the `i`-th batch failed.
unfoldable pub query_failed : ℕ → ℕ → Inserts → Inserts
query_failed i j s = fail_at (i + 1) (record s {
  checkpoint_j = j;
  submissions_failed = record (s.submissions_failed) { generic = s.submissions_failed.generic + 1 };
})

-- What the answer does to the query and the state.
unfoldable pub query_reply : ℕ → ℕ → ZmqQuery → Inserts → Reply → ZmqQuery × Inserts
query_reply i j q s (done rows versions) = (record q { result = rows }, query_done q s)
query_reply i j q s (raised versions name what) =
    (record q { result = []; err = error_text name what }, query_failed i j s)

-- One query, which is skipped when an earlier round flagged it.
unfoldable pub exec_query : Server → ℕ → ℕ → ZmqQuery → Inserts → ZmqQuery × Inserts
exec_query srv i j q s =
    if is_empty q.err
    then query_reply i j q s (srv.answer s.session (user_query (msg q)))
    else (q, s)

-- The queries at these indices, the first of which is the `j`-th generic one.
unfoldable pub exec_queries :
    Server → ℕ → ℕ → List ℕ → List ZmqQuery → Inserts → Outcome (List ZmqQuery × Inserts)
exec_queries srv i j [] qs s = ok (qs, s)
exec_queries srv i j (k ∷ ks) qs s = or_fault (get_elem? qs k) index_out_of_range >>= λ q.
    let r = exec_query srv i j q s in exec_queries srv i (suc j) ks (set qs k r.0) r.1

-- The `i`-th batch. The loop starts at the checkpoint as it is now.
unfoldable pub exec_batch :
    Server → DatabaseJobStruct → ℕ → QueryBatch → Inserts → Outcome (QueryBatch × Inserts)
exec_batch srv job i b s =
    let last_j =
      if step_eq job.endpoint generics then job.endpoint_j else length b.generic_query_indices in
    span s.checkpoint_j last_j b.generic_query_indices >>= λ ks.
    exec_queries srv i s.checkpoint_j ks b.queries s >>= λ r. ok (record b { queries = r.0 }, r.1)

unfoldable pub exec_batches :
    Server → DatabaseJobStruct → ℕ → List QueryBatch → Inserts → Outcome (List QueryBatch × Inserts)
exec_batches srv job i [] s = ok ([], s)
exec_batches srv job i (b ∷ bs) s = exec_batch srv job i b s >>= λ r.
    exec_batches srv job (suc i) bs r.1 >>= λ rest. ok (r.0 ∷ rest.0, rest.1)

-- A whole section.
unfoldable pub exec_generics :
    Server → DatabaseJobStruct → Inserts → Outcome (DatabaseJobStruct × Inserts)
exec_generics srv j s =
    let n = last_i generics (length j.write_queue) j in
    span 0 n j.write_queue >>= λ bs. exec_batches srv j 0 bs s >>= λ r.
    ok (record j { write_queue = r.0 ++ drop n j.write_queue }, r.1)
