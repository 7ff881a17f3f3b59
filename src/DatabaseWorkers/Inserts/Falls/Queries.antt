-- ===== src/DatabaseWorkers/Inserts/Falls/Queries.antt =====
-- The unflagged generic queries fall.
use services_backend.Common.{
  ℕ, suc, ◌+◌, ◌≡◌, refl, true, List, [], ◌∷◌, get_elem?, set, is_empty, IfOk, IfOk-then, IfOk-map,
  IfOk->>=, arith, Bool-cases, Option-cases, inl, inr,
}
use services_backend.ZmqQuery.{ZmqQuery, msg}
use services_backend.QueryBatch.{QueryBatch}
use services_backend.DatabaseWorkers.{DatabaseJobStruct}
use services_backend.DatabaseWorkers.Server.{Server, Reply, done, raised, user_query}
use services_backend.DatabaseWorkers.Inserts.{Inserts, fail_at}
use services_backend.DatabaseWorkers.Inserts.Generics.{
  query_done, query_reply, query_failed, exec_query, exec_queries, exec_batch, exec_batches,
}
use services_backend.DatabaseWorkers.Inserts.Chances.{
  unflagged, open_queries, open_tables, open_batches, error_text-unflagged, open_queries-set,
}
use services_backend.DatabaseWorkers.Inserts.Falls.{
  Falls, Falls-refl, Falls-trans, Falls-plus, Lowers, kept, lowered, open_batch, batches-Falls,
}

query_reply-Falls :
    (i j : ℕ) (q : ZmqQuery) (s : Inserts) (r : Reply)
    → is_empty q.err ≡ true
    → Falls 1 (unflagged (query_reply i j q s r).0.err) s (query_reply i j q s r).1
unfolding query_reply query_done query_failed fail_at
query_reply-Falls i j q s (done rows versions) e = kept s _ (rw e refl) refl
query_reply-Falls i j q s (raised versions name what) e =
    lowered s _ (omega (arith, error_text-unflagged name what))

exec_query-Falls :
    (srv : Server) (i j : ℕ) (q : ZmqQuery) (s : Inserts)
    → Falls
        (unflagged q.err)
        (unflagged (exec_query srv i j q s).0.err)
        s
        (exec_query srv i j q s).1
unfolding exec_query
exec_query-Falls srv i j q s = elim (Bool-cases (is_empty q.err)) [
  | inl e ↦
      rw (e, exec_query) (query_reply-Falls i j q s (srv.answer s.session (user_query (msg q))) e)
  | inr e ↦ rw (e, exec_query) (rw e (Falls-refl 0 s))
]

exec_queries-Falls :
    (srv : Server) (i j : ℕ) (ks : List ℕ) (qs : List ZmqQuery) (s : Inserts)
    → IfOk (Lowers open_queries qs s) (exec_queries srv i j ks qs s)
unfolding exec_queries
exec_queries-Falls srv i j [] qs s = Falls-refl (open_queries qs) s
exec_queries-Falls srv i j (k ∷ ks) qs s = elim (Option-cases (get_elem? qs k)) [
  | inl e ↦ rw e tt
  | inr (q, e) ↦
      let r = exec_query srv i j q s in
      let one = exec_query-Falls srv i j q s in
      let counted = open_queries-set qs k q r.0 e in
      let first : Falls (open_queries qs) (open_queries (set qs k r.0)) s r.1 = record {
        within = omega (arith, counted, one.within);
        strictly = λ f g. omega (arith, counted, one.strictly f g);
      } in
      rw e (
        IfOk-map _ _ _ (exec_queries-Falls srv i (suc j) ks (set qs k r.0) r.1)
          (λ a. Falls-trans first))
]

queries-Falls :
    (b : QueryBatch) (qs : List ZmqQuery) (s s' : Inserts)
    → Falls (open_queries b.queries) (open_queries qs) s s'
    → Falls (open_batch b) (open_batch (record b { queries = qs })) s s'
unfolding open_batches
queries-Falls b qs s s' h = Falls-plus h (open_tables b.batch_err + 0) (omega arith) (omega arith)

exec_batch-Falls :
    (srv : Server) (job : DatabaseJobStruct) (i : ℕ) (b : QueryBatch) (s : Inserts)
    → IfOk (Lowers open_batch b s) (exec_batch srv job i b s)
unfolding exec_batch
exec_batch-Falls srv job i b s = IfOk-then (Lowers open_batch b s) _ _ (λ ks.
    IfOk->>= (Lowers open_queries b.queries s) (Lowers open_batch b s)
      (exec_queries srv i s.checkpoint_j ks b.queries s) _
      (exec_queries-Falls srv i s.checkpoint_j ks b.queries s) (λ r h. queries-Falls b r.0 s r.1 h))

pub exec_batches-Falls :
    (srv : Server) (job : DatabaseJobStruct) (i : ℕ) (bs : List QueryBatch) (s : Inserts)
    → IfOk (Lowers open_batches bs s) (exec_batches srv job i bs s)
unfolding exec_batches
exec_batches-Falls srv job i [] s = Falls-refl _ s
exec_batches-Falls srv job i (b ∷ bs) s =
    IfOk->>= (Lowers open_batch b s) (Lowers open_batches (b ∷ bs) s) (exec_batch srv job i b s) _
      (exec_batch-Falls srv job i b s)
      (λ r h.
        IfOk->>= (Lowers open_batches bs r.1) (Lowers open_batches (b ∷ bs) s)
          (exec_batches srv job (suc i) bs r.1) _ (exec_batches-Falls srv job (suc i) bs r.1)
          (λ rest k. batches-Falls b r.0 bs rest.0 h k))
