-- ===== src/DatabaseWorkers/Inserts/Clean/Queries.antt =====
-- The generic queries that the database takes.
use services_backend.Common.{
  ℕ, length-nil, length-drop, take_all, length-set, zero, suc, ◌<◌, ◌≡◌, refl, sym, ap, ◌∙◌, Bool,
  true, false, some, List, [], ◌∷◌, ◌++◌, length, get_elem?, set, drop, is_empty, leb, All, Runs,
  Runs->>=, Runs-map, ok, arith, Bool-cases, inl, inr, if◌then◌else◌,
}
use services_backend.ZmqQuery.{ZmqQuery, Row, msg, is_compressed}
use services_backend.QueryBatch.{QueryBatch}
use services_backend.DatabaseWorkers.{generics, DatabaseJobStruct}
use services_backend.DatabaseWorkers.Server.{Server, user_query, executed}
use services_backend.DatabaseWorkers.Inserts.{Inserts, step_eq, span}
use services_backend.DatabaseWorkers.Inserts.Generics.{
  query_done, query_reply, exec_query, exec_queries, exec_batch, exec_batches,
}
use services_backend.DatabaseWorkers.Inserts.Writes.{tables}
use services_backend.DatabaseWorkers.Inserts.Clean.Tables.{table_statements-same}
use services_backend.DatabaseWorkers.Inserts.Clean.{
  IsHealthy, query_statement, query_statements, generic_statements, Executes, Executes-nothing,
  Executes-trans, write_statements,
}

found : (qs : List ZmqQuery) (k : ℕ) → k < length qs → (q : ZmqQuery) × (get_elem? qs k ≡ some q)
found [] k h = absurd (omega arith)
found (q ∷ qs) zero h = (q, refl)
found (q ∷ qs) (suc k) h = found qs k (omega arith)

-- A result changes no statement.
result-same :
    (qs : List ZmqQuery) (k n : ℕ) (q v : ZmqQuery)
    → get_elem? qs k ≡ some q
    → query_statement (some v) ≡ query_statement (some q)
    → query_statement (get_elem? (set qs k v) n) ≡ query_statement (get_elem? qs n)
result-same [] k n q v e f = refl
result-same (x ∷ qs) zero zero q v e f = f ∙ ap query_statement (sym e)
result-same (x ∷ qs) zero (suc n) q v e f = refl
result-same (x ∷ qs) (suc k) zero q v e f = refl
result-same (x ∷ qs) (suc k) (suc n) q v e f = result-same qs k n q v e f

results-same :
    (qs : List ZmqQuery) (k : ℕ) (ks : List ℕ) (q v : ZmqQuery)
    → get_elem? qs k ≡ some q
    → query_statement (some v) ≡ query_statement (some q)
    → query_statements (set qs k v) ks ≡ query_statements qs ks
unfolding query_statements
results-same qs k [] q v e f = refl
results-same qs k (n ∷ ks) q v e f =
    ap (λ x. x ++ query_statements (set qs k v) ks) (result-same qs k n q v e f)
    ∙ ap (◌++◌ (query_statement (get_elem? qs n))) (results-same qs k ks q v e f)

-- A query after its execution: it is the same statement.
record Executed (q : ZmqQuery) (s : Inserts) (r : ZmqQuery × Inserts) : Type 0 where
  same : query_statement (some r.0) ≡ query_statement (some q)
  executes : Executes (query_statement (some q)) s r.1

query_case :
    (q : ZmqQuery) (rows : List Row) (s : Inserts) (r : ZmqQuery × Inserts)
    → r ≡ (record q { result = rows }, query_done q s)
    → (b : Bool) → is_empty q.err ≡ b
    → Executed q s (if b then r else (q, s))
unfolding query_done executed msg is_compressed
query_case q rows s r e true f = rw e (record {
  same = refl;
  executes =
      rw f (record {
        tx = refl;
        stored = refl;
        is_open = refl;
        had_error = refl;
        checkpoint_j = refl;
      });
})
query_case q rows s r e false f = record { same = refl; executes = rw f (Executes-nothing s) }

pub span_rest : {A : Type 0} (from : ℕ) (xs : List A) → span from (length xs) xs ≡ ok (drop from xs)
unfolding span
span_rest from xs = elim (Bool-cases (leb (length xs) from)) [
  | inl e ↦ rw e (ap ok (sym (length-nil (drop from xs) (ground (arith, length-drop from xs)))))
  | inr e ↦
      let all : leb (length xs) (length xs) ≡ true = ground arith in
      rw (e, all, ← length-drop from xs) (ap ok (take_all (drop from xs)))
]

-- What executing queries at indices does.
abbrev RunsQueries : List ZmqQuery → List ℕ → Inserts → List ZmqQuery × Inserts → Type 0
RunsQueries qs ks s r = Executes (query_statements qs ks) s r.1

-- One batch: what the section of table buffers reads is as it was.
record RunsBatch (b : QueryBatch) (s : Inserts) (r : QueryBatch × Inserts) : Type 0 where
  executes :
      Executes (query_statements b.queries (drop s.checkpoint_j b.generic_query_indices)) s r.1
  buffer : r.0.buffer ≡ b.buffer
  batch_err : r.0.batch_err ≡ b.batch_err

-- The batches of a queue.
pub record RunsBatches (bs : List QueryBatch) (s : Inserts) (r : List QueryBatch × Inserts)
    : Type 0 where
  pub executes : Executes (generic_statements s.checkpoint_j bs) s r.1
  pub writes : write_statements r.0 ≡ write_statements bs
  pub size : length r.0 ≡ length bs

-- The generic queries of a batch are queries of it.
abbrev pub IsIndexed : QueryBatch → Type 0
IsIndexed b = All (λ k. k < length b.queries) b.generic_query_indices

All-drop : (P : ℕ → Type 0) (n : ℕ) (ks : List ℕ) → All P ks → All P (drop n ks)
All-drop P zero ks h = h
All-drop P (suc n) [] h = tt
All-drop P (suc n) (k ∷ ks) h = All-drop P n ks h.1

next_batches :
    (b b' : QueryBatch) (bs bs' : List QueryBatch) (s t u : Inserts)
    → RunsBatch b s (b', t)
    → RunsBatches bs t (bs', u)
    → RunsBatches (b ∷ bs) s (b' ∷ bs', u)
unfolding generic_statements write_statements
next_batches b b' bs bs' s t u one rest =
    let start = ap (λ c. generic_statements c bs) one.executes.checkpoint_j in
    record {
      executes = Executes-trans one.executes (rw start at rest.executes);
      writes = rw (table_statements-same b b' tables one.buffer one.batch_err, rest.writes) refl;
      size = ap suc rest.size;
    }

module _ (srv : Server) (h : IsHealthy srv) where
  exec_query-Executed :
      (i j : ℕ) (q : ZmqQuery) (s : Inserts)
      → s.session.is_open ≡ true
      → Executed q s (exec_query srv i j q s)
  unfolding exec_query query_reply
  exec_query-Executed i j q s alive =
      query_case q (h.rows (user_query (msg q))) s _
        (ap (query_reply i j q s) (h.answers s.session (user_query (msg q)) alive)) (is_empty q.err)
        refl

  exec_queries-Runs :
      (i j n : ℕ) (ks : List ℕ) (qs : List ZmqQuery) (s : Inserts)
      → s.session.is_open ≡ true
      → length qs ≡ n
      → All (λ k. k < n) ks
      → Runs (RunsQueries qs ks s) (exec_queries srv i j ks qs s)
  unfolding exec_queries query_statements
  exec_queries-Runs i j n [] qs s alive size range = Executes-nothing s
  exec_queries-Runs i j n (k ∷ ks) qs s alive size range =
      let (q, e) = found qs k (omega (arith, range.0)) in
      let r = exec_query srv i j q s in
      let one = exec_query-Executed i j q s alive in
      let same = results-same qs k ks q r.0 e one.same in
      let first : Executes (query_statement (get_elem? qs k)) s r.1 = rw e one.executes in
      rw e (
        Runs-map (RunsQueries (set qs k r.0) ks r.1) (RunsQueries qs (k ∷ ks) s)
          (exec_queries srv i (suc j) ks (set qs k r.0) r.1)
          (exec_queries-Runs i (suc j) n ks (set qs k r.0) r.1 (one.executes.is_open ∙ alive)
            (length-set qs k r.0 ∙ size) range.1)
          (λ t rest. Executes-trans first (rw same at rest)))

  exec_batch-Runs :
      (job : DatabaseJobStruct) (i : ℕ) (b : QueryBatch) (s : Inserts)
      → s.session.is_open ≡ true
      → step_eq job.endpoint generics ≡ false
      → IsIndexed b
      → Runs (RunsBatch b s) (exec_batch srv job i b s)
  unfolding exec_batch
  exec_batch-Runs job i b s alive whole range =
      let ks = drop s.checkpoint_j b.generic_query_indices in
      rw (whole, span_rest s.checkpoint_j b.generic_query_indices)
        (Runs->>= (RunsQueries b.queries ks s) (RunsBatch b s)
          (exec_queries srv i s.checkpoint_j ks b.queries s) _
          (exec_queries-Runs i s.checkpoint_j (length b.queries) ks b.queries s alive refl
            (All-drop _ s.checkpoint_j b.generic_query_indices range))
          (λ r e. record { executes = e; buffer = refl; batch_err = refl }))

  pub exec_batches-Runs :
      (job : DatabaseJobStruct) (i : ℕ) (bs : List QueryBatch) (s : Inserts)
      → s.session.is_open ≡ true
      → step_eq job.endpoint generics ≡ false
      → All IsIndexed bs
      → Runs (RunsBatches bs s) (exec_batches srv job i bs s)
  unfolding exec_batches generic_statements
  exec_batches-Runs job i [] s alive whole range = record {
    executes = Executes-nothing s;
    writes = refl;
    size = refl;
  }
  exec_batches-Runs job i (b ∷ bs) s alive whole range =
      Runs->>= (RunsBatch b s) (RunsBatches (b ∷ bs) s) (exec_batch srv job i b s) _
        (exec_batch-Runs job i b s alive whole range.0)
        (λ r one.
          Runs->>= (RunsBatches bs r.1) (RunsBatches (b ∷ bs) s)
            (exec_batches srv job (suc i) bs r.1) _
            (exec_batches-Runs job (suc i) bs r.1 (one.executes.is_open ∙ alive) whole range.1)
            (λ rest later. next_batches b r.0 bs rest.0 s r.1 rest.1 one later))
