-- ===== src/DatabaseWorkers/Reads/Batches.antt =====
-- UserTools/DatabaseWorkers/DatabaseWorkers.cpp: the loop of `DatabaseJob` over the batches of read
-- queries, and the inner loop that submits a batch again from behind a query that failed.
use services_backend.Common.{
  ℕ, zero, suc, ◌≡◌, refl, Option, none, some, List, [], ◌∷◌, Bytes, get_elem?, set, Outcome, ok,
  ◌>>=◌, arith,
}
use services_backend.ZmqQuery.{ZmqQuery}
use services_backend.QueryBatch.{QueryBatch}
use services_backend.DatabaseWorkers.Reads.{Pipeline, ReadLoop, read_round}

-- The rounds over one batch, at most `n` of them; `px k` is the pipeline of the `k`-th. `none` is a
-- loop that is not over by then.
unfoldable pub read_rounds : (ℕ → Pipeline) → ℕ → ℕ → ℕ → ReadLoop → Outcome (Option ReadLoop)
read_rounds px zero k last_i s = ok none
read_rounds px (suc n) k last_i s = read_round (px k) last_i s >>= λ r. elim r.1 [
  | none ↦ ok (some r.0)
  | some next_i ↦ read_rounds px n (suc k) next_i r.0
]

-- The batches one after the other, with the two counters.
pub record ReadCounts : Type 0 where
  pub submissions : ℕ
  pub submissions_failed : ℕ

abbrev pub read_loop : QueryBatch → ReadCounts → ReadLoop
read_loop b c = record {
  queries = b.queries;
  readquery_submissions = c.submissions;
  readquery_submissions_failed = c.submissions_failed;
}

abbrev pub counts_of : ReadLoop → ReadCounts
counts_of s = record {
  submissions = s.readquery_submissions;
  submissions_failed = s.readquery_submissions_failed;
}

abbrev pub with_batch :
    QueryBatch → Option (List QueryBatch × ReadCounts) → Option (List QueryBatch × ReadCounts)
with_batch b none = none
with_batch b (some (bs, c)) = some (b ∷ bs, c)

unfoldable pub read_batches :
    (ℕ → ℕ → Pipeline)
    → ℕ
    → ℕ
    → List QueryBatch
    → ReadCounts
    → Outcome (Option (List QueryBatch × ReadCounts))
read_batches px n k [] c = ok (some ([], c))
read_batches px n k (b ∷ bs) c = read_rounds (px k) n 0 0 (read_loop b c) >>= λ o. elim o [
  | none ↦ ok none
  | some s ↦ read_batches px n (suc k) bs (counts_of s) >>= λ rest.
      ok (with_batch (record b { queries = s.queries }) rest)
]

-- The parts of the queries of a batch, which tell a query from the others.
unfoldable pub parts_of : List ZmqQuery → List (List Bytes)
parts_of [] = []
parts_of (q ∷ qs) = q.parts ∷ parts_of qs

pub parts_of-set :
    (qs : List ZmqQuery) (k : ℕ) (q v : ZmqQuery)
    → get_elem? qs k ≡ some q
    → v.parts ≡ q.parts
    → parts_of (set qs k v) ≡ parts_of qs
unfolding parts_of
parts_of-set [] k q v e f = refl
parts_of-set (x ∷ qs) zero q v e f = ground arith
parts_of-set (x ∷ qs) (suc k) q v e f = ground (arith, parts_of-set qs k q v e f)
