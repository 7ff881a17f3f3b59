-- ===== src/DatabaseWorkers/Inserts/Clean.antt =====
-- Insertions that the database takes: which statements each section executes, in order.
pub mod Queries
pub mod Feeds
pub mod Tables
pub mod Job
pub mod Rounds
use services_backend.Common.{
  ℕ, suc, ◌+◌, ◌≡◌, refl, sym, ◌∙◌, Bool, true, false, not, Option, none, some, List, [], ◌∷◌, ◌++◌,
  append_assoc, append-nil, Bytes, get_elem?, drop, is_empty, if◌then◌else◌,
}
use services_backend.QueryTopic.{Table}
use services_backend.ZmqQuery.{ZmqQuery, Row, msg}
use services_backend.QueryBatch.{QueryBatch}
use services_backend.Jobs.{Feed}
use services_backend.DatabaseWorkers.Server.{
  Statement, user_query, insert, feed_statement, done, committed, Session, Server,
}
use services_backend.DatabaseWorkers.Inserts.{Inserts}
use services_backend.DatabaseWorkers.Inserts.Feeds.{count}
use services_backend.DatabaseWorkers.Inserts.Writes.{tables, is_due}

-- A database that executes and commits whatever an open transaction is given.
pub record IsHealthy (srv : Server) : Type 0 where
  pub rows : Statement → List Row
  pub versions : Statement → List ℕ
  pub answers :
      (s : Session) (q : Statement) → s.is_open ≡ true → srv.answer s q ≡ done (rows q) (versions q)
  pub commits : (s : Session) → s.is_open ≡ true → srv.commit s ≡ committed

abbrev pub when : Bool → Statement → List Statement
when true q = q ∷ []
when false q = []

abbrev pub query_statement : Option ZmqQuery → List Statement
query_statement none = []
query_statement (some q) = when (is_empty q.err) (user_query (msg q))

-- The queries at these indices that have no error yet.
unfoldable pub query_statements : List ZmqQuery → List ℕ → List Statement
query_statements qs [] = []
query_statements qs (k ∷ ks) = query_statement (get_elem? qs k) ++ query_statements qs ks

-- The generic queries of the batches, from the `j`-th of each on.
unfoldable pub generic_statements : ℕ → List QueryBatch → List Statement
generic_statements j [] = []
generic_statements j (b ∷ bs) =
    query_statements b.queries (drop j b.generic_query_indices) ++ generic_statements j bs

-- The buffers that are not in the set of bad ones.
unfoldable pub feed_statements : Feed → List ℕ → ℕ → List Bytes → List Statement
feed_statements f bad i [] = []
feed_statements f bad i (text ∷ texts) =
    when (not (count bad i)) (feed_statement f text) ++ feed_statements f bad (suc i) texts

unfoldable pub table_statements : QueryBatch → List Table → List Statement
table_statements b [] = []
table_statements b (t ∷ ts) = when (is_due t b) (insert t (b.buffer t)) ++ table_statements b ts

unfoldable pub write_statements : List QueryBatch → List Statement
write_statements [] = []
write_statements (b ∷ bs) = table_statements b tables ++ write_statements bs

-- These statements were executed without an error, and nothing else.
pub record Executes (added : List Statement) (s s' : Inserts) : Type 0 where
  pub tx : s'.session.tx ≡ s.session.tx ++ added
  pub stored : s'.session.stored ≡ s.session.stored
  pub is_open : s'.session.is_open ≡ s.session.is_open
  pub had_error : s'.had_error ≡ s.had_error
  pub checkpoint_j : s'.checkpoint_j ≡ s.checkpoint_j

pub Executes-nothing : (s : Inserts) → Executes [] s s
Executes-nothing s = record {
  tx = sym (append-nil s.session.tx);
  stored = refl;
  is_open = refl;
  had_error = refl;
  checkpoint_j = refl;
}

pub Executes-trans :
    {xs ys : List Statement} {r s t : Inserts}
    → Executes xs r s
    → Executes ys s t
    → Executes (xs ++ ys) r t
Executes-trans {xs = xs} {ys = ys} {r = r} h k = record {
  tx = k.tx ∙ (rw (h.tx) (append_assoc r.session.tx xs ys));
  stored = k.stored ∙ h.stored;
  is_open = k.is_open ∙ h.is_open;
  had_error = k.had_error ∙ h.had_error;
  checkpoint_j = k.checkpoint_j ∙ h.checkpoint_j;
}
