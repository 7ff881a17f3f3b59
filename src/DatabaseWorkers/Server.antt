-- ===== src/DatabaseWorkers/Server.antt =====
-- What UserTools/DatabaseWorkers/DatabaseWorkers.cpp uses of libpqxx: a transaction that statements
-- are executed in, and its commit. The answers are the database's, so they are an argument.
use services_backend.Common.{ℕ, ◌+◌, Bool, true, false, List, [], ◌∷◌, ◌++◌, Bytes, codes}
use services_backend.QueryTopic.{Table, rootplots, plotlyplots}
use services_backend.Jobs.{Feed, logs, monitors, rootplot_feed, plotlyplot_feed}
use services_backend.ZmqQuery.{Row}

-- A user's query as it is, or a prepared insertion of the rows in a JSON array.
pub data Statement : Type 0 where
  user_query : Bytes → Statement
  logging_insert : Bytes → Statement
  monitoring_insert : Bytes → Statement
  insert : Table → Bytes → Statement

-- The prepared insertion for a multicast buffer.
unfoldable pub feed_statement : Feed → Bytes → Statement
feed_statement logs text = logging_insert text
feed_statement monitors text = monitoring_insert text
feed_statement rootplot_feed text = insert rootplots text
feed_statement plotlyplot_feed text = insert plotlyplots text

-- What an execution gives: the rows and the version numbers in them, or an exception by its name and
-- `what()`, with the version numbers that were passed on before it.
pub data Reply : Type 0 where
  done : List Row → List ℕ → Reply
  raised : List ℕ → Bytes → Bytes → Reply

-- What `commit` does: it returns, throws `pqxx::in_doubt_error`, or throws another exception.
pub data Commit : Type 0 where
  committed in_doubt commit_failed : Commit

-- A connection: what the transaction holds, what is in the database, whether the transaction object
-- still takes statements, and how many it was given so far.
pub record Session : Type 0 where
  pub tx : List Statement
  pub stored : List Statement
  pub is_open : Bool
  pub asked : ℕ

pub record Server : Type 0 where
  pub answer : Session → Statement → Reply
  pub commit : Session → Commit

-- `current_exception_name()+": "+e.what()`
unfoldable pub error_text : Bytes → Bytes → Bytes
error_text name what = name ++ (codes ": " ++ what)

-- A statement that succeeds is part of the transaction.
unfoldable pub executed : Statement → Session → Session
executed q s = record s { tx = s.tx ++ q ∷ []; asked = s.asked + 1 }

-- `delete tx; tx = new pqxx::work(...)` after a failure: what the old transaction held is gone.
unfoldable pub renewed : Session → Session
renewed s = record s { tx = []; is_open = true; asked = s.asked + 1 }

-- The transaction after its commit. The code makes no new one.
unfoldable pub after_commit : Commit → Session → Session
after_commit committed s = record s { tx = []; stored = s.stored ++ s.tx; is_open = false }
after_commit e s = record s { tx = []; is_open = false }
