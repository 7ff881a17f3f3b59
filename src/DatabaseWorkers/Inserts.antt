-- ===== src/DatabaseWorkers/Inserts.antt =====
-- UserTools/DatabaseWorkers/DatabaseWorkers.cpp: what the insertions of `DatabaseJob` change as they
-- go. A job loops over its sections until a round ends without an error.
pub mod Generics
pub mod Feeds
pub mod Writes
pub mod Rounds
pub mod Chances
pub mod Falls
pub mod Sections
pub mod Ending
pub mod Parts
pub mod Keeps
pub mod Clean
pub mod Lost
pub mod Numbers
pub mod Versions
use services_backend.Common.{
  ℕ, ◌+◌, ◌-◌, ◌%◌, ◌^◌, Bool, true, List, [], ◌++◌, Bytes, length, leb, take, drop, ◌==◌,
  if◌then◌else◌, Outcome, ok, fault, index_out_of_range,
}
use services_backend.QueryTopic.{Table}
use services_backend.DatabaseWorkers.{
  DatabaseJobStep, generics, logging, monitoring, rootplots, plotlyplots, writes, finish,
  DatabaseJobStruct,
}
use services_backend.DatabaseWorkers.Server.{Session, renewed}

-- The counters of DatabaseWorkerMonitoring.h for submissions, or for those that failed. The two for
-- plots count the multicast buffers and the write queries.
pub record Counts : Type 0 where
  pub generic : ℕ
  pub to_logging : ℕ
  pub to_monitoring : ℕ
  pub to_table : Table → ℕ

-- The members of the job that all sections write to, the transaction, the pool of multicast buffers
-- and the counters.
pub record Inserts : Type 0 where
  pub session : Session
  pub had_error : Bool
  pub checkpoint : DatabaseJobStep
  pub checkpoint_i : ℕ
  pub checkpoint_j : ℕ
  pub multicast_batch_pool : List Bytes
  pub submissions : Counts
  pub submissions_failed : Counts
  pub logging_bytes : ℕ
  pub monitoring_bytes : ℕ

-- Every handler of an error ends so: the place is noted, and a new transaction opened.
unfoldable pub fail_at : ℕ → Inserts → Inserts
fail_at i s = record s { checkpoint_i = i; had_error = true; session = renewed s.session }

abbrev step_index : DatabaseJobStep → ℕ
step_index generics = 0
step_index logging = 1
step_index monitoring = 2
step_index rootplots = 3
step_index plotlyplots = 4
step_index writes = 5
step_index finish = 6

abbrev pub step_eq : DatabaseJobStep → DatabaseJobStep → Bool
step_eq a b = step_index a == step_index b

-- `last_i`, a `uint16_t`: where a section ends.
unfoldable pub last_i : DatabaseJobStep → ℕ → DatabaseJobStruct → ℕ
last_i step size j = (if step_eq j.endpoint step then j.endpoint_i else size) % 2 ^ 16

-- The elements that a loop from `from` to `to` reads.
unfoldable pub span : {A : Type 0} → ℕ → ℕ → List A → Outcome (List A)
span from to xs =
    if leb to from
    then ok []
    else if leb to (length xs)
    then ok (take (to - from) (drop from xs))
    else fault index_out_of_range
