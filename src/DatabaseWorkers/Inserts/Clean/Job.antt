-- ===== src/DatabaseWorkers/Inserts/Clean/Job.antt =====
-- A job before a round that the database takes whole: its statements, and what of it a section leaves.
use services_backend.Common.{
  ℕ, ◌^◌, ◌<◌, ◌≡◌, refl, ap, ◌∙◌, false, List, [], ◌++◌, append-nil, length-nil, length-drop,
  length, drop, All, arith,
}
use services_backend.QueryBatch.{QueryBatch}
use services_backend.Jobs.{Feed, logs, monitors, rootplot_feed, plotlyplot_feed}
use services_backend.DatabaseWorkers.{DatabaseJobStep, finish, DatabaseJobStruct}
use services_backend.DatabaseWorkers.Server.{Statement}
use services_backend.DatabaseWorkers.Inserts.{Inserts, step_eq, last_i}
use services_backend.DatabaseWorkers.Inserts.Feeds.{feed_queue, bad_set, with_bad_set}
use services_backend.DatabaseWorkers.Inserts.Rounds.{Loop}
use services_backend.DatabaseWorkers.Inserts.Clean.{
  generic_statements, feed_statements, write_statements, Executes,
}
use services_backend.DatabaseWorkers.Inserts.Clean.Queries.{RunsBatches, IsIndexed}

-- A job as the distributor submits it, whose indices have 16 bits and are in range.
pub record IsFresh (j : DatabaseJobStruct) : Type 0 where
  pub endpoint : j.endpoint ≡ finish
  pub indexed : All IsIndexed j.write_queue
  pub few_writes : length j.write_queue < 2 ^ 16
  pub few_texts : (f : Feed) → length (feed_queue f j) < 2 ^ 16

-- What is still to be inserted, and has not changed since the round began.
pub record Ahead (j : DatabaseJobStruct) (k : DatabaseJobStruct) : Type 0 where
  pub endpoint : k.endpoint ≡ finish
  pub size : length k.write_queue ≡ length j.write_queue
  pub write_part : write_statements k.write_queue ≡ write_statements j.write_queue
  pub queues : (f : Feed) → feed_queue f k ≡ feed_queue f j
  pub bad : (f : Feed) → bad_set f k ≡ bad_set f j

-- The statements of a job, in the order of its sections.
unfoldable pub feed_part : Feed → DatabaseJobStruct → List Statement
feed_part f j = feed_statements f (bad_set f j) 0 (feed_queue f j)

unfoldable pub statements : ℕ → DatabaseJobStruct → List Statement
statements checkpoint_j j =
    generic_statements checkpoint_j j.write_queue
    ++ feed_part logs j
    ++ feed_part monitors j
    ++ feed_part rootplot_feed j
    ++ feed_part plotlyplot_feed j
    ++ write_statements j.write_queue

-- The sections so far executed `added`.
pub record Done (j : DatabaseJobStruct) (s : Inserts) (added : List Statement) (r : Loop)
    : Type 0 where
  pub ahead : Ahead j r.0
  pub executes : Executes added s r.1

pub whole_queue :
    (step : DatabaseJobStep) (size : ℕ) (k : DatabaseJobStruct)
    → k.endpoint ≡ finish
    → step_eq finish step ≡ false
    → size < 2 ^ 16
    → last_i step size k ≡ size
unfolding last_i
whole_queue step size k e other small = rw (e, other) (omega arith)

pub same_job : (f : Feed) (k : DatabaseJobStruct) → with_bad_set f (bad_set f k) k ≡ k
same_job logs k = refl
same_job monitors k = refl
same_job rootplot_feed k = refl
same_job plotlyplot_feed k = refl

pub part-same :
    (f : Feed) (j k : DatabaseJobStruct)
    → Ahead j k
    → feed_statements f (bad_set f k) 0 (feed_queue f k) ≡ feed_part f j
unfolding feed_part
part-same f j k a = rw (a.bad f, a.queues f) refl

queue_same :
    (f : Feed) (j : DatabaseJobStruct) (queue : List QueryBatch)
    → feed_queue f (record j { write_queue = queue }) ≡ feed_queue f j
queue_same logs j queue = refl
queue_same monitors j queue = refl
queue_same rootplot_feed j queue = refl
queue_same plotlyplot_feed j queue = refl

set_same :
    (f : Feed) (j : DatabaseJobStruct) (queue : List QueryBatch)
    → bad_set f (record j { write_queue = queue }) ≡ bad_set f j
set_same logs j queue = refl
set_same monitors j queue = refl
set_same rootplot_feed j queue = refl
set_same plotlyplot_feed j queue = refl

-- After the generic queries.
pub batches-Done :
    (j : DatabaseJobStruct) (s : Inserts) (r : List QueryBatch × Inserts)
    → j.endpoint ≡ finish
    → RunsBatches j.write_queue s r
    → Done j s
        (generic_statements s.checkpoint_j j.write_queue)
        (record j { write_queue = r.0 ++ drop (length j.write_queue) j.write_queue }, r.1)
batches-Done j s r e ran =
    let queue = j.write_queue in
    let none_left : drop (length queue) queue ≡ [] =
      length-nil (drop (length queue) queue) (omega (arith, length-drop (length queue) queue)) in
    let all : r.0 ++ drop (length queue) queue ≡ r.0 = ap (◌++◌ (r.0)) none_left ∙ append-nil r.0 in
    record {
      ahead = record {
        endpoint = e;
        size = ap length all ∙ ran.size;
        write_part = ap write_statements all ∙ ran.writes;
        queues = λ f. queue_same f j _;
        bad = λ f. set_same f j _;
      };
      executes = ran.executes;
    }
