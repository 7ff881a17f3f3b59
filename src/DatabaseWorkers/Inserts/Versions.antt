-- ===== src/DatabaseWorkers/Inserts/Versions.antt =====
-- The version numbers that the insertions leave in a write batch suffice for the replies that
-- UserTools/ResultWorkers/ResultWorkers.cpp makes from it.
use services_backend.Common.{
  ℕ, ◌≤◌, ◌≡◌, ◌≢◌, ◌∙◌, if◌then◌else◌, true, false, Option, List, [], ◌∷◌, ◌++◌, length,
  length-append, is_empty, arith, Bool-cases, inl, inr, ok,
}
use services_backend.QueryTopic.{
  Table, alarms, devconfigs, base_configs, runmode_configs, calibrations, rootplots, plotlyplots,
  update, table_eq, table_eq→eq,
}
use services_backend.Zstd.{Zstd}
use services_backend.ZmqQuery.{ZmqQuery}
use services_backend.QueryBatch.{QueryBatch}
use services_backend.Jobs.{ResultJobStruct}
use services_backend.DatabaseWorkers.Server.{Server, insert}
use services_backend.DatabaseWorkers.Inserts.{Inserts}
use services_backend.DatabaseWorkers.Inserts.Writes.{
  tables, pushed, table_reply, is_due, insert_table, insert_tables,
}
use services_backend.DatabaseWorkers.Inserts.Numbers.{insert_tables-version_nums}
use services_backend.DatabaseWorkers.Inserts.Parts.{insert_tables-queries}
use services_backend.DatabaseWorkers.Inserts.Clean.{IsHealthy}
use services_backend.DatabaseWorkers.Inserts.Clean.Tables.{insert_table-Inserted}
use services_backend.ResultWorkers.{ResultState, is_read_batch, result_job_func}
use services_backend.ResultWorkers.Answers.{Asked, count}
use services_backend.ResultWorkers.WriteBatch.{Answered, result_job_func-Answered}

-- A table has no numbers, or as many as it needs.
abbrev IsStocked : (Table → ℕ) → (Table → List ℕ) → Type 0
IsStocked need nums = (t : Table) → is_empty (nums t) ≡ false → need t ≤ length (nums t)

update-IsStocked :
    (need : Table → ℕ) (nums : Table → List ℕ) (t : Table) (versions : List ℕ)
    → need t ≤ length versions
    → IsStocked need nums
    → IsStocked need (update nums t (nums t ++ versions))
update-IsStocked need nums t versions enough h u some_left = elim (Bool-cases (table_eq t u)) [
  | inl e ↦
      let same : t ≡ u = table_eq→eq t u e in
      let wanted : need u ≤ length versions = rw same at enough in
      rw e (omega (arith, length-append (nums t) versions))
  | inr e ↦ rw e (h u (rw e at some_left))
]

pushed-IsStocked :
    (need : Table → ℕ) (nums : Table → List ℕ) (t : Table) (versions : List ℕ)
    → need t ≤ length versions
    → IsStocked need nums
    → IsStocked need (pushed t versions nums)
pushed-IsStocked need nums alarms versions enough h = h
pushed-IsStocked need nums devconfigs versions enough h =
    update-IsStocked need nums _ versions enough h
pushed-IsStocked need nums base_configs versions enough h =
    update-IsStocked need nums _ versions enough h
pushed-IsStocked need nums runmode_configs versions enough h =
    update-IsStocked need nums _ versions enough h
pushed-IsStocked need nums calibrations versions enough h =
    update-IsStocked need nums _ versions enough h
pushed-IsStocked need nums rootplots versions enough h =
    update-IsStocked need nums _ versions enough h
pushed-IsStocked need nums plotlyplots versions enough h =
    update-IsStocked need nums _ versions enough h

module _ (srv : Server) (h : IsHealthy srv) (need : Table → ℕ) where
  -- The database gives a number for each row that is needed.
  abbrev pub Supplies : QueryBatch → Type 0
  Supplies b = (t : Table) → need t ≤ length (h.versions (insert t (b.buffer t)))

  insert_table-IsStocked :
      (i : ℕ) (t : Table) (b : QueryBatch) (s : Inserts)
      → s.session.is_open ≡ true
      → Supplies b
      → IsStocked need b.version_nums
      → IsStocked need (insert_table srv i t b s).0.version_nums
  unfolding insert_table table_reply
  insert_table-IsStocked i t b s alive supplies stocked =
      let answer = h.answers s.session (insert t (b.buffer t)) alive in
      elim (Bool-cases (is_due t b)) [
        | inl due ↦
            rw (due, insert_table)
              (rw (answer, table_reply)
                (pushed-IsStocked need b.version_nums t _ (supplies t) stocked))
        | inr skipped ↦ rw (skipped, insert_table) stocked
      ]

  insert_tables-IsStocked :
      (i : ℕ) (ts : List Table) (b : QueryBatch) (s : Inserts)
      → s.session.is_open ≡ true
      → Supplies b
      → IsStocked need b.version_nums
      → IsStocked need (insert_tables srv i ts b s).0.version_nums
  unfolding insert_tables
  insert_tables-IsStocked i [] b s alive supplies stocked = stocked
  insert_tables-IsStocked i (t ∷ ts) b s alive supplies stocked =
      let r = insert_table srv i t b s in
      let one = insert_table-Inserted srv h i t b s alive in
      insert_tables-IsStocked i ts r.0 r.1 (one.executes.is_open ∙ alive)
        (λ u. rw (one.buffer) (supplies u)) (insert_table-IsStocked i t b s alive supplies stocked)

-- From the insertion of a write batch to the replies. Let the database execute everything, and give
-- for the buffer of each table a number for each query of the table. Then the insertions give a batch
-- that had no version numbers, for each table but the alarms, the numbers of the database for its
-- buffer if that is inserted, and none otherwise; and a result job over the batch does not fault: it
-- queues one batch of replies, each to the sender of its query, and the queries of each table get
-- these numbers, one each and in order, or the error of the batch if there are none. The batch is one
-- of write queries, whose tables `os` tells, and the transaction is open.
pub insert_tables-Answered :
    (srv : Server) (h : IsHealthy srv) (z : Zstd) (os : List (Option Table)) (i : ℕ)
    (b : QueryBatch) (s : Inserts) (st : ResultState) (args : ResultJobStruct)
    → s.session.is_open ≡ true
    → ((t : Table) → b.version_nums t ≡ [])
    → ((t : Table) → count t os ≤ length (h.versions (insert t (b.buffer t))))
    → is_read_batch b.queries ≡ ok false
    → Asked b.queries os
    → let job = record args { batch = (insert_tables srv i tables b s).0 } in
      ((t : Table)
        → t ≢ alarms
        → job.batch.version_nums t
          ≡ (if is_due t b then h.versions (insert t (b.buffer t)) else []))
      × ((st' : ResultState) × (rs : List ZmqQuery) × (result_job_func z st job ≡ ok (st', true))
          × Answered z st st' job.batch os rs)
insert_tables-Answered srv h z os i b s st args alive none_yet supplies write asked =
    let r = insert_tables srv i tables b s in
    let need : Table → ℕ = λ t. count t os in
    let bare : IsStocked need b.version_nums =
      λ t some_left. let clash : true ≡ false = rw (none_yet t) at some_left in cc in
    let stocked = insert_tables-IsStocked srv h need i tables b s alive supplies bare in
    let same = insert_tables-queries srv i tables b s in
    (
      (λ t ne. insert_tables-version_nums srv h b i s t alive none_yet ne),
      result_job_func-Answered z st (record args { batch = r.0 }) os (rw same write) (rw same asked)
          (λ t some_left. omega (arith, stocked t some_left)),
    )
