-- ===== src/DatabaseWorkers/Inserts/Numbers.antt =====
-- The version numbers that a write batch has after its insertions: for each table but the alarms,
-- those that the database gave for the table's buffer.
use services_backend.Common.{
  ℕ, ◌≡◌, ◌≢◌, arith, refl, ap, ◌∙◌, true, List, [], ◌∷◌, ◌++◌, if◌then◌else◌, Bool-cases, inl, inr,
}
use services_backend.QueryTopic.{
  Table, alarms, devconfigs, base_configs, runmode_configs, calibrations, rootplots, plotlyplots,
  update, table_eq, table_eq→eq,
}
use services_backend.QueryBatch.{QueryBatch, got}
use services_backend.DatabaseWorkers.Server.{Server, insert}
use services_backend.DatabaseWorkers.Inserts.{Inserts}
use services_backend.DatabaseWorkers.Inserts.Writes.{
  tables, pushed, table_reply, is_due, insert_table, insert_tables,
}
use services_backend.DatabaseWorkers.Inserts.Clean.{IsHealthy}
use services_backend.DatabaseWorkers.Inserts.Clean.Tables.{insert_table-Inserted}

update-same :
    (nums : Table → List ℕ) (t u : Table) (versions : List ℕ)
    → update nums t (nums t ++ versions) u ≡ (if table_eq t u then nums u ++ versions else nums u)
update-same nums t u versions = elim (Bool-cases (table_eq t u)) [
  | inl e ↦ rw e (ap (λ x. nums x ++ versions) (table_eq→eq t u e))
  | inr e ↦ rw e refl
]

-- The numbers of table `u`, when those of `t` were `versions`.
abbrev with_versions : Table → Table → List ℕ → List ℕ → List ℕ
with_versions alarms u versions nums = nums
with_versions t u versions nums = if table_eq t u then nums ++ versions else nums

pushed-with_versions :
    (t u : Table) (versions : List ℕ) (nums : Table → List ℕ)
    → pushed t versions nums u ≡ with_versions t u versions (nums u)
pushed-with_versions alarms u versions nums = refl
pushed-with_versions devconfigs u versions nums = update-same nums devconfigs u versions
pushed-with_versions base_configs u versions nums = update-same nums base_configs u versions
pushed-with_versions runmode_configs u versions nums = update-same nums runmode_configs u versions
pushed-with_versions calibrations u versions nums = update-same nums calibrations u versions
pushed-with_versions rootplots u versions nums = update-same nums rootplots u versions
pushed-with_versions plotlyplots u versions nums = update-same nums plotlyplots u versions

module _ (srv : Server) (h : IsHealthy srv) (b : QueryBatch) where
  -- The numbers of table `u` after the insertions of `ts`, from `nums` on.
  numbers : List Table → Table → List ℕ → List ℕ
  numbers [] u nums = nums
  numbers (t ∷ ts) u nums =
      numbers ts u
        (if is_due t b then with_versions t u (h.versions (insert t (b.buffer t))) nums else nums)

  insert_table-numbers :
      (i : ℕ) (t u : Table) (c : QueryBatch) (s : Inserts)
      → s.session.is_open ≡ true
      → c.buffer ≡ b.buffer
      → c.batch_err ≡ b.batch_err
      → (insert_table srv i t c s).0.version_nums u ≡ (
          if is_due t b
          then with_versions t u (h.versions (insert t (b.buffer t))) (c.version_nums u)
          else c.version_nums u)
  unfolding insert_table table_reply is_due got
  insert_table-numbers i t u c s alive e f =
      let answer = h.answers s.session (insert t (c.buffer t)) alive in
      elim (Bool-cases (is_due t c)) [
        | inl due ↦
            let same : is_due t b ≡ true = rw (← e, ← f) due in
            rw (due, same, answer, ← e) (pushed-with_versions t u _ c.version_nums)
        | inr skipped ↦ rw (skipped, ← e, ← f) (rw skipped refl)
      ]

  insert_tables-numbers :
      (i : ℕ) (ts : List Table) (u : Table) (c : QueryBatch) (s : Inserts)
      → s.session.is_open ≡ true
      → c.buffer ≡ b.buffer
      → c.batch_err ≡ b.batch_err
      → (insert_tables srv i ts c s).0.version_nums u ≡ numbers ts u (c.version_nums u)
  unfolding insert_tables numbers
  insert_tables-numbers i [] u c s alive e f = refl
  insert_tables-numbers i (t ∷ ts) u c s alive e f =
      let r = insert_table srv i t c s in
      let one = insert_table-Inserted srv h i t c s alive in
      insert_tables-numbers i ts u r.0 r.1 (one.executes.is_open ∙ alive) (one.buffer ∙ e)
        (one.batch_err ∙ f)
      ∙ ap (numbers ts u) (insert_table-numbers i t u c s alive e f)

  from_none :
      (t : Table)
      → t ≢ alarms
      → numbers tables t [] ≡ (if is_due t b then h.versions (insert t (b.buffer t)) else [])
  unfolding numbers
  from_none alarms ne = absurd (ne refl)
  from_none devconfigs ne = ground arith
  from_none base_configs ne = ground arith
  from_none runmode_configs ne = ground arith
  from_none calibrations ne = ground arith
  from_none rootplots ne = ground arith
  from_none plotlyplots ne = ground arith

  -- The numbers of a table with a buffer that is inserted are those that the database gave for it, and
  -- any other has none.
  pub insert_tables-version_nums :
      (i : ℕ) (s : Inserts) (t : Table)
      → s.session.is_open ≡ true
      → ((u : Table) → b.version_nums u ≡ [])
      → t ≢ alarms
      → (insert_tables srv i tables b s).0.version_nums t
        ≡ (if is_due t b then h.versions (insert t (b.buffer t)) else [])
  insert_tables-version_nums i s t alive bare ne =
      insert_tables-numbers i tables t b s alive refl refl ∙ (rw (bare t) (from_none t ne))
