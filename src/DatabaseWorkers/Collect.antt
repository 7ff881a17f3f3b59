-- ===== src/DatabaseWorkers/Collect.antt =====
-- The distributor loses nothing that waits for the database, and keeps to the limit on workers
-- for log and monitoring messages.
use services_backend.Common.{
  ℕ, suc, ◌+◌, ◌≤◌, ◌<◌, ◌≡◌, refl, sym, ap, ◌∙◌, Bool, true, false, List, codes, [], ◌∷◌, ◌++◌,
  append_assoc, append-nil, is_empty, is_empty-nil, ltb, if◌then◌else◌, arith, Bool-cases, inl, inr,
}
use services_backend.DataModel.{DataModel}
use services_backend.DatabaseWorkers.{
  DatabaseJobStruct, DatabaseDistributor, DatabasePools, clear_job, job_to_fill, grab, grabbed,
  has_log_mon, has_work, submit, database_thread,
}

-- What `pick` reads of the jobs of a queue, in order.
unfoldable pub all_of :
    {A : Type 0} → (DatabaseJobStruct → List A) → List DatabaseJobStruct → List A
all_of pick [] = []
all_of pick (j ∷ js) = pick j ++ all_of pick js

all_of-snoc :
    {A : Type 0} (pick : DatabaseJobStruct → List A) (js : List DatabaseJobStruct)
    (j : DatabaseJobStruct)
    → all_of pick (js ++ j ∷ []) ≡ all_of pick js ++ pick j
unfolding all_of
all_of-snoc pick [] j = append-nil (pick j)
all_of-snoc pick (k ∷ js) j =
    rw (all_of-snoc pick js j) (sym (append_assoc (pick k) (all_of pick js) (pick j)))

-- The jobs that hold log or monitoring messages.
unfoldable pub log_mon_jobs : List DatabaseJobStruct → ℕ
log_mon_jobs [] = 0
log_mon_jobs (j ∷ js) = if has_log_mon j then suc (log_mon_jobs js) else log_mon_jobs js

log_mon_jobs-snoc :
    (js : List DatabaseJobStruct) (j : DatabaseJobStruct)
    → log_mon_jobs (js ++ j ∷ []) ≡ log_mon_jobs js + (if has_log_mon j then 1 else 0)
unfolding log_mon_jobs
log_mon_jobs-snoc [] j = ground arith
log_mon_jobs-snoc (k ∷ js) j = ground (arith, log_mon_jobs-snoc js j)

-- The queues of a job without work.
idle-queues :
    (j : DatabaseJobStruct)
    → has_work j ≡ false
    → (is_empty j.logging_queue ≡ true)
      × (is_empty j.monitoring_queue ≡ true)
      × (is_empty j.rootplot_queue ≡ true)
      × (is_empty j.plotlyplot_queue ≡ true)
      × (is_empty j.write_queue ≡ true)
      × (is_empty j.read_queue ≡ true)
unfolding has_work has_log_mon
idle-queues j h = ground arith

abbrev named : DatabaseJobStruct → DatabaseJobStruct
named j = record j { m_job_name = codes "database_worker" }

-- Whether a job is added or kept, what it holds of a queue and what is left there are in order.
submit-keeps :
    {A : Type 0} (pick : DatabaseJobStruct → List A) (j : DatabaseJobStruct)
    (s : DatabaseDistributor) (before after : List A)
    → pick (named j) ≡ pick j
    → (has_work j ≡ false → is_empty (pick j) ≡ true)
    → pick j ++ after ≡ before
    → all_of pick (submit j s).job_queue ++ after ≡ all_of pick s.job_queue ++ before
unfolding submit
submit-keeps pick j s before after same idle split = elim (Bool-cases (has_work j)) [
  | inl busy ↦
      rw (busy, all_of-snoc pick s.job_queue (named j), same, append_assoc)
        (ap (◌++◌ (all_of pick s.job_queue)) split)
  | inr none ↦
      let rest : after ≡ before = rw (is_empty-nil (pick j) (idle none)) at split in
      rw (none, rest) refl
]

-- One call of the distributor: for each of the six queues of the data model, what the added jobs
-- hold and what still waits make up what the jobs held and what waited, in order. The workers
-- counted rise with the jobs that hold log or monitoring messages, and stay within the limit.
pub record Collects (max : ℕ) (s s' : DatabaseDistributor) (d d' : DataModel) : Type 0 where
  pub logs :
      all_of (λ j. j.logging_queue) s'.job_queue ++ d'.log_query_queue
      ≡ all_of (λ j. j.logging_queue) s.job_queue ++ d.log_query_queue
  pub mons :
      all_of (λ j. j.monitoring_queue) s'.job_queue ++ d'.mon_query_queue
      ≡ all_of (λ j. j.monitoring_queue) s.job_queue ++ d.mon_query_queue
  pub rootplots :
      all_of (λ j. j.rootplot_queue) s'.job_queue ++ d'.rootplot_query_queue
      ≡ all_of (λ j. j.rootplot_queue) s.job_queue ++ d.rootplot_query_queue
  pub plotlyplots :
      all_of (λ j. j.plotlyplot_queue) s'.job_queue ++ d'.plotlyplot_query_queue
      ≡ all_of (λ j. j.plotlyplot_queue) s.job_queue ++ d.plotlyplot_query_queue
  pub writes :
      all_of (λ j. j.write_queue) s'.job_queue
      ≡ all_of (λ j. j.write_queue) s.job_queue ++ d.write_query_queue
  pub reads :
      all_of (λ j. j.read_queue) s'.job_queue
      ≡ all_of (λ j. j.read_queue) s.job_queue ++ d.read_query_queue
  pub counted :
      s'.n_log_mon_workers + log_mon_jobs s.job_queue
      ≡ s.n_log_mon_workers + log_mon_jobs s'.job_queue
  pub within : s.n_log_mon_workers ≤ max → s'.n_log_mon_workers ≤ max

submit-counted :
    (j : DatabaseJobStruct) (s : DatabaseDistributor)
    → (submit j s).n_log_mon_workers + log_mon_jobs s.job_queue
      ≡ s.n_log_mon_workers + log_mon_jobs (submit j s).job_queue
unfolding submit
submit-counted j s = elim (Bool-cases (has_work j)) [
  | inr none ↦ rw none refl
  | inl busy ↦
      rw (busy, log_mon_jobs-snoc s.job_queue (named j))
        (elim (Bool-cases (has_log_mon j)) [
          | inl some ↦ unfold has_log_mon in ground arith
          | inr none ↦ unfold has_log_mon in ground arith
        ])
]

submit-within :
    (max : ℕ) (j : DatabaseJobStruct) (s : DatabaseDistributor)
    → (has_log_mon j ≡ true → s.n_log_mon_workers < max)
    → s.n_log_mon_workers ≤ max
    → (submit j s).n_log_mon_workers ≤ max
unfolding submit
submit-within max j s limit h = ground arith

module _ (log_mon : Bool) (d : DataModel) (j : DatabaseJobStruct) where
  grab-logs :
      (grab log_mon d j).logging_queue ++ (grabbed log_mon d).log_query_queue ≡ d.log_query_queue
  unfolding grab grabbed
  grab-logs = ground (arith, append-nil d.log_query_queue)

  grab-mons :
      (grab log_mon d j).monitoring_queue ++ (grabbed log_mon d).mon_query_queue ≡ d.mon_query_queue
  unfolding grab grabbed
  grab-mons = ground (arith, append-nil d.mon_query_queue)

  grab-has_log_mon : has_log_mon (grab log_mon d j) ≡ true → log_mon ≡ true
  unfolding grab has_log_mon
  grab-has_log_mon h = ground arith

-- One call of the distributor thread neither loses nor repeats anything that waits for the
-- database: for each of the six queues, what the jobs added so far hold and what still waits is in
-- order what it was. All write and read batches are taken. The number of workers for log and
-- monitoring messages rises with the jobs that hold any, and never above its limit.
pub database_thread-Collects :
    (max : ℕ) (pools : DatabasePools) (s : DatabaseDistributor) (d : DataModel)
    → Collects max s (database_thread max pools s d).0 d (database_thread max pools s d).1
unfolding database_thread
database_thread-Collects max pools s d =
    let log_mon = ltb s.n_log_mon_workers max in
    let fresh = clear_job (job_to_fill pools s.the_job) in
    let j = grab log_mon d fresh in
    record {
      logs =
          submit-keeps (λ k. k.logging_queue) j s _ _ refl (λ none. (idle-queues j none).0)
            (grab-logs log_mon d fresh);
      mons =
          submit-keeps (λ k. k.monitoring_queue) j s _ _ refl (λ none. (idle-queues j none).1)
            (grab-mons log_mon d fresh);
      rootplots =
          submit-keeps (λ k. k.rootplot_queue) j s d.rootplot_query_queue _ refl
            (λ none. (idle-queues j none).2)
            (unfold grab grabbed in append-nil d.rootplot_query_queue);
      plotlyplots =
          submit-keeps (λ k. k.plotlyplot_queue) j s d.plotlyplot_query_queue _ refl
            (λ none. (idle-queues j none).3)
            (unfold grab grabbed in append-nil d.plotlyplot_query_queue);
      writes =
          sym (append-nil _)
          ∙ submit-keeps (λ k. k.write_queue) j s d.write_query_queue [] refl
              (λ none. (idle-queues j none).4) (unfold grab in append-nil d.write_query_queue);
      reads =
          sym (append-nil _)
          ∙ submit-keeps (λ k. k.read_queue) j s d.read_query_queue [] refl
              (λ none. (idle-queues j none).5) (unfold grab in append-nil d.read_query_queue);
      counted = submit-counted j s;
      within =
          submit-within max j s (λ some. ground (arith, grab-has_log_mon log_mon d fresh some));
    }
