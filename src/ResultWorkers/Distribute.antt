-- ===== src/ResultWorkers/Distribute.antt =====
-- The distributor thread adds one job for each waiting batch, in order.
use services_backend.Common.{
  ℕ, ◌+◌, ◌≡◌, ◌≢◌, refl, ap, List, [], ◌∷◌, ◌++◌, length, arith, ◌==◌, Bool-cases, inl, inr,
}
use services_backend.QueryBatch.{QueryBatch}
use services_backend.Jobs.{ResultJobStruct, Job, result_job}
use services_backend.DataModel.{DataModel}
use services_backend.Distributor.{Pools, Store, assign}
use services_backend.Distributor.Order.{picks, IsUnshared, IsFresh, picks-add_jobs}
use services_backend.ResultWorkers.{fill_job, result_thread}

-- The batch of a result job.
unfoldable pub result_batch : Store ResultJobStruct → Job → List QueryBatch
result_batch store (result_job p) = (store p).batch ∷ []
result_batch store _ = []

result_batch-filled :
    (i : ℕ) (b : QueryBatch) (store : Store ResultJobStruct) (p : ℕ)
    → result_batch (assign store p (fill_job i b (store p))) (result_job p) ≡ b ∷ []
unfolding result_batch fill_job
result_batch-filled i b store p = ground arith

result_batch-other :
    (store : Store ResultJobStruct) (p : ℕ) (v : ResultJobStruct) (j : Job)
    → j ≢ result_job p
    → result_batch (assign store p v) j ≡ result_batch store j
unfolding result_batch
result_batch-other store p v (result_job q) ne = elim (Bool-cases (p == q)) [
  | inl same ↦ let here : q ≡ p = ground arith in absurd (ne (ap result_job here))
  | inr other ↦ rw other refl
]
result_batch-other store p v j ne = refl

result_job-apart : (p q : ℕ) → p ≢ q → result_job p ≢ result_job q
result_job-apart p q ne e = let same : p ≡ q = cc in ne same

-- `Thread` empties the queue of results. If no two rounds get the same argument struct, and none
-- gets the struct of a job that is queued, then the job queue gains exactly one result job for each
-- batch, in their order, each job with its own, and the jobs before them keep theirs.
pub result_thread_lem :
    (pools : Pools) (store : Store ResultJobStruct) (d : DataModel)
    → IsUnshared pools
    → IsFresh result_job pools 0 d.job_queue
    → let (store', d') = result_thread pools store d in
      (d'.query_results ≡ [])
      × (picks (result_batch store') d'.job_queue
          ≡ picks (result_batch store) d.job_queue ++ d.query_results)
      × (length d'.job_queue ≡ length d.job_queue + length d.query_results)
unfolding result_thread
result_thread_lem pools store d unshared fresh =
    let (same, long) =
      picks-add_jobs result_job pools fill_job result_batch result_batch-filled result_batch-other
        result_job-apart unshared 0 d.query_results store d.job_queue fresh in
    (refl, same, long)
