-- ===== src/ReadWorkers/Distribute.antt =====
-- The distributor thread adds one job for each waiting batch, in order.
use services_backend.Common.{
  ℕ, ◌+◌, ◌≡◌, ◌≢◌, refl, ap, List, [], ◌∷◌, ◌++◌, length, arith, ◌==◌, Bool-cases, inl, inr,
}
use services_backend.QueryBatch.{QueryBatch}
use services_backend.Jobs.{ReadJobStruct, Job, read_job}
use services_backend.DataModel.{DataModel}
use services_backend.Distributor.{Pools, Store, assign}
use services_backend.Distributor.Order.{picks, IsUnshared, IsFresh, picks-add_jobs}
use services_backend.ReadWorkers.{fill_job, read_thread}

-- The batch of a read job.
unfoldable pub read_batch : Store ReadJobStruct → Job → List QueryBatch
read_batch store (read_job p) = (store p).local_msg_queue ∷ []
read_batch store _ = []

read_batch-filled :
    (i : ℕ) (b : QueryBatch) (store : Store ReadJobStruct) (p : ℕ)
    → read_batch (assign store p (fill_job i b (store p))) (read_job p) ≡ b ∷ []
unfolding read_batch fill_job
read_batch-filled i b store p = ground arith

read_batch-other :
    (store : Store ReadJobStruct) (p : ℕ) (v : ReadJobStruct) (j : Job)
    → j ≢ read_job p
    → read_batch (assign store p v) j ≡ read_batch store j
unfolding read_batch
read_batch-other store p v (read_job q) ne = elim (Bool-cases (p == q)) [
  | inl same ↦ let here : q ≡ p = ground arith in absurd (ne (ap read_job here))
  | inr other ↦ rw other refl
]
read_batch-other store p v j ne = refl

read_job-apart : (p q : ℕ) → p ≢ q → read_job p ≢ read_job q
read_job-apart p q ne e = let same : p ≡ q = cc in ne same

-- `Thread` empties the queue of received read batches. If no two rounds get the same argument struct, and none
-- gets the struct of a job that is queued, then the job queue gains exactly one read job for each
-- batch, in their order, each job with its own, and the jobs before them keep theirs.
pub read_thread_lem :
    (pools : Pools) (store : Store ReadJobStruct) (d : DataModel)
    → IsUnshared pools
    → IsFresh read_job pools 0 d.job_queue
    → let (store', d') = read_thread pools store d in
      (d'.read_msg_queue ≡ [])
      × (picks (read_batch store') d'.job_queue
          ≡ picks (read_batch store) d.job_queue ++ d.read_msg_queue)
      × (length d'.job_queue ≡ length d.job_queue + length d.read_msg_queue)
unfolding read_thread
read_thread_lem pools store d unshared fresh =
    let (same, long) =
      picks-add_jobs read_job pools fill_job read_batch read_batch-filled read_batch-other
        read_job-apart unshared 0 d.read_msg_queue store d.job_queue fresh in
    (refl, same, long)
