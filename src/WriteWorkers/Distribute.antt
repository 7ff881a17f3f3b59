-- ===== src/WriteWorkers/Distribute.antt =====
-- The distributor thread adds one job for each waiting batch, in order.
use services_backend.Common.{
  ℕ, ◌+◌, ◌≡◌, ◌≢◌, ◌<◌, some, get_elem?, refl, ap, List, [], ◌∷◌, ◌++◌, length, arith, ◌==◌,
  Bool-cases, inl, inr,
}
use services_backend.QueryBatch.{QueryBatch}
use services_backend.Jobs.{WriteJobStruct, Job, write_job}
use services_backend.DataModel.{DataModel}
use services_backend.Distributor.{Pools, struct_of, Store, assign}
use services_backend.Distributor.Order.{picks, IsUnshared, IsFresh, picks-add_jobs}
use services_backend.Distributor.Shared.{add_jobs-shared}
use services_backend.WriteWorkers.{fill_job, write_thread}

-- The batch of a write job.
unfoldable pub write_batch : Store WriteJobStruct → Job → List QueryBatch
write_batch store (write_job p) = (store p).local_msg_queue ∷ []
write_batch store _ = []

write_batch-filled :
    (i : ℕ) (b : QueryBatch) (store : Store WriteJobStruct) (p : ℕ)
    → write_batch (assign store p (fill_job i b (store p))) (write_job p) ≡ b ∷ []
unfolding write_batch fill_job
write_batch-filled i b store p = ground arith

write_batch-other :
    (store : Store WriteJobStruct) (p : ℕ) (v : WriteJobStruct) (j : Job)
    → j ≢ write_job p
    → write_batch (assign store p v) j ≡ write_batch store j
unfolding write_batch
write_batch-other store p v (write_job q) ne = elim (Bool-cases (p == q)) [
  | inl same ↦ let here : q ≡ p = ground arith in absurd (ne (ap write_job here))
  | inr other ↦ rw other refl
]
write_batch-other store p v j ne = refl

write_job-apart : (p q : ℕ) → p ≢ q → write_job p ≢ write_job q
write_job-apart p q ne e = let same : p ≡ q = cc in ne same

-- `Thread` empties the queue of received write batches. If no two rounds get the same argument struct, and none
-- gets the struct of a job that is queued, then the job queue gains exactly one write job for each
-- batch, in their order, each job with its own, and the jobs before them keep theirs.
pub write_thread_lem :
    (pools : Pools) (store : Store WriteJobStruct) (d : DataModel)
    → IsUnshared pools
    → IsFresh write_job pools 0 d.job_queue
    → let (store', d') = write_thread pools store d in
      (d'.write_msg_queue ≡ [])
      × (picks (write_batch store') d'.job_queue
          ≡ picks (write_batch store) d.job_queue ++ d.write_msg_queue)
      × (length d'.job_queue ≡ length d.job_queue + length d.write_msg_queue)
unfolding write_thread
write_thread_lem pools store d unshared fresh =
    let (same, long) =
      picks-add_jobs write_job pools fill_job write_batch write_batch-filled write_batch-other
        write_job-apart unshared 0 d.write_msg_queue store d.job_queue fresh in
    (refl, same, long)

-- If a round `k` gets the argument struct that the last round gets, then the job that it queues points
-- to that struct, and carries the last batch in place of its own.
pub write_thread-shared :
    (pools : Pools) (store : Store WriteJobStruct) (d : DataModel) (bs : List QueryBatch)
    (b : QueryBatch) (k : ℕ)
    → d.write_msg_queue ≡ bs ++ b ∷ []
    → k < length bs
    → struct_of pools k ≡ struct_of pools (length bs)
    → let (store', d') = write_thread pools store d in
      (get_elem? d'.job_queue (length d.job_queue + k) ≡ some (write_job (struct_of pools k)))
      × (write_batch store' (write_job (struct_of pools k)) ≡ b ∷ [])
unfolding write_thread write_batch fill_job
write_thread-shared pools store d bs b k e h same =
    let (job, (v, filled)) =
      add_jobs-shared write_job pools fill_job k bs b store d.job_queue h same in
    rw e (job, ap (λ s. s.local_msg_queue ∷ []) filled)
