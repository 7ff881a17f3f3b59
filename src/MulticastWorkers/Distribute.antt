-- ===== src/MulticastWorkers/Distribute.antt =====
-- The distributor thread adds one job for each waiting vector of messages, in order.
use services_backend.Common.{
  ℕ, ◌+◌, ◌≡◌, ◌≢◌, refl, ap, List, [], ◌∷◌, ◌++◌, Bytes, length, arith, ◌==◌, Bool-cases, inl, inr,
}
use services_backend.Jobs.{Feed, MulticastJobStruct, Job, multicast_job}
use services_backend.DataModel.{DataModel}
use services_backend.Distributor.{Pools, Store, assign}
use services_backend.Distributor.Order.{picks, IsUnshared, IsFresh, picks-add_jobs}
use services_backend.MulticastWorkers.{fill_job, multicast_thread}

-- The messages of a multicast job.
unfoldable pub multicast_msgs : Store MulticastJobStruct → Job → List (List Bytes)
multicast_msgs store (multicast_job p) = (store p).msg_buffer ∷ []
multicast_msgs store _ = []

multicast_msgs-filled :
    (get_text : ℕ → Feed → Bytes) (i : ℕ) (msgs : List Bytes) (store : Store MulticastJobStruct)
    (p : ℕ)
    → multicast_msgs (assign store p (fill_job get_text i msgs (store p))) (multicast_job p)
      ≡ msgs ∷ []
unfolding multicast_msgs fill_job
multicast_msgs-filled get_text i msgs store p = ground arith

multicast_msgs-other :
    (store : Store MulticastJobStruct) (p : ℕ) (v : MulticastJobStruct) (j : Job)
    → j ≢ multicast_job p
    → multicast_msgs (assign store p v) j ≡ multicast_msgs store j
unfolding multicast_msgs
multicast_msgs-other store p v (multicast_job q) ne = elim (Bool-cases (p == q)) [
  | inl same ↦ let here : q ≡ p = ground arith in absurd (ne (ap multicast_job here))
  | inr other ↦ rw other refl
]
multicast_msgs-other store p v j ne = refl

multicast_job-apart : (p q : ℕ) → p ≢ q → multicast_job p ≢ multicast_job q
multicast_job-apart p q ne e = let same : p ≡ q = cc in ne same

-- `Thread` empties the queue of received multicasts. If no two rounds get the same argument struct, and none
-- gets the struct of a job that is queued, then the job queue gains exactly one multicast job for each
-- vector of messages, in their order, each job with its own, and the jobs before them keep theirs.
pub multicast_thread_lem :
    (get_text : ℕ → Feed → Bytes) (pools : Pools) (store : Store MulticastJobStruct) (d : DataModel)
    → IsUnshared pools
    → IsFresh multicast_job pools 0 d.job_queue
    → let (store', d') = multicast_thread get_text pools store d in
      (d'.in_multicast_msg_queue ≡ [])
      × (picks (multicast_msgs store') d'.job_queue
          ≡ picks (multicast_msgs store) d.job_queue ++ d.in_multicast_msg_queue)
      × (length d'.job_queue ≡ length d.job_queue + length d.in_multicast_msg_queue)
unfolding multicast_thread
multicast_thread_lem get_text pools store d unshared fresh =
    let (same, long) =
      picks-add_jobs multicast_job pools (fill_job get_text) multicast_msgs
        (multicast_msgs-filled get_text) multicast_msgs-other multicast_job-apart unshared 0
        d.in_multicast_msg_queue store d.job_queue fresh in
    (refl, same, long)
