-- ===== src/Distributor/Order.antt =====
-- The jobs that a distributor adds carry the batches in their order, unless two jobs share a struct.
use services_backend.Common.{
  ℕ, ◌+◌, ◌<◌, ◌≤◌, ◌≡◌, ◌≢◌, refl, ◌∙◌, sym, List, [], ◌∷◌, ◌++◌, append_assoc, append-nil, arith,
  length, length-append, All, All-append,
}
use services_backend.Jobs.{Job}
use services_backend.Distributor.{Pools, struct_of, Store, assign, add_job, add_jobs}

-- What `pick` reads of each job of a queue, in order.
unfoldable pub picks : {B : Type 0} → (Job → List B) → List Job → List B
picks pick [] = []
picks pick (j ∷ js) = pick j ++ picks pick js

picks-append :
    {B : Type 0} (pick : Job → List B) (js ks : List Job)
    → picks pick (js ++ ks) ≡ picks pick js ++ picks pick ks
unfolding picks
picks-append pick [] ks = refl
picks-append pick (j ∷ js) ks =
    rw (picks-append pick js ks) (sym (append_assoc (pick j) (picks pick js) (picks pick ks)))

-- No two rounds get the same struct.
abbrev pub IsUnshared : Pools → Type 0
IsUnshared pools = (i k : ℕ) → i < k → struct_of pools i ≢ struct_of pools k

-- From round `i` on, no round gets the struct of a job that is queued.
abbrev pub IsFresh : (ℕ → Job) → Pools → ℕ → List Job → Type 0
IsFresh job pools i jobs = (k : ℕ) → i ≤ k → All (λ j. j ≢ job (struct_of pools k)) jobs

module _ {S B : Type 0} (job : ℕ → Job) (pools : Pools) where
  module _ (fill : ℕ → B → S → S) (pick : Store S → Job → List B)
      (filled : (i : ℕ) (b : B) (store : Store S) (p : ℕ)
        → pick (assign store p (fill i b (store p))) (job p) ≡ b ∷ [])
      (other : (store : Store S) (p : ℕ) (v : S) (j : Job)
        → j ≢ job p
        → pick (assign store p v) j ≡ pick store j)
      (apart : (p q : ℕ) → p ≢ q → job p ≢ job q) (unshared : IsUnshared pools) where
    picks-other :
        (store : Store S) (p : ℕ) (v : S) (jobs : List Job)
        → All (λ j. j ≢ job p) jobs
        → picks (pick (assign store p v)) jobs ≡ picks (pick store) jobs
    unfolding picks
    picks-other store p v [] h = refl
    picks-other store p v (j ∷ js) (ne, rest) =
        rw (other store p v j ne, picks-other store p v js rest) refl

    add_job-IsFresh :
        (i : ℕ) (jobs : List Job)
        → IsFresh job pools i jobs
        → IsFresh job pools (i + 1) (jobs ++ job (struct_of pools i) ∷ [])
    add_job-IsFresh i jobs fresh k later =
        All-append (λ j. j ≢ job (struct_of pools k)) jobs (job (struct_of pools i) ∷ [])
          (fresh k (omega arith))
          (apart (struct_of pools i) (struct_of pools k) (unshared i k (omega arith)), tt)

    picks-add_job :
        (i : ℕ) (b : B) (store : Store S) (jobs : List Job)
        → IsFresh job pools i jobs
        → let s = add_job job pools fill i b (store, jobs) in
          picks (pick s.0) s.1 ≡ picks (pick store) jobs ++ b ∷ []
    unfolding picks
    picks-add_job i b store jobs fresh =
        let p = struct_of pools i in
        picks-append (pick (assign store p (fill i b (store p)))) jobs (job p ∷ [])
        ∙ rw
            (
              picks-other store p (fill i b (store p)) jobs (fresh i (omega arith)),
              filled i b store p,
            )
            refl

    -- The queue gains a job for each batch, in order, and nothing else.
    pub picks-add_jobs :
        (i : ℕ) (bs : List B) (store : Store S) (jobs : List Job)
        → IsFresh job pools i jobs
        → let s = add_jobs job pools fill i bs (store, jobs) in
          (picks (pick s.0) s.1 ≡ picks (pick store) jobs ++ bs)
          × (length s.1 ≡ length jobs + length bs)
    unfolding add_jobs
    picks-add_jobs i [] store jobs fresh = (rw append-nil refl, omega arith)
    picks-add_jobs i (b ∷ bs) store jobs fresh =
        let p = struct_of pools i in
        let (same, long) =
          picks-add_jobs (i + 1) bs (assign store p (fill i b (store p))) (jobs ++ job p ∷ [])
            (add_job-IsFresh i jobs fresh) in
        (
          same
              ∙ (rw (picks-add_job i b store jobs fresh)
                  (append_assoc (picks (pick store) jobs) (b ∷ []) bs)),
          omega (arith, long, length-append jobs (job p ∷ [])),
        )
