-- ===== src/Distributor/Shared.antt =====
-- Two rounds of a distributor that get the same struct: its job is queued twice, with the later
-- batch.
use services_backend.Common.{
  ℕ, zero, suc, ◌+◌, ◌<◌, ◌≡◌, refl, ap, ◌∙◌, sym, some, List, [], ◌∷◌, ◌++◌, append_assoc,
  append-nil, arith, length, length-append, get_elem?, ◌==◌, true,
}
use services_backend.Jobs.{Job}
use services_backend.Distributor.{Pools, struct_of, Store, assign, add_job, add_jobs}

get_elem?-behind :
    {A : Type 0} (xs ys : List A) (k : ℕ) → get_elem? (xs ++ ys) (length xs + k) ≡ get_elem? ys k
get_elem?-behind [] ys k = ap (get_elem? ys) (omega arith)
get_elem?-behind (x ∷ xs) ys k =
    let next : length (x ∷ xs) + k ≡ suc (length xs + k) = omega arith in
    rw next (get_elem?-behind xs ys k)

-- The jobs of `n` rounds from round `i` on.
abbrev round_jobs : (ℕ → Job) → Pools → ℕ → ℕ → List Job
round_jobs job pools i zero = []
round_jobs job pools i (suc n) = job (struct_of pools i) ∷ round_jobs job pools (i + 1) n

get_elem?-round_jobs :
    (job : ℕ → Job) (pools : Pools) (i n k : ℕ)
    → k < n
    → get_elem? (round_jobs job pools i n) k ≡ some (job (struct_of pools (i + k)))
get_elem?-round_jobs job pools i zero k h = absurd (omega arith)
get_elem?-round_jobs job pools i (suc n) zero h =
    let same : i ≡ i + 0 = omega arith in ap (λ x. some (job (struct_of pools x))) same
get_elem?-round_jobs job pools i (suc n) (suc k) h =
    let same : i + 1 + k ≡ i + suc k = omega arith in
    get_elem?-round_jobs job pools (i + 1) n k (omega arith)
    ∙ ap (λ x. some (job (struct_of pools x))) same

module _ {S B : Type 0} (job : ℕ → Job) (pools : Pools) (fill : ℕ → B → S → S) where
  -- The last round.
  add_jobs-snoc :
      (i : ℕ) (bs : List B) (b : B) (s : Store S × List Job)
      → add_jobs job pools fill i (bs ++ b ∷ []) s
        ≡ add_job job pools fill (i + length bs) b (add_jobs job pools fill i bs s)
  unfolding add_jobs
  add_jobs-snoc i [] b s =
      let same : i + 0 ≡ i = omega arith in ap (λ k. add_job job pools fill k b s) (sym same)
  add_jobs-snoc i (c ∷ bs) b s =
      let same : i + 1 + length bs ≡ i + length (c ∷ bs) = omega arith in
      add_jobs-snoc (i + 1) bs b (add_job job pools fill i c s)
      ∙ ap (λ k. add_job job pools fill k b (add_jobs job pools fill i (c ∷ bs) s)) same

  -- The queue gains the jobs of the rounds.
  add_jobs-queue :
      (i : ℕ) (bs : List B) (store : Store S) (jobs : List Job)
      → (add_jobs job pools fill i bs (store, jobs)).1 ≡ jobs ++ round_jobs job pools i (length bs)
  unfolding add_jobs
  add_jobs-queue i [] store jobs = rw append-nil refl
  add_jobs-queue i (b ∷ bs) store jobs =
      let p = struct_of pools i in
      add_jobs-queue (i + 1) bs (assign store p (fill i b (store p))) (jobs ++ job p ∷ [])
      ∙ append_assoc jobs (job p ∷ []) (round_jobs job pools (i + 1) (length bs))

  -- If round `k` gets the struct of the last one, the struct is what the last round makes of it, and
  -- the job of round `k` points to it.
  pub add_jobs-shared :
      (k : ℕ) (bs : List B) (b : B) (store : Store S) (jobs : List Job)
      → k < length bs
      → struct_of pools k ≡ struct_of pools (length bs)
      → let p = struct_of pools k in
        let s = add_jobs job pools fill 0 (bs ++ b ∷ []) (store, jobs) in
        (get_elem? s.1 (length jobs + k) ≡ some (job p))
        × ((v : S) × (s.0 p ≡ fill (length bs) b v))
  add_jobs-shared k bs b store jobs h same =
      let n = length bs in
      let t = add_jobs job pools fill 0 bs (store, jobs) in
      let itself : (struct_of pools n == struct_of pools n) ≡ true = ground arith in
      let first : 0 + n ≡ n = omega arith in
      let long : k < length (bs ++ b ∷ []) = omega (arith, length-append bs (b ∷ [])) in
      (
        rw (add_jobs-queue 0 (bs ++ b ∷ []) store jobs) (
            get_elem?-behind jobs (round_jobs job pools 0 (length (bs ++ b ∷ []))) k
            ∙ get_elem?-round_jobs job pools 0 (length (bs ++ b ∷ [])) k long
            ∙ ap (λ x. some (job (struct_of pools x))) (omega arith)),
        (
          t.0 (struct_of pools n),
          rw (add_jobs-snoc 0 bs b (store, jobs)) (rw (first, same) (rw itself refl)),
        ),
      )
