-- ===== src/Distributor.antt =====
-- The loop that the distributor threads of WriteWorkers, ReadWorkers, ResultWorkers and
-- MulticastWorkers share: one new job for each waiting batch. A job and the pools hold pointers to
-- argument structs, which stand in a store.
pub mod Order
pub mod Shared
use services_backend.Common.{ℕ, ◌+◌, Option, none, some, List, [], ◌∷◌, ◌++◌, ◌==◌, if◌then◌else◌}
use services_backend.Jobs.{Job}

-- What the framework's two pools give in round `i`: the struct that the job from `job_pool` still
-- points to, if its data pointer is not null, and the one from `job_struct_pool`.
pub record Pools : Type 0 where
  pub carried : ℕ → Option ℕ
  pub get_new : ℕ → ℕ

abbrev pub or_new : Option ℕ → ℕ → ℕ
or_new none fresh = fresh
or_new (some old) fresh = old

-- `the_job->data` in round `i`. A pointer that is not null is used as it is, whoever has it too; a struct
-- that was deleted is not told apart here.
abbrev pub struct_of : Pools → ℕ → ℕ
struct_of pools i = or_new (pools.carried i) (pools.get_new i)

-- The structs of one tool by their addresses.
abbrev pub Store : Type 0 → Type 0
Store S = ℕ → S

abbrev pub assign : {S : Type 0} → Store S → ℕ → S → Store S
assign store p v q = if p == q then v else store q

module _ {S B : Type 0} (job : ℕ → Job) (pools : Pools) (fill : ℕ → B → S → S) where
  -- Round `i`.
  abbrev pub add_job : ℕ → B → Store S × List Job → Store S × List Job
  add_job i b (store, jobs) =
      let p = struct_of pools i in (assign store p (fill i b (store p)), jobs ++ job p ∷ [])

  unfoldable pub add_jobs : ℕ → List B → Store S × List Job → Store S × List Job
  add_jobs i [] s = s
  add_jobs i (b ∷ bs) s = add_jobs (i + 1) bs (add_job i b s)
