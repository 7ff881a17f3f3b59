-- ===== src/DatabaseWorkers/Inserts/Chances.antt =====
-- How often the insertions of a job can still fail: what fails is flagged, and then skipped.
use services_backend.Common.{
  ℕ, zero, suc, ◌+◌, ◌-◌, ◌≤◌, ◌<◌, ◌≡◌, refl, false, some, List, [], ◌∷◌, ◌++◌, Bytes, length,
  get_elem?, set, is_empty, drop, leb, IfOk, arith, Bool-cases, inl, inr, take-drop, if◌then◌else◌,
}
use services_backend.QueryTopic.{
  Table, alarms, devconfigs, base_configs, runmode_configs, calibrations, rootplots, plotlyplots,
  update,
}
use services_backend.ZmqQuery.{ZmqQuery}
use services_backend.QueryBatch.{QueryBatch}
use services_backend.DatabaseWorkers.{DatabaseJobStruct}
use services_backend.DatabaseWorkers.Server.{error_text}
use services_backend.DatabaseWorkers.Inserts.{span}
use services_backend.DatabaseWorkers.Inserts.Feeds.{count}

abbrev pub unflagged : Bytes → ℕ
unflagged err = if is_empty err then 1 else 0

unfoldable pub open_queries : List ZmqQuery → ℕ
open_queries [] = 0
open_queries (q ∷ qs) = unflagged q.err + open_queries qs

unfoldable pub open_tables : (Table → Bytes) → ℕ
open_tables err =
    unflagged (err alarms)
    + unflagged (err devconfigs)
    + unflagged (err base_configs)
    + unflagged (err runmode_configs)
    + unflagged (err calibrations)
    + unflagged (err rootplots)
    + unflagged (err plotlyplots)

unfoldable pub open_batches : List QueryBatch → ℕ
open_batches [] = 0
open_batches (b ∷ bs) = open_queries b.queries + open_tables b.batch_err + open_batches bs

-- The positions below `n` that are not in the set.
unfoldable pub open_below : ℕ → List ℕ → ℕ
open_below zero bad = 0
open_below (suc n) bad = (if count bad n then 0 else 1) + open_below n bad

-- The queries, tables and buffers of a job that are not flagged.
unfoldable pub chances : DatabaseJobStruct → ℕ
chances j =
    open_batches j.write_queue
    + open_below (length j.logging_queue) j.bad_logs
    + open_below (length j.monitoring_queue) j.bad_mons
    + open_below (length j.rootplot_queue) j.bad_rootplots
    + open_below (length j.plotlyplot_queue) j.bad_plotlyplots

pub error_text-unflagged : (name what : Bytes) → unflagged (error_text name what) ≡ 0
unfolding error_text
error_text-unflagged [] what = refl
error_text-unflagged (c ∷ name) what = refl

pub open_queries-set :
    (qs : List ZmqQuery) (k : ℕ) (q v : ZmqQuery)
    → get_elem? qs k ≡ some q
    → open_queries (set qs k v) + unflagged q.err ≡ open_queries qs + unflagged v.err
unfolding open_queries
open_queries-set [] k q v e = ground arith
open_queries-set (x ∷ qs) zero q v e = ground arith
open_queries-set (x ∷ qs) (suc k) q v e = ground (arith, open_queries-set qs k q v e)

pub open_tables-update :
    (err : Table → Bytes) (t : Table) (text : Bytes)
    → unflagged text ≡ 0
    → open_tables (update err t text) + unflagged (err t) ≡ open_tables err
unfolding open_tables
open_tables-update err alarms text e = omega arith
open_tables-update err devconfigs text e = omega arith
open_tables-update err base_configs text e = omega arith
open_tables-update err runmode_configs text e = omega arith
open_tables-update err calibrations text e = omega arith
open_tables-update err rootplots text e = omega arith
open_tables-update err plotlyplots text e = omega arith

open_below-beyond : (n k : ℕ) (bad : List ℕ) → n ≤ k → open_below n (k ∷ bad) ≡ open_below n bad
unfolding open_below
open_below-beyond zero k bad h = refl
open_below-beyond (suc n) k bad h = ground (arith, open_below-beyond n k bad)

pub open_below-cons :
    (n k : ℕ) (bad : List ℕ)
    → k < n
    → count bad k ≡ false
    → suc (open_below n (k ∷ bad)) ≡ open_below n bad
unfolding open_below
open_below-cons zero k bad h e = absurd (omega arith)
open_below-cons (suc n) k bad h e =
    ground (arith, open_below-cons n k bad, open_below-beyond n k bad)

-- The elements that a loop from the start reads, and those behind them.
pub span-split :
    {A : Type 0} (n : ℕ) (xs : List A) → IfOk (λ ys. ys ++ drop n xs ≡ xs) (span 0 n xs)
unfolding span
span-split zero xs = refl
span-split (suc n) xs =
    let some_left : leb (suc n) 0 ≡ false = ground arith in
    let all : suc n - 0 ≡ suc n = omega arith in
    elim (Bool-cases (leb (suc n) (length xs))) [
      | inl e ↦ rw (some_left, e, all) (take-drop (suc n) xs)
      | inr e ↦ rw (some_left, e) tt
    ]

pub open_batches-append :
    (bs cs : List QueryBatch) → open_batches (bs ++ cs) ≡ open_batches bs + open_batches cs
unfolding open_batches
open_batches-append [] cs = omega arith
open_batches-append (b ∷ bs) cs = omega (arith, open_batches-append bs cs)
