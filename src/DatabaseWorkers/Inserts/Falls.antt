-- ===== src/DatabaseWorkers/Inserts/Falls.antt =====
-- Every section of the insertions keeps or lowers the number of unflagged items, and lowers it where
-- it finds the first error of the round: the relation, and how changes compose.
pub mod Queries
pub mod Feeds
pub mod Tables
pub mod Sections
use services_backend.Common.{
  ℕ, zero, suc, ◌+◌, ◌≤◌, ◌<◌, ◌≡◌, refl, sym, ap, ◌∙◌, Bool, true, false, Option, none, some, List,
  [], ◌∷◌, ◌++◌, Bytes, length, get_elem?, set, drop, is_empty, Outcome, ok, IfOk, IfOk-then,
  IfOk-map, IfOk->>=, or_fault, index_out_of_range, arith, Bool-cases, Option-cases, inl, inr,
  length-append, take-drop,
}
use services_backend.QueryTopic.{Table, alarms, update}
use services_backend.ZmqQuery.{ZmqQuery, msg}
use services_backend.QueryBatch.{QueryBatch}
use services_backend.Jobs.{Feed, logs, monitors, rootplot_feed, plotlyplot_feed}
use services_backend.DatabaseWorkers.{DatabaseJobStruct, generics, writes}
use services_backend.DatabaseWorkers.Server.{
  Server, Reply, done, raised, user_query, insert, feed_statement, error_text,
}
use services_backend.DatabaseWorkers.Inserts.{Inserts, fail_at, last_i, span}
use services_backend.DatabaseWorkers.Inserts.Generics.{
  query_done, query_reply, query_failed, exec_query, exec_queries, exec_batch, exec_batches,
  exec_generics,
}
use services_backend.DatabaseWorkers.Inserts.Feeds.{
  count, count_bytes, feed_done, feed_failed, feed_reply, feed_item, feed_items, insert_feed,
  feed_queue, bad_set, with_bad_set, feed_step,
}
use services_backend.DatabaseWorkers.Inserts.Writes.{
  tables, push_versions, insert_done, insert_failed, is_due, table_reply, insert_table,
  insert_tables, insert_batches, insert_writes,
}
use services_backend.DatabaseWorkers.Inserts.Chances.{
  unflagged, open_queries, open_tables, open_batches, open_below, chances, error_text-unflagged,
  open_queries-set, open_tables-update, open_below-cons, span-split, open_batches-append,
}

-- From `m` open items without or with an error to `m'`.
pub record Falls (m m' : ℕ) (s s' : Inserts) : Type 0 where
  pub within : m' ≤ m
  pub strictly : s.had_error ≡ false → s'.had_error ≡ true → m' < m

pub Falls-refl : (m : ℕ) (s : Inserts) → Falls m m s s
Falls-refl m s = record { within = omega arith; strictly = λ e f. cc }

pub Falls-trans : {k m n : ℕ} {r s t : Inserts} → Falls k m r s → Falls m n s t → Falls k n r t
Falls-trans {s = s} a b = record {
  within = omega (arith, a.within, b.within);
  strictly = λ e f. elim (Bool-cases s.had_error) [
    | inl g ↦ omega (arith, a.strictly e g, b.within)
    | inr g ↦ omega (arith, b.strictly g f, a.within)
  ];
}

-- The same change next to other open items.
pub Falls-plus :
    {m n m' n' : ℕ} {s s' : Inserts}
    → Falls m m' s s'
    → (k : ℕ) → n ≡ m + k
    → n' ≡ m' + k
    → Falls n n' s s'
Falls-plus a k e e' = record {
  within = omega (arith, a.within);
  strictly = λ f g. omega (arith, a.strictly f g);
}

abbrev pub Lowers {ℓ} : {A : Type ℓ} → (A → ℕ) → A → Inserts → A × Inserts → Type 0
Lowers left a s r = Falls (left a) (left r.0) s r.1

-- The same change where other items are counted too.
pub Falls-beside :
    {m m' n n' : ℕ} {s s' : Inserts} → Falls m m' s s' → n + m' ≡ n' + m → Falls n n' s s'
Falls-beside a e = record {
  within = omega (arith, a.within);
  strictly = λ f g. omega (arith, a.strictly f g);
}

-- A success changes nothing that counts here, an error lowers the number.
pub kept : {m m' : ℕ} (s s' : Inserts) → m' ≡ m → s'.had_error ≡ s.had_error → Falls m m' s s'
kept s s' e f = record { within = omega arith; strictly = λ g h. cc }

pub lowered : {m m' : ℕ} (s s' : Inserts) → m' < m → Falls m m' s s'
lowered s s' h = record { within = omega arith; strictly = λ f g. h }

abbrev pub open_batch : QueryBatch → ℕ
open_batch b = open_batches (b ∷ [])

-- One batch, and then those behind it.
pub batches-Falls :
    (b b' : QueryBatch) (bs bs' : List QueryBatch) {r s t : Inserts}
    → Falls (open_batch b) (open_batch b') r s
    → Falls (open_batches bs) (open_batches bs') s t
    → Falls (open_batches (b ∷ bs)) (open_batches (b' ∷ bs')) r t
batches-Falls b b' bs bs' h k =
    let split = open_batches-append (b' ∷ []) bs in
    let mid : open_batches (b' ∷ bs) ≡ open_batches bs + open_batch b' = omega (arith, split) in
    let end : open_batches (b' ∷ bs') ≡ open_batches bs' + open_batch b' =
      omega (arith, open_batches-append (b' ∷ []) bs') in
    Falls-trans (Falls-plus h (open_batches bs) (open_batches-append (b ∷ []) bs) split)
      (Falls-plus k (open_batch b') mid end)
