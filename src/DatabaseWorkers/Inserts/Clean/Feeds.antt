-- ===== src/DatabaseWorkers/Inserts/Clean/Feeds.antt =====
-- The multicast buffers that the database takes.
use services_backend.Common.{
  ℕ, suc, ◌≡◌, not, ap, refl, ◌∙◌, Bool, true, false, List, [], ◌∷◌, Bytes, if◌then◌else◌,
}
use services_backend.Jobs.{Feed, logs, monitors, rootplot_feed, plotlyplot_feed}
use services_backend.DatabaseWorkers.Server.{Server, Statement, feed_statement, executed}
use services_backend.DatabaseWorkers.Inserts.{Inserts}
use services_backend.DatabaseWorkers.Inserts.Feeds.{
  count, count_bytes, feed_done, feed_reply, feed_item, feed_items,
}
use services_backend.DatabaseWorkers.Inserts.Clean.{
  when, IsHealthy, feed_statements, Executes, Executes-nothing, Executes-trans,
}

pub feed_done-Executes :
    (f : Feed) (text : Bytes) (s : Inserts)
    → Executes (feed_statement f text ∷ []) s (feed_done f text s)
unfolding feed_done count_bytes executed
feed_done-Executes logs text s = record {
  tx = refl;
  stored = refl;
  is_open = refl;
  had_error = refl;
  checkpoint_j = refl;
}
feed_done-Executes monitors text s = record {
  tx = refl;
  stored = refl;
  is_open = refl;
  had_error = refl;
  checkpoint_j = refl;
}
feed_done-Executes rootplot_feed text s = record {
  tx = refl;
  stored = refl;
  is_open = refl;
  had_error = refl;
  checkpoint_j = refl;
}
feed_done-Executes plotlyplot_feed text s = record {
  tx = refl;
  stored = refl;
  is_open = refl;
  had_error = refl;
  checkpoint_j = refl;
}

-- What a loop over buffers does with a set of bad ones: that stays as it is.
pub record Feeds (bad : List ℕ) (added : List Statement) (s : Inserts) (r : List ℕ × Inserts)
    : Type 0 where
  pub same : r.0 ≡ bad
  pub executes : Executes added s r.1

feed_case :
    (f : Feed) (text : Bytes) (bad : List ℕ) (s : Inserts) (b : Bool) (r : List ℕ × Inserts)
    → r ≡ (bad, feed_done f text s)
    → Feeds bad (when (not b) (feed_statement f text)) s (if b then (bad, s) else r)
feed_case f text bad s true r e = record { same = refl; executes = Executes-nothing s }
feed_case f text bad s false r e =
    rw e (record { same = refl; executes = feed_done-Executes f text s })

same_set :
    (f : Feed) (i : ℕ) (texts : List Bytes) (bad' bad : List ℕ) {s : Inserts} {r : List ℕ × Inserts}
    → bad' ≡ bad
    → Feeds bad' (feed_statements f bad' i texts) s r
    → Feeds bad (feed_statements f bad i texts) s r
same_set f i texts bad' bad e h = rw e at h

module _ (srv : Server) (h : IsHealthy srv) where
  feed_item-Feeds :
      (f : Feed) (i : ℕ) (text : Bytes) (bad : List ℕ) (s : Inserts)
      → s.session.is_open ≡ true
      → Feeds bad
          (when (not (count bad i)) (feed_statement f text))
          s
          (feed_item srv f i text (bad, s))
  unfolding feed_item feed_reply
  feed_item-Feeds f i text bad s alive =
      feed_case f text bad s (count bad i) _
        (ap (feed_reply f i text bad s) (h.answers s.session (feed_statement f text) alive))

  pub feed_items-Feeds :
      (f : Feed) (i : ℕ) (texts : List Bytes) (bad : List ℕ) (s : Inserts)
      → s.session.is_open ≡ true
      → Feeds bad (feed_statements f bad i texts) s (feed_items srv f i texts (bad, s))
  unfolding feed_items feed_statements
  feed_items-Feeds f i [] bad s alive = record { same = refl; executes = Executes-nothing s }
  feed_items-Feeds f i (text ∷ texts) bad s alive =
      let r = feed_item srv f i text (bad, s) in
      let one = feed_item-Feeds f i text bad s alive in
      let rest =
        same_set f (suc i) texts r.0 bad one.same
          (feed_items-Feeds f (suc i) texts r.0 r.1 (one.executes.is_open ∙ alive)) in
      record { same = rest.same; executes = Executes-trans one.executes rest.executes }
