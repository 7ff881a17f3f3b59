-- ===== src/DatabaseWorkers/Inserts/Falls/Feeds.antt =====
-- The unflagged multicast buffers fall.
use services_backend.Common.{
  ℕ, suc, ◌+◌, ◌≤◌, ◌<◌, ◌≡◌, refl, false, List, [], ◌∷◌, Bytes, length, arith, Bool-cases, inl,
  inr,
}
use services_backend.Jobs.{Feed, logs, monitors, rootplot_feed, plotlyplot_feed}
use services_backend.DatabaseWorkers.Server.{Server, Reply, done, raised}
use services_backend.DatabaseWorkers.Inserts.{Inserts, fail_at}
use services_backend.DatabaseWorkers.Inserts.Feeds.{
  count, count_bytes, feed_done, feed_failed, feed_reply, feed_item, feed_items,
}
use services_backend.DatabaseWorkers.Inserts.Chances.{open_below, open_below-cons}
use services_backend.DatabaseWorkers.Inserts.Falls.{Falls, Falls-refl, Falls-trans, kept, lowered}

count_bytes-had_error :
    (f : Feed) (text : Bytes) (s : Inserts) → (count_bytes f text s).had_error ≡ s.had_error
unfolding count_bytes
count_bytes-had_error logs text s = refl
count_bytes-had_error monitors text s = refl
count_bytes-had_error rootplot_feed text s = refl
count_bytes-had_error plotlyplot_feed text s = refl

feed_reply-Falls :
    (f : Feed) (i n : ℕ) (text : Bytes) (bad : List ℕ) (s : Inserts) (r : Reply)
    → i < n
    → count bad i ≡ false
    → Falls
        (open_below n bad)
        (open_below n (feed_reply f i text bad s r).0)
        s
        (feed_reply f i text bad s r).1
unfolding feed_reply feed_done feed_failed fail_at
feed_reply-Falls f i n text bad s (done rows versions) below e =
    kept s _ refl (count_bytes-had_error f text _)
feed_reply-Falls f i n text bad s (raised versions name what) below e =
    lowered s _ (omega (arith, open_below-cons n i bad below e))

feed_item-Falls :
    (srv : Server) (f : Feed) (i n : ℕ) (text : Bytes) (bad : List ℕ) (s : Inserts)
    → i < n
    → Falls
        (open_below n bad)
        (open_below n (feed_item srv f i text (bad, s)).0)
        s
        (feed_item srv f i text (bad, s)).1
unfolding feed_item
feed_item-Falls srv f i n text bad s below = elim (Bool-cases (count bad i)) [
  | inl e ↦ rw e (Falls-refl _ s)
  | inr e ↦ rw e (feed_reply-Falls f i n text bad s _ below e)
]

pub feed_items-Falls :
    (srv : Server) (f : Feed) (i n : ℕ) (texts : List Bytes) (bad : List ℕ) (s : Inserts)
    → i + length texts ≤ n
    → Falls
        (open_below n bad)
        (open_below n (feed_items srv f i texts (bad, s)).0)
        s
        (feed_items srv f i texts (bad, s)).1
unfolding feed_items
feed_items-Falls srv f i n [] bad s within = Falls-refl _ s
feed_items-Falls srv f i n (text ∷ texts) bad s within =
    let r = feed_item srv f i text (bad, s) in
    Falls-trans (feed_item-Falls srv f i n text bad s (omega arith))
      (feed_items-Falls srv f (suc i) n texts r.0 r.1 (omega arith))
