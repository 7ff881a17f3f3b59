-- ===== src/ResultWorkers/Routing.antt =====
-- Replies go to the sender of their query, under its number.
use services_backend.Common.{
  ℕ, ◌≢◌, ◌≡◌, refl, ap, Option, none, some, List, [], ◌∷◌, Bytes, get_elem?, Bool-cases, inl, inr,
  is_empty, not, if◌then◌else◌, codes, ok,
}
use services_backend.QueryTopic.{QueryTopic, cached_config, query_topic}
use services_backend.Zstd.{Zstd}
use services_backend.ZmqQuery.{ZmqQuery, le_bytes, topic, msg, clear}
use services_backend.ResultWorkers.Reply.{
  compress_msg, failure, find_config, cached_reply, database_reply, read_topic_reply, read_reply,
}
use services_backend.ResultWorkers.Rows.{
  Parts, one_row-Parts, all_texts, flag_of, rows_of, result_reply-Parts,
}

-- The reply to a read query that went to the database: its error, or the rows of its result.
abbrev pub read_flag : ZmqQuery → Bytes
read_flag q =
    if not (is_empty q.err) then le_bytes 4 0 else flag_of (all_texts (λ r. r.first) q.result)

abbrev pub read_rows : Zstd → ZmqQuery → List Bytes
read_rows z q =
    if not (is_empty q.err)
    then compress_msg z q.err ∷ []
    else rows_of z (codes "error accessing query result") (all_texts (λ r. r.first) q.result)

clear-Parts :
    (q : ZmqQuery) {c i s : Bytes} {rows : List Bytes}
    → Parts q c i s rows
    → Parts (clear q) c i s rows
unfolding clear
clear-Parts q h = h

database_reply-Parts :
    (z : Zstd) (q : ZmqQuery) (n : ℕ) (c i s m : Bytes)
    → Parts q c i s (m ∷ [])
    → Parts (database_reply z q n).0 c i (read_flag q) (read_rows z q)
unfolding database_reply
database_reply-Parts z q n c i s m h = elim (Bool-cases (not (is_empty q.err))) [
  | inl bad ↦ rw bad (unfold failure in one_row-Parts 0 (compress_msg z q.err) q h)
  | inr good ↦ rw good (clear-Parts _ (result_reply-Parts z _ _ q n c i s m h).0)
]

read_topic_reply-database :
    (z : Zstd) (cache : List (Bytes × Bytes)) (o : Option QueryTopic) (q : ZmqQuery) (n : ℕ)
    → o ≢ some cached_config
    → read_topic_reply z cache o q n ≡ database_reply z q n
unfolding read_topic_reply
read_topic_reply-database z cache none q n h = refl
read_topic_reply-database z cache (some cached_config) q n h = absurd (h refl)
read_topic_reply-database z cache (some t) q n h = refl

pub topic-Parts :
    (q : ZmqQuery) {c i s : Bytes} {rows : List Bytes} → Parts q c i s rows → topic q ≡ s
unfolding topic
topic-Parts q h = rw h

-- The reply to a read query of any topic but `K` keeps the client and message number of the query.
-- It carries 0 and the error, if the query has one; else 1 and the first column of every row,
-- compressed and in order; or 0 and an error text, if an access to the result throws.
pub read_reply-Parts :
    (z : Zstd) (cache : List (Bytes × Bytes)) (q : ZmqQuery) (n code : ℕ) (c i s m : Bytes)
    → Parts q c i s (m ∷ [])
    → get_elem? s 2 ≡ some code
    → query_topic code ≢ some cached_config
    → (r : ZmqQuery) × (k : ℕ) × (read_reply z cache q n ≡ ok (r, k))
      × Parts r c i (read_flag q) (read_rows z q)
unfolding read_reply
read_reply-Parts z cache q n code c i s m h e other =
    let r = database_reply z q n in
    (
      r.0,
      r.1,
      rw (topic-Parts q h, e)
          (ap (λ a. ok a) (read_topic_reply-database z cache (query_topic code) q n other)),
      database_reply-Parts z q n c i s m h,
    )

-- The parts of the reply for what is found in the cache.
abbrev pub CachedReply : Zstd → Bytes → Bytes → ZmqQuery → Option Bytes → Type 0
CachedReply z c i r none =
    Parts r c i (le_bytes 4 0)
      (compress_msg z (codes "no cached configuration for this device!") ∷ [])
CachedReply z c i r (some config) = Parts r c i (le_bytes 4 1) (compress_msg z config ∷ [])

-- The reply to a query of topic `K` is the cached configuration of the device that the message
-- names, if there is one, and else 0 and an error text, whatever the database workers stored.
pub read_reply-cached :
    (z : Zstd) (cache : List (Bytes × Bytes)) (q : ZmqQuery) (n code : ℕ) (c i s m : Bytes)
    → Parts q c i s (m ∷ [])
    → get_elem? s 2 ≡ some code
    → query_topic code ≡ some cached_config
    → (r : ZmqQuery) × (read_reply z cache q n ≡ ok (r, n))
      × CachedReply z c i r (find_config (msg q) cache)
unfolding read_reply read_topic_reply
read_reply-cached z cache q n code c i s m h e k = (
  cached_reply z cache q,
  rw (topic-Parts q h, e) (rw k refl),
  by_entry (find_config (msg q) cache) refl,
)
  where
    by_entry :
        (o : Option Bytes)
        → find_config (msg q) cache ≡ o
        → CachedReply z c i (cached_reply z cache q) o
    by_entry none f =
        unfold cached_reply in (rw (f, cached_reply) (unfold failure in one_row-Parts 0 _ q h))
    by_entry (some config) f = unfold cached_reply in (rw (f, cached_reply) (one_row-Parts 1 _ q h))
