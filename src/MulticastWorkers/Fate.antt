-- ===== src/MulticastWorkers/Fate.antt =====
-- What `MulticastMessageJob` is meant to do with each message, stated without the loop's variables.
use services_backend.Common.{
  ℕ, ◌+◌, ◌≡◌, refl, false, Option, none, some, List, [], ◌∷◌, ◌++◌, Bytes, take, bytes_eq,
  if◌then◌else◌, ok, arith, length, ap,
}
use services_backend.QueryTopic.{query_topic}
use services_backend.Zstd.{
  Zstd, compressed, inflate, text_of, Inflated, bad_size, too_large, corrupt, inflated,
}
use services_backend.Decode.Bounds.{text_of-inflate}
use services_backend.Jobs.{Feed, logs, monitors, rootplot_feed, plotlyplot_feed}
use services_backend.MulticastWorkers.{topic_key, route, feed_of, feed_eq, settle, read_message}

-- Left out, or added to the array of a feed.
pub data Fate : Type 0 where
  ignored : Fate
  sent : Feed → Bytes → Fate

-- The letter that a feed's topics begin with.
unfoldable pub feed_letter : Feed → ℕ
feed_letter logs = b'L'
feed_letter monitors = b'M'
feed_letter rootplot_feed = b'T'
feed_letter plotlyplot_feed = b'P'

unfoldable pub payload : Zstd → Bytes → Option Bytes
payload z raw = if compressed raw then text_of (inflate z raw []) else some raw

-- The fate of a message by the text that it decodes to: it is ignored if it does not decode, does
-- not begin with `{"topic":`, or has a topic that no feed has; else it goes to the feed of its
-- topic's first letter, which follows the quote `d`.
pub data Sorted (o : Option Bytes) : Fate → Type 0 where
  undecoded : o ≡ none → Sorted o ignored
  foreign :
      (text : Bytes) → o ≡ some text → bytes_eq (take 9 text) topic_key ≡ false → Sorted o ignored
  unknown :
      (d c : ℕ) (rest : Bytes)
      → o ≡ some (topic_key ++ d ∷ c ∷ rest)
      → feed_of (query_topic c) ≡ none
      → Sorted o ignored
  known :
      (d : ℕ) (rest text : Bytes) (f : Feed)
      → o ≡ some text
      → text ≡ topic_key ++ d ∷ feed_letter f ∷ rest
      → Sorted o (sent f text)

-- The fates of the messages of a job, one for each.
pub data Fates (z : Zstd) : List Bytes → List Fate → Type 0 where
  nil : Fates z [] []
  cons :
      {raw : Bytes} {raws : List Bytes} {f : Fate} {fs : List Fate}
      → Sorted (payload z raw) f
      → Fates z raws fs
      → Fates z (raw ∷ raws) (f ∷ fs)

abbrev pub message_for : Feed → Fate → List Bytes
message_for g ignored = []
message_for g (sent f text) = if feed_eq f g then text ∷ [] else []

-- The messages for a feed, and the bytes of all messages that have one.
unfoldable pub messages : Feed → List Fate → List Bytes
messages g [] = []
messages g (f ∷ fs) = message_for g f ++ messages g fs

abbrev pub size_of : Fate → ℕ
size_of ignored = 0
size_of (sent f text) = length text

unfoldable pub total_size : List Fate → ℕ
total_size [] = 0
total_size (f ∷ fs) = size_of f + total_size fs

settle-text_of : (buffer : Bytes) (r : Inflated) → (settle buffer r).0 ≡ text_of r
unfolding settle
settle-text_of buffer bad_size = refl
settle-text_of buffer too_large = refl
settle-text_of buffer (corrupt room) = refl
settle-text_of buffer (inflated filled text) = refl

-- The shared decompression buffer has no effect on what a message decodes to.
pub read_message-payload :
    (z : Zstd) (raw buffer : Bytes) → (read_message z raw buffer).0 ≡ payload z raw
unfolding read_message payload
read_message-payload z raw buffer =
    ground (arith, settle-text_of buffer (inflate z raw buffer), text_of-inflate z raw buffer [])

feed_of-letter : (f : Feed) → feed_of (query_topic (feed_letter f)) ≡ some f
unfolding feed_of query_topic feed_letter
feed_of-letter logs = refl
feed_of-letter monitors = refl
feed_of-letter rootplot_feed = refl
feed_of-letter plotlyplot_feed = refl

pub route-letter :
    (d : ℕ) (rest : Bytes) (f : Feed) → route (topic_key ++ d ∷ feed_letter f ∷ rest) ≡ ok (some f)
unfolding route
route-letter d rest f = ap (λ o. ok o) (feed_of-letter f)

pub route-unknown :
    (d c : ℕ) (rest : Bytes)
    → feed_of (query_topic c) ≡ none
    → route (topic_key ++ d ∷ c ∷ rest) ≡ ok none
unfolding route
route-unknown d c rest h = ap (λ o. ok o) h

pub route-foreign : (text : Bytes) → bytes_eq (take 9 text) topic_key ≡ false → route text ≡ ok none
unfolding route
route-foreign text h = rw h
