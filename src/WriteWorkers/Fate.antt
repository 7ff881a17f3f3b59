-- ===== src/WriteWorkers/Fate.antt =====
-- What `WriteMessageJob` is meant to do with each query, stated without the loop's variables.
use services_backend.Common.{
  ℕ, ◌+◌, ◌≡◌, Option, none, some, List, [], ◌∷◌, ◌++◌, Bytes, get_elem?, if◌then◌else◌,
}
use services_backend.QueryTopic.{
  QueryTopic, alarm, dev_config, base_config, runmode_config, calibration, rootplot, plotlyplot,
  generic, query_topic, Table, alarms, devconfigs, base_configs, runmode_configs, calibrations,
  plotlyplots, rootplots, table_eq,
}
use services_backend.Zstd.{Zstd}
use services_backend.ZmqQuery.{ZmqQuery, topic}
use services_backend.QueryBatch.Buffers.{NonEmpty}
use services_backend.Decode.{Decoded, discard, message, decode_query}

-- Left out with an error, kept for the database workers under its index, or added to a table.
pub data Fate : Type 0 where
  dropped : Fate
  noted : Fate
  added : Table → Bytes → Fate

-- The destination of a topic; `none` for one that write queries do not have.
unfoldable pub destination : QueryTopic → Bytes → Option Fate
destination alarm m = some (added alarms m)
destination dev_config m = some (added devconfigs m)
destination base_config m = some (added base_configs m)
destination runmode_config m = some (added runmode_configs m)
destination calibration m = some (added calibrations m)
destination rootplot m = some (added rootplots m)
destination plotlyplot m = some (added plotlyplots m)
destination generic m = some noted
destination _ m = none

-- The topic is the third character of its message part.
unfoldable pub topic_of : ZmqQuery → Option QueryTopic
topic_of q = elim (get_elem? (topic q) 2) [ none ↦ none | some c ↦ query_topic c ]

abbrev pub destination_of : Option QueryTopic → Bytes → Option Fate
destination_of none m = none
destination_of (some t) m = destination t m

abbrev pub fate_of : Decoded → Option Fate
fate_of (discard q) = some dropped
fate_of (message q m) = destination_of (topic_of q) m

-- A query whose topic is one of the eight of write queries, with a message that is not empty.
pub data HasFate (d : Decoded) : Fate → Type 0 where
  is_dropped : fate_of d ≡ some dropped → HasFate d dropped
  is_noted : fate_of d ≡ some noted → HasFate d noted
  is_added :
      (t : Table) (m : Bytes) → fate_of d ≡ some (added t m) → NonEmpty m → HasFate d (added t m)

abbrev pub message_for : Table → Fate → List Bytes
message_for t dropped = []
message_for t noted = []
message_for t (added s m) = if table_eq s t then m ∷ [] else []

abbrev pub index_for : ℕ → Fate → List ℕ
index_for i dropped = []
index_for i noted = i ∷ []
index_for i (added s m) = []

abbrev pub count_for : Fate → ℕ
count_for dropped = 0
count_for noted = 0
count_for (added s m) = 1

-- The messages for table `t`, the indices of the generic queries, and the number of messages added,
-- over a batch.
unfoldable pub messages : Table → List Fate → List Bytes
messages t [] = []
messages t (f ∷ fs) = message_for t f ++ messages t fs

unfoldable pub indices : ℕ → List Fate → List ℕ
indices i [] = []
indices i (f ∷ fs) = index_for i f ++ indices (i + 1) fs

unfoldable pub added_count : List Fate → ℕ
added_count [] = 0
added_count (f ∷ fs) = count_for f + added_count fs

-- The fates of the queries of a batch, one for each.
pub data Fates (z : Zstd) : List ZmqQuery → List Fate → Type 0 where
  nil : Fates z [] []
  cons :
      {q : ZmqQuery} {qs : List ZmqQuery} {f : Fate} {fs : List Fate}
      → HasFate (decode_query z q) f
      → Fates z qs fs
      → Fates z (q ∷ qs) (f ∷ fs)
