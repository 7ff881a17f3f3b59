-- ===== src/QueryBatch.antt =====
-- DataModel/QueryBatch.h: a batch of queries, with one text buffer, one list of version numbers
-- and one error for each table. `buffer alarms` is `alarm_buffer`, and so on; alarms have no
-- version numbers, and nothing writes `version_nums alarms`.
pub mod Buffers
use services_backend.Common.{
  ℕ, Bool, true, false, not, List, [], ◌∷◌, ◌++◌, Bytes, length, is_empty, ltb, ◌==◌, if◌then◌else◌,
}
use services_backend.QueryTopic.{Table, update}
use services_backend.ZmqQuery.{ZmqQuery}

pub record QueryBatch : Type 0 where
  pub queries : List ZmqQuery
  pub buffer : Table → Bytes
  pub generic_query_indices : List ℕ
  pub version_nums : Table → List ℕ
  pub batch_err : Table → Bytes

-- A batch as its constructor leaves it.
unfoldable pub new_batch : QueryBatch
new_batch = record {
  queries = [];
  buffer = λ t. [];
  generic_query_indices = [];
  version_nums = λ t. [];
  batch_err = λ t. [];
}

unfoldable pub reset : QueryBatch → QueryBatch
reset b = record b {
  buffer = λ t. b'[' ∷ [];
  version_nums = λ t. [];
  generic_query_indices = [];
  batch_err = λ t. [];
}

-- The step of `close` for one buffer.
unfoldable pub close_buffer : Bytes → Bytes
close_buffer text = if length text == 1 then [] else text ++ b']' ∷ []

unfoldable pub close : QueryBatch → QueryBatch
unfolding close_buffer
close b = record b { buffer = λ t. close_buffer (b.buffer t) }

-- `got_alarms` to `got_rootplots`.
unfoldable pub got : Table → QueryBatch → Bool
got t b = not (is_empty (b.buffer t))

unfoldable pub got_generics : QueryBatch → Bool
got_generics b = not (is_empty b.generic_query_indices)

-- How WriteWorkers and MulticastWorkers add a message to the array that a buffer holds.
unfoldable pub append_message : Bytes → Bytes → Bytes
append_message text message =
    (if ltb 1 (length text) then text ++ b',' ∷ b' ' ∷ [] else text) ++ message
