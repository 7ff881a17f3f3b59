-- ===== src/Decode.antt =====
-- The decompression of a query in place, the first half of the loops of `WriteMessageJob` and
-- `ReadMessageJob` (WriteWorkers.cpp and ReadWorkers.cpp), which differ in their log lines only.
pub mod Bounds
use services_backend.Common.{Bool, Bytes, codes, if◌then◌else◌}
use services_backend.Zstd.{Zstd, Inflated, bad_size, too_large, corrupt, inflated, inflate}
use services_backend.ZmqQuery.{ZmqQuery, part, msg_raw, is_compressed}

-- A query that is skipped with its error set, or one with its message.
pub data Decoded : Type 0 where
  discard : ZmqQuery → Decoded
  message : ZmqQuery → Bytes → Decoded

unfoldable pub settle : ZmqQuery → Inflated → Decoded
settle q bad_size = discard (record q { err = codes "bad zstd size" })
settle q too_large = discard (record q { err = codes "zstd too large decompressed size" })
settle q (corrupt room) =
    discard (record q { decompress_buffer = room; err = codes "zstd decompression error" })
settle q (inflated filled text) = message (record q { decompress_buffer = filled }) text

unfoldable pub decode_query : Zstd → ZmqQuery → Decoded
unfolding settle msg_raw
decode_query z q =
    if is_compressed q
    then settle q (inflate z (part q 3) q.decompress_buffer)
    else message q (msg_raw q)

-- The query as the loop leaves it.
unfoldable pub decoded : Decoded → ZmqQuery
decoded (discard q) = q
decoded (message q text) = q
