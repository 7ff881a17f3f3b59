-- ===== src/Tests/Data.antt =====
-- The inputs that the tests share.
use services_backend.Common.{ℕ, ◌≡◌, none, some, List, [], ◌∷◌, Bytes, codes, length, drop, arith}
use services_backend.Zstd.{Zstd, known_size, error_size}
use services_backend.ZmqQuery.{ZmqQuery}
use services_backend.QueryBatch.{QueryBatch}
use services_backend.DataModel.{DataModel}
use services_backend.Distributor.{Pools}
use services_backend.Distributor.Order.{IsUnshared}

pub toy_exact :
    (n : ℕ) (source out : Bytes)
    → known_size (length (drop 4 source)) ≡ known_size n
    → some (drop 4 source) ≡ some out
    → length out ≡ n
toy_exact n source out e f = ground arith

-- A decompressor that drops the four magic bytes, and a compressor that always fails.
abbrev pub toy : Zstd
toy = record {
  content_size = λ source. known_size (length (drop 4 source));
  decompress = λ n source. some (drop 4 source);
  compress = λ text. none;
  decompress_exact = toy_exact;
}

pub failing_exact :
    (n : ℕ) (source out : Bytes)
    → error_size ≡ known_size n
    → some source ≡ some out
    → length out ≡ n
failing_exact n source out e f = ground arith

-- A decompressor that finds no frame.
abbrev pub failing : Zstd
failing = record {
  content_size = λ source. error_size;
  decompress = λ n source. some source;
  compress = λ text. none;
  decompress_exact = failing_exact;
}

abbrev pub magic : Bytes → Bytes
magic text = 0x28 ∷ 0xB5 ∷ 0x2F ∷ 0xFD ∷ text

abbrev pub query : Bytes → Bytes → ZmqQuery
query topic message = record {
  parts = codes "client" ∷ (7 ∷ 0 ∷ 0 ∷ 0 ∷ []) ∷ topic ∷ message ∷ [];
  decompress_buffer = [];
  result = [];
  err = [];
}

abbrev pub batch : List ZmqQuery → QueryBatch
batch qs = record {
  queries = qs;
  buffer = λ t. [];
  generic_query_indices = [];
  version_nums = λ t. [];
  batch_err = λ t. [];
}

abbrev pub no_data : DataModel
no_data = record {
  cached_configs = (codes "dev1", codes "{}") ∷ [];
  job_queue = [];
  multicast_buffer_pool = [];
  in_multicast_msg_queue = [];
  out_log_msg_queue = [];
  out_mon_msg_queue = [];
  querybatch_pool = [];
  write_msg_queue = [];
  read_msg_queue = [];
  query_replies = [];
  multicast_batch_pool = [];
  log_query_queue = [];
  mon_query_queue = [];
  rootplot_query_queue = [];
  plotlyplot_query_queue = [];
  write_query_queue = [];
  read_query_queue = [];
  query_results = [];
}

-- Pools that give a new struct in each round.
abbrev pub numbered : Pools
numbered = record { carried = λ i. none; get_new = λ i. i }

pub numbered-IsUnshared : IsUnshared numbered
numbered-IsUnshared i k less same = omega arith
