-- ===== src/ResultWorkers/Reply.antt =====
-- UserTools/ResultWorkers/ResultWorkers.cpp: the reply to one query, the body of the two loops of
-- `ResultJob`, and `CompressMsg`.
use services_backend.Common.{
  ℕ, ◌+◌, Bool, true, false, Option, none, some, List, [], ◌∷◌, ◌++◌, Bytes, codes, get_elem?,
  length, is_empty, bytes_eq, if◌then◌else◌, ◌==◌, ◌||◌, not, Outcome, ok, index_out_of_range,
  ◌>>=◌, or_fault,
}
use services_backend.QueryTopic.{
  QueryTopic, alarm, dev_config, base_config, runmode_config, cached_config, calibration, rootplot,
  plotlyplot, generic, query_topic, Table, alarms, devconfigs, base_configs, runmode_configs,
  calibrations, plotlyplots, rootplots, update,
}
use services_backend.Zstd.{Zstd}
use services_backend.ZmqQuery.{
  ZmqQuery, Row, Field, topic, msg, set_success, set_response_rows, set_response, set_response_num,
  clear,
}
use services_backend.QueryBatch.{QueryBatch}

-- `CompressMsg`: without a context, or on an error, the message itself.
unfoldable pub compress_msg : Zstd → Bytes → Bytes
compress_msg z text = elim (z.compress text) [ none ↦ text | some packed ↦ packed ]

-- A reply of one row.
unfoldable pub one_row : ℕ → Bytes → ZmqQuery → ZmqQuery
unfolding set_success set_response_rows set_response
one_row succeeded text q = set_response 0 text (set_response_rows 1 (set_success succeeded q))

unfoldable pub failure : Zstd → Bytes → ZmqQuery → ZmqQuery
unfolding one_row
failure z text q = one_row 0 (compress_msg z text) q

-- `cached_configs`, a `std::map`: `count` and `[]`.
unfoldable pub find_config : Bytes → List (Bytes × Bytes) → Option Bytes
find_config key [] = none
find_config key ((k, v) ∷ m) = if bytes_eq k key then some v else find_config key m

unfoldable pub cached_reply : Zstd → List (Bytes × Bytes) → ZmqQuery → ZmqQuery
cached_reply z cache q = elim (find_config (msg q) cache) [
  | some config ↦ one_row 1 (compress_msg z config) q
  | none ↦ failure z (codes "no cached configuration for this device!") q
]

-- Copies the text that `read` finds in each row into a part of the reply, from row `i` on. The
-- flag is set if an access threw, and then the rest was not reached.
unfoldable pub copy_rows : Zstd → (Row → Option Bytes) → ℕ → List Row → ZmqQuery → Bool × ZmqQuery
copy_rows z read i [] q = (false, q)
copy_rows z read i (r ∷ rs) q = elim (read r) [
  | none ↦ (true, q)
  | some text ↦ copy_rows z read (i + 1) rs (set_response i (compress_msg z text) q)
]

-- The reply with all rows of the result; on an exception, one row with the error `text`.
unfoldable pub result_reply : Zstd → (Row → Option Bytes) → Bytes → ZmqQuery → ℕ → ZmqQuery × ℕ
result_reply z read text q n =
    let copied =
      copy_rows z read 0 q.result (set_response_rows (length q.result) (set_success 1 q)) in
    if copied.0 then (failure z text copied.1, n + 1) else (copied.1, n)

-- The reply to a query that went to the database; `n` counts the result access errors.
unfoldable pub database_reply : Zstd → ZmqQuery → ℕ → ZmqQuery × ℕ
database_reply z q n =
    if not (is_empty q.err)
    then (failure z q.err q, n)
    else (let r = result_reply z (λ row. row.first) (codes "error accessing query result") q n in
        (clear r.0, r.1))

unfoldable pub read_topic_reply :
    Zstd → List (Bytes × Bytes) → Option QueryTopic → ZmqQuery → ℕ → ZmqQuery × ℕ
read_topic_reply z cache (some cached_config) q n = (cached_reply z cache q, n)
read_topic_reply z cache _ q n = database_reply z q n

-- The body of the loop over read queries.
unfoldable pub read_reply : Zstd → List (Bytes × Bytes) → ZmqQuery → ℕ → Outcome (ZmqQuery × ℕ)
read_reply z cache q n = or_fault (get_elem? (topic q) 2) index_out_of_range >>= λ c.
    ok (read_topic_reply z cache (query_topic c) q n)

-- Text fields are quoted: the oids of char, text, bpchar and varchar.
unfoldable pub is_text : ℕ → Bool
is_text oid = oid == 18 || (oid == 25 || (oid == 1042 || oid == 1043))

unfoldable pub json_field : Field → Bytes
unfolding is_text
json_field f =
    b'"'
    ∷ (f.name ++ b'"' ∷ b':' ∷ (if is_text f.oid then b'"' ∷ (f.c_str ++ b'"' ∷ []) else f.c_str))

unfoldable pub json_fields : Bool → List Field → Bytes
unfolding json_field
json_fields first [] = b'}' ∷ []
json_fields first (f ∷ fs) =
    (if first then [] else b',' ∷ b' ' ∷ []) ++ (json_field f ++ json_fields false fs)

-- `tmpval`: the row as a JSON object.
unfoldable pub json_row : Row → Option Bytes
json_row r = elim r.fields [ none ↦ none | some fs ↦ some (b'{' ∷ json_fields true fs) ]

-- The table of a topic whose insertions return version numbers.
unfoldable pub versioned : QueryTopic → Option Table
versioned dev_config = some devconfigs
versioned base_config = some base_configs
versioned runmode_config = some runmode_configs
versioned calibration = some calibrations
versioned plotlyplot = some plotlyplots
versioned rootplot = some rootplots
versioned _ = none

-- The reply to an insertion into `t`: the next version number, or the batch's error.
unfoldable pub version_reply :
    Zstd → QueryBatch → Table → (Table → ℕ) → ZmqQuery → Outcome (ZmqQuery × (Table → ℕ))
version_reply z b t next q =
    if not (is_empty (b.version_nums t))
    then (or_fault (get_elem? (b.version_nums t) (next t)) index_out_of_range >>= λ v. ok (
      set_response_num 2 0 v (set_response_rows 1 (set_success 1 q)),
      update next t (next t + 1),
    ))
    else ok (failure z (b.batch_err t) q, next)

unfoldable pub alarm_reply : QueryBatch → ZmqQuery → ZmqQuery
alarm_reply b q =
    set_response_rows 0 (set_success (if is_empty (b.batch_err alarms) then 1 else 0) q)

unfoldable pub generic_reply : Zstd → ZmqQuery → ℕ → ZmqQuery × ℕ
generic_reply z q n =
    if not (is_empty q.err)
    then (failure z q.err q, n)
    else result_reply z json_row (codes "Error accessing query result") q n

-- The body of the loop over write queries.
unfoldable pub topic_reply :
    Zstd
    → QueryBatch
    → (Table → ℕ)
    → Option QueryTopic
    → ZmqQuery
    → ℕ
    → Outcome (ZmqQuery × (Table → ℕ) × ℕ)
topic_reply z b next none q n = ok (q, next, n)
topic_reply z b next (some alarm) q n = ok (alarm_reply b q, next, n)
topic_reply z b next (some generic) q n = let r = generic_reply z q n in ok (r.0, next, r.1)
topic_reply z b next (some topic) q n = elim (versioned topic) [
  | none ↦ ok (q, next, n)
  | some t ↦ version_reply z b t next q >>= λ r. ok (r.0, r.1, n)
]

unfoldable pub write_reply :
    Zstd → QueryBatch → (Table → ℕ) → ZmqQuery → ℕ → Outcome (ZmqQuery × (Table → ℕ) × ℕ)
write_reply z b next q n = or_fault (get_elem? (topic q) 2) index_out_of_range >>= λ c.
    topic_reply z b next (query_topic c) q n >>= λ r. ok (clear r.0, r.1, r.2)
