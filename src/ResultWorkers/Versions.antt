-- ===== src/ResultWorkers/Versions.antt =====
-- What the reply to one write query holds, and what it does to the indices of the version numbers.
use services_backend.Common.{
  ℕ, ◌+◌, ◌≡◌, refl, true, false, Option, none, some, List, [], ◌∷◌, Bytes, get_elem?, is_empty,
  not, if◌then◌else◌, codes, Outcome, ok, ◌>>=◌, Bool-cases, inl, inr,
}
use services_backend.QueryTopic.{QueryTopic, alarm, generic, query_topic, Table, alarms, update}
use services_backend.Zstd.{Zstd}
use services_backend.ZmqQuery.{
  ZmqQuery, le_bytes, set_success, set_response_rows, set_response_num, clear,
}
use services_backend.QueryBatch.{QueryBatch}
use services_backend.ResultWorkers.Reply.{
  compress_msg, failure, json_row, versioned, version_reply, alarm_reply, generic_reply,
  topic_reply, write_reply,
}
use services_backend.ResultWorkers.Rows.{
  Parts, set_success-Parts, set_response_rows-Parts, set_response-Parts, one_row-Parts,
  result_reply-Parts,
}
use services_backend.ResultWorkers.Routing.{topic-Parts}

abbrev pub table_for : Option QueryTopic → Option Table
table_for none = none
table_for (some o) = versioned o

-- The reply to a query with a version number: flag, rows and the indices afterwards. A query of a
-- table whose insertion gave numbers takes the next one; one of a table without numbers gets the
-- error of its batch; other queries leave the indices.
pub data Effect (z : Zstd) (b : QueryBatch) (next : Table → ℕ) (o : Option Table) (flag : Bytes)
    (rows : List Bytes) (next' : Table → ℕ) : Type 0 where
  plain : o ≡ none → next' ≡ next → Effect z b next o flag rows next'
  numbered :
      (t : Table) (v : ℕ)
      → o ≡ some t
      → is_empty (b.version_nums t) ≡ false
      → get_elem? (b.version_nums t) (next t) ≡ some v
      → flag ≡ le_bytes 4 1
      → rows ≡ le_bytes 2 v ∷ []
      → next' ≡ update next t (next t + 1)
      → Effect z b next o flag rows next'
  refused :
      (t : Table)
      → o ≡ some t
      → is_empty (b.version_nums t) ≡ true
      → flag ≡ le_bytes 4 0
      → rows ≡ compress_msg z (b.batch_err t) ∷ []
      → next' ≡ next
      → Effect z b next o flag rows next'

-- The outcome of a step: the reply, the indices and the count of access errors.
abbrev pub Replies :
    Zstd
    → QueryBatch
    → (Table → ℕ)
    → Option Table
    → Bytes
    → Bytes
    → Outcome (ZmqQuery × (Table → ℕ) × ℕ)
    → Type 0
Replies z b next o c i out =
    (r : ZmqQuery) × (next' : Table → ℕ) × (n' : ℕ) × (flag : Bytes) × (rows : List Bytes) × (out
      ≡ ok (r, next', n'))
    × Parts r c i flag rows
    × Effect z b next o flag rows next'

-- The table of the query has a version number left, if it has any.
abbrev pub HasNumber : QueryBatch → (Table → ℕ) → Option Table → Type 0
HasNumber b next o =
    (t : Table)
    → o ≡ some t
    → is_empty (b.version_nums t) ≡ false
    → (v : ℕ) × (get_elem? (b.version_nums t) (next t) ≡ some v)

version_reply-Replies :
    (z : Zstd) (b : QueryBatch) (next : Table → ℕ) (t : Table) (q : ZmqQuery) (n : ℕ)
    (c i s m : Bytes)
    → Parts q c i s (m ∷ [])
    → HasNumber b next (some t)
    → Replies z b next (some t) c i (version_reply z b t next q >>= λ r. ok (r.0, r.1, n))
unfolding version_reply
version_reply-Replies z b next t q n c i s m h left =
    elim (Bool-cases (is_empty (b.version_nums t))) [
      | inl bare ↦ (
        failure z (b.batch_err t) q,
        next,
        n,
        le_bytes 4 0,
        compress_msg z (b.batch_err t) ∷ [],
        rw bare refl,
        unfold failure in one_row-Parts 0 _ q h,
        refused t refl bare refl refl refl,
      )
      | inr some_left ↦
          let (v, e) = left t refl some_left in
          (
            set_response_num 2 0 v (set_response_rows 1 (set_success 1 q)),
            update next t (next t + 1),
            n,
            le_bytes 4 1,
            le_bytes 2 v ∷ [],
            rw some_left (rw e refl),
            unfold set_response_num in
                set_response-Parts 0 (le_bytes 2 v) (set_response_rows 1 (set_success 1 q))
                  (set_response_rows-Parts 1 (set_success 1 q) (set_success-Parts 1 q h)),
            numbered t v refl some_left e refl refl refl,
          )
    ]

generic_reply-Parts :
    (z : Zstd) (q : ZmqQuery) (n : ℕ) (c i s m : Bytes)
    → Parts q c i s (m ∷ [])
    → (flag : Bytes) × (rows : List Bytes) × Parts (generic_reply z q n).0 c i flag rows
unfolding generic_reply
generic_reply-Parts z q n c i s m h = elim (Bool-cases (not (is_empty q.err))) [
  | inl bad ↦ rw bad (
    le_bytes 4 0,
    compress_msg z q.err ∷ [],
    unfold failure in one_row-Parts 0 (compress_msg z q.err) q h,
  )
  | inr good ↦
      rw good (
        _,
        _,
        (result_reply-Parts z json_row (codes "Error accessing query result") q n c i s m h).0,
      )
]

-- The reply to a query of a table, or of a topic that has none here.
table_reply-Replies :
    (z : Zstd) (b : QueryBatch) (next : Table → ℕ) (o : Option Table) (q : ZmqQuery) (n : ℕ)
    (c i s m : Bytes)
    → Parts q c i s (m ∷ [])
    → HasNumber b next o
    → Replies z b next o c i (elim o [
      | none ↦ ok (q, next, n)
      | some t ↦ version_reply z b t next q >>= λ r. ok (r.0, r.1, n)
    ])
table_reply-Replies z b next none q n c i s m h left =
    (q, next, n, s, m ∷ [], refl, h, plain refl refl)
table_reply-Replies z b next (some t) q n c i s m h left =
    version_reply-Replies z b next t q n c i s m h left

topic_reply-Replies :
    (z : Zstd) (b : QueryBatch) (next : Table → ℕ) (o : Option QueryTopic) (q : ZmqQuery) (n : ℕ)
    (c i s m : Bytes)
    → Parts q c i s (m ∷ [])
    → HasNumber b next (table_for o)
    → Replies z b next (table_for o) c i (topic_reply z b next o q n)
unfolding topic_reply versioned
topic_reply-Replies z b next none q n c i s m h left =
    (q, next, n, s, m ∷ [], refl, h, plain refl refl)
topic_reply-Replies z b next (some alarm) q n c i s m h left =
    let k : ℕ = if is_empty (b.batch_err alarms) then 1 else 0 in
    (
      alarm_reply b q,
      next,
      n,
      le_bytes 4 k,
      [],
      refl,
      unfold alarm_reply in set_response_rows-Parts 0 (set_success k q) (set_success-Parts k q h),
      plain refl refl,
    )
topic_reply-Replies z b next (some generic) q n c i s m h left =
    let (flag, rows, parts) = generic_reply-Parts z q n c i s m h in
    (
      (generic_reply z q n).0,
      next,
      (generic_reply z q n).1,
      flag,
      rows,
      refl,
      parts,
      plain refl refl,
    )
topic_reply-Replies z b next (some o) q n c i s m h left =
    table_reply-Replies z b next (versioned o) q n c i s m h left

pub write_reply-Replies :
    (z : Zstd) (b : QueryBatch) (next : Table → ℕ) (q : ZmqQuery) (n code : ℕ) (c i s m : Bytes)
    → Parts q c i s (m ∷ [])
    → get_elem? s 2 ≡ some code
    → HasNumber b next (table_for (query_topic code))
    → Replies z b next (table_for (query_topic code)) c i (write_reply z b next q n)
unfolding write_reply
write_reply-Replies z b next q n code c i s m h e left =
    let (r, next', n', flag, rows, run, parts, effect) =
      topic_reply-Replies z b next (query_topic code) q n c i s m h left in
    (
      clear r,
      next',
      n',
      flag,
      rows,
      rw (topic-Parts q h, e) (rw run refl),
      unfold clear in parts,
      effect,
    )
