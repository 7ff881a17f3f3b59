-- ===== src/ResultWorkers/Overdrawn.antt =====
-- More queries of a table than version numbers.
use services_backend.Common.{
  ℕ, zero, suc, ◌+◌, ◌≤◌, ◌<◌, ◌≡◌, refl, ap, true, false, Option, none, some, List, [], ◌∷◌, Bytes,
  arith, length, get_elem?, is_empty, Outcome, ok, fault, index_out_of_range, ◌>>=◌, Bool-cases,
  inl, inr, Option-cases,
}
use services_backend.QueryTopic.{
  QueryTopic, alarm, generic, query_topic, Table, table_eq, table_eq→eq,
}
use services_backend.Zstd.{Zstd}
use services_backend.ZmqQuery.{ZmqQuery}
use services_backend.QueryBatch.{QueryBatch}
use services_backend.Jobs.{ResultJobStruct}
use services_backend.ResultWorkers.{
  ResultState, write_loop, is_read_batch, reply_loop, result_job_func,
}
use services_backend.ResultWorkers.Reply.{versioned, version_reply, topic_reply, write_reply}
use services_backend.ResultWorkers.Rows.{Parts}
use services_backend.ResultWorkers.Routing.{topic-Parts}
use services_backend.ResultWorkers.Versions.{
  table_for, Effect, plain, numbered, refused, HasNumber, write_reply-Replies,
}
use services_backend.ResultWorkers.Answers.{Asked, nil, cons, count}

-- The table has given out no more numbers than it has, and fewer are left than queries.
abbrev pub IsOverdrawn : QueryBatch → (Table → ℕ) → Table → List (Option Table) → Type 0
IsOverdrawn b next t os =
    (is_empty (b.version_nums t) ≡ false)
    × (next t ≤ length (b.version_nums t))
    × (length (b.version_nums t) < next t + count t os)

found-in_range : (xs : List ℕ) (i v : ℕ) → get_elem? xs i ≡ some v → i < length xs
found-in_range [] i v h = ground arith
found-in_range (x ∷ xs) zero v h = omega arith
found-in_range (x ∷ xs) (suc i) v h = omega (arith, found-in_range xs i v h)

table_reply_some :
    (z : Zstd) (b : QueryBatch) (next : Table → ℕ) (o : Option Table) (t : Table) (q : ZmqQuery)
    (n : ℕ)
    → o ≡ some t
    → (elim o as (λ _. Outcome (ZmqQuery × (Table → ℕ) × ℕ)) [
      | none ↦ ok (q, next, n)
      | some u ↦ version_reply z b u next q >>= λ r. ok (r.0, r.1, n)
    ])
      ≡ (version_reply z b t next q >>= λ r. ok (r.0, r.1, n))
table_reply_some z b next o t q n h = rw h refl

topic_reply-table :
    (z : Zstd) (b : QueryBatch) (next : Table → ℕ) (o : Option QueryTopic) (t : Table)
    (q : ZmqQuery) (n : ℕ)
    → table_for o ≡ some t
    → topic_reply z b next o q n ≡ (version_reply z b t next q >>= λ r. ok (r.0, r.1, n))
unfolding topic_reply versioned
topic_reply-table z b next none t q n h = ground arith
topic_reply-table z b next (some alarm) t q n h = ground arith
topic_reply-table z b next (some generic) t q n h = ground arith
topic_reply-table z b next (some o) t q n h = table_reply_some z b next (versioned o) t q n h

write_reply-none_left :
    (z : Zstd) (b : QueryBatch) (next : Table → ℕ) (q : ZmqQuery) (n code : ℕ) (c i s m : Bytes)
    (t : Table)
    → Parts q c i s (m ∷ [])
    → get_elem? s 2 ≡ some code
    → table_for (query_topic code) ≡ some t
    → is_empty (b.version_nums t) ≡ false
    → get_elem? (b.version_nums t) (next t) ≡ none
    → write_reply z b next q n ≡ fault index_out_of_range
unfolding write_reply version_reply
write_reply-none_left z b next q n code c i s m t h e k nonempty gone =
    rw (topic-Parts q h, e, topic_reply-table z b next (query_topic code) t q n k)
      (rw (nonempty, gone) refl)

-- Whether the query's table has a number left, if it has any.
data Supply (b : QueryBatch) (next : Table → ℕ) (o : Option Table) : Type 0 where
  supplied : HasNumber b next o → Supply b next o
  gone :
      (t : Table)
      → o ≡ some t
      → is_empty (b.version_nums t) ≡ false
      → get_elem? (b.version_nums t) (next t) ≡ none
      → Supply b next o

supply : (b : QueryBatch) (next : Table → ℕ) (o : Option Table) → Supply b next o
supply b next none = supplied (λ t h. ground arith)
supply b next (some u) = elim (Option-cases (get_elem? (b.version_nums u) (next u))) [
  | inr (v, e) ↦ supplied (λ t h nonempty. let same : u ≡ t = ground arith in rw (← same) (v, e))
  | inl e ↦ elim (Bool-cases (is_empty (b.version_nums u))) [
    | inl bare ↦ supplied (λ t h nonempty. let same : u ≡ t = ground arith in ground arith)
    | inr nonempty ↦ gone u refl nonempty e
  ]
]

module _ (z : Zstd) (b : QueryBatch) (next next' : Table → ℕ) (o : Option Table)
    (os : List (Option Table)) (flag : Bytes) (rows : List Bytes) (t : Table) where
  Effect-IsOverdrawn :
      Effect z b next o flag rows next' → IsOverdrawn b next t (o ∷ os) → IsOverdrawn b next' t os
  unfolding count
  Effect-IsOverdrawn (plain e n) (some_left, few, over) = rw n (some_left, few, rw e at over)
  Effect-IsOverdrawn (numbered u v e nonempty got f r n) (some_left, few, over) =
      let whole = rw e at over in
      rw n (elim (Bool-cases (table_eq u t)) [
        | inl same ↦
            let at_t : next u ≡ next t = ap next (table_eq→eq u t same) in
            let given : next t < length (b.version_nums t) =
              rw (table_eq→eq u t same) at (found-in_range (b.version_nums u) (next u) v got) in
            rw same (some_left, omega (arith, at_t, given), omega (arith, at_t, rw same at whole))
        | inr other ↦ rw other (some_left, few, rw other at whole)
      ])
  Effect-IsOverdrawn (refused u e bare f r n) (some_left, few, over) =
      let whole = rw e at over in
      rw n (elim (Bool-cases (table_eq u t)) [
        | inl same ↦
            let bare_t : is_empty (b.version_nums t) ≡ true = rw (table_eq→eq u t same) at bare in
            ground arith
        | inr other ↦ (some_left, few, rw other at whole)
      ])

write_loop-overdrawn :
    (z : Zstd) (b : QueryBatch) (qs : List ZmqQuery) (os : List (Option Table)) (next : Table → ℕ)
    (n : ℕ) (t : Table)
    → Asked qs os
    → IsOverdrawn b next t os
    → write_loop z b qs next n ≡ fault index_out_of_range
unfolding write_loop count
write_loop-overdrawn z b qs os next n t nil (some_left, few, over) = absurd (omega arith)
write_loop-overdrawn z b (q ∷ qs) (o ∷ os) next n t (cons code c i s m h e hs) over =
    elim (supply b next o) [
      | gone u k nonempty none_left ↦
          rw (write_reply-none_left z b next q n code c i s m u h e k nonempty none_left) refl
      | supplied has ↦
          let (r, next', n', flag, rows, first, parts, effect) =
            write_reply-Replies z b next q n code c i s m h e has in
          let rest =
            write_loop-overdrawn z b qs os next' n' t hs
              (Effect-IsOverdrawn z b next next' o os flag rows t effect over) in
          rw first (rw rest refl)
    ]

-- If a table's insertion gave version numbers, but fewer than the batch has queries of the table,
-- then the result job reads past the end of the numbers. A query that was discarded before the
-- insertion counts, since the reply to a write query does not look at its error.
pub result_job_func-overdrawn :
    (z : Zstd) (st : ResultState) (args : ResultJobStruct) (os : List (Option Table)) (t : Table)
    → is_read_batch args.batch.queries ≡ ok false
    → Asked args.batch.queries os
    → is_empty (args.batch.version_nums t) ≡ false
    → length (args.batch.version_nums t) < count t os
    → result_job_func z st args ≡ fault index_out_of_range
unfolding result_job_func reply_loop
result_job_func-overdrawn z st args os t write asked some_left over =
    let loop =
      write_loop-overdrawn z args.batch args.batch.queries os (λ u. 0)
        st.monitoring_vars.result_access_errors t asked (some_left, omega arith, omega arith) in
    rw write (rw loop refl)
