-- ===== src/ResultWorkers/Answers.antt =====
-- The queries of a table get the version numbers of the table, one each and in order.
use services_backend.Common.{
  ℕ, zero, suc, ◌+◌, ◌≤◌, ◌<◌, ◌≡◌, refl, ap, Bool, true, false, Option, none, some, List, [], ◌∷◌,
  map, Bytes, arith, length, get_elem?, take, drop, is_empty, if◌then◌else◌, ok, Bool-cases, inl,
  inr,
}
use services_backend.QueryTopic.{query_topic, Table, table_eq, table_eq_refl, table_eq→eq}
use services_backend.Zstd.{Zstd}
use services_backend.ZmqQuery.{ZmqQuery, le_bytes}
use services_backend.QueryBatch.{QueryBatch}
use services_backend.ResultWorkers.{write_loop}
use services_backend.ResultWorkers.Reply.{compress_msg}
use services_backend.ResultWorkers.Rows.{Parts}
use services_backend.ResultWorkers.Versions.{
  table_for, Effect, plain, numbered, refused, HasNumber, write_reply-Replies,
}

-- Write queries as they were received, with the table of each.
pub data Asked : List ZmqQuery → List (Option Table) → Type 0 where
  nil : Asked [] []
  cons :
      {q : ZmqQuery} {qs : List ZmqQuery} {os : List (Option Table)} (code : ℕ) (c i s m : Bytes)
      → Parts q c i s (m ∷ [])
      → get_elem? s 2 ≡ some code
      → Asked qs os
      → Asked (q ∷ qs) (table_for (query_topic code) ∷ os)

abbrev pub is_for : Table → Option Table → Bool
is_for t none = false
is_for t (some u) = table_eq u t

-- The number of queries of a table.
unfoldable pub count : Table → List (Option Table) → ℕ
count t [] = 0
count t (o ∷ os) = if is_for t o then suc (count t os) else count t os

-- The success flag and rows of the replies to the queries of a table, in order.
unfoldable pub replies_of : Table → List (Option Table) → List ZmqQuery → List (List Bytes)
replies_of t (o ∷ os) (r ∷ rs) =
    if is_for t o then drop 2 r.parts ∷ replies_of t os rs else replies_of t os rs
replies_of t os rs = []

abbrev pub with_number : ℕ → List Bytes
with_number v = le_bytes 4 1 ∷ le_bytes 2 v ∷ []

abbrev repeat_reply : ℕ → List Bytes → List (List Bytes)
repeat_reply zero r = []
repeat_reply (suc n) r = r ∷ repeat_reply n r

-- The replies that `n` queries of a table should get, when `start` numbers have been given out: 1
-- and the next number each, or 0 and the error of the batch, if the insertion gave no numbers.
abbrev pub expected : Zstd → QueryBatch → Table → ℕ → ℕ → List (List Bytes)
expected z b t start n =
    if is_empty (b.version_nums t)
    then repeat_reply n (le_bytes 4 0 ∷ compress_msg z (b.batch_err t) ∷ [])
    else map with_number (take n (drop start (b.version_nums t)))

-- Every table whose insertion gave numbers has one for each query that is left.
abbrev pub Enough : QueryBatch → (Table → ℕ) → List (Option Table) → Type 0
Enough b next os =
    (t : Table)
    → is_empty (b.version_nums t) ≡ false
    → next t + count t os ≤ length (b.version_nums t)

pub in_range : (xs : List ℕ) (i : ℕ) → i < length xs → (v : ℕ) × (get_elem? xs i ≡ some v)
in_range [] i h = absurd (omega arith)
in_range (x ∷ xs) zero h = (x, refl)
in_range (x ∷ xs) (suc i) h = in_range xs i (omega arith)

take-drop_next :
    (xs : List ℕ) (i n v : ℕ)
    → get_elem? xs i ≡ some v
    → take (suc n) (drop i xs) ≡ v ∷ take n (drop (suc i) xs)
take-drop_next [] i n v h = ground arith
take-drop_next (x ∷ xs) zero n v h = ground arith
take-drop_next (x ∷ xs) (suc i) n v h = take-drop_next xs i n v h

Enough-HasNumber :
    (b : QueryBatch) (next : Table → ℕ) (o : Option Table) (os : List (Option Table))
    → Enough b next (o ∷ os)
    → HasNumber b next o
unfolding count
Enough-HasNumber b next o os enough t e some_left =
    let more : next t + suc (count t os) ≤ length (b.version_nums t) =
      rw (e, table_eq_refl t) at (enough t some_left) in
    in_range (b.version_nums t) (next t) (omega arith)

module _ (z : Zstd) (b : QueryBatch) (next next' : Table → ℕ) (o : Option Table)
    (os : List (Option Table)) (flag : Bytes) (rows : List Bytes) where
  Effect-Enough : Effect z b next o flag rows next' → Enough b next (o ∷ os) → Enough b next' os
  unfolding count
  Effect-Enough (plain e n) enough t some_left = rw n (rw e at (enough t some_left))
  Effect-Enough (numbered u v e left got f r n) enough t some_left =
      let whole = rw e at (enough t some_left) in
      rw n (elim (Bool-cases (table_eq u t)) [
        | inl same ↦
            let at_t : next u ≡ next t = ap next (table_eq→eq u t same) in
            rw same (omega (arith, at_t, rw same at whole))
        | inr other ↦ rw other (rw other at whole)
      ])
  Effect-Enough (refused u e bare f r n) enough t some_left =
      let whole = rw e at (enough t some_left) in
      rw n (elim (Bool-cases (table_eq u t)) [
        | inl same ↦ omega (arith, rw same at whole)
        | inr other ↦ rw other at whole
      ])

  -- The replies to the queries of a table, with the first reply, from the other ones.
  Effect-replies :
      (c i : Bytes) (t : Table) (r : ZmqQuery) (rs : List ZmqQuery)
      → Parts r c i flag rows
      → Effect z b next o flag rows next'
      → replies_of t os rs ≡ expected z b t (next' t) (count t os)
      → replies_of t (o ∷ os) (r ∷ rs) ≡ expected z b t (next t) (count t (o ∷ os))
  unfolding count replies_of
  Effect-replies c i t r rs h (plain e n) rest = rw (e, ← n) rest
  Effect-replies c i t r rs h (numbered u v e left got f rs' n) rest =
      elim (Bool-cases (table_eq u t)) [
        | inl same ↦
            let is_t : u ≡ t = table_eq→eq u t same in
            let next_up : next t + 1 ≡ suc (next t) = omega arith in
            let nums : is_empty (b.version_nums t) ≡ false = rw is_t at left in
            let first : get_elem? (b.version_nums t) (next t) ≡ some v = rw is_t at got in
            let later : replies_of t os rs ≡ expected z b t (suc (next t)) (count t os) =
              rw (n, same, is_t, next_up) at rest in
            rw
              (
                e,
                same,
                h,
                f,
                rs',
                nums,
                take-drop_next (b.version_nums t) (next t) (count t os) v first,
              )
              (ap (◌∷◌ (with_number v)) (rw nums at later))
        | inr other ↦ rw (e, other) (rw (n, other) at rest)
      ]
  Effect-replies c i t r rs h (refused u e bare f rs' n) rest = elim (Bool-cases (table_eq u t)) [
    | inl same ↦
        let is_t : u ≡ t = table_eq→eq u t same in
        let none_left : is_empty (b.version_nums t) ≡ true = rw is_t at bare in
        let later = rw (n, none_left) at rest in
        rw (e, same, h, f, rs', is_t, none_left)
          (ap (◌∷◌ (le_bytes 4 0 ∷ compress_msg z (b.batch_err t) ∷ [])) later)
    | inr other ↦ rw (e, other) (rw n at rest)
  ]

-- The sender of a query, and its number.
abbrev pub sender_of : ZmqQuery → List Bytes
sender_of q = take 2 q.parts

-- If every table whose insertion gave version numbers has one for each of its queries, then the
-- loop over a batch of write queries does not fault. Each reply goes to the sender of its query
-- under its number, and the queries of each table get the table's version numbers, one each and in
-- order, or the error of the batch, if the insertion gave none. The loop starts at the indices
-- `next`.
pub write_loop-versions :
    (z : Zstd) (b : QueryBatch) (qs : List ZmqQuery) (os : List (Option Table)) (next : Table → ℕ)
    (n : ℕ)
    → Asked qs os
    → Enough b next os
    → (rs : List ZmqQuery) × (n' : ℕ) × (write_loop z b qs next n ≡ ok (rs, n'))
      × (map sender_of rs ≡ map sender_of qs)
      × ((t : Table) → replies_of t os rs ≡ expected z b t (next t) (count t os))
unfolding write_loop
write_loop-versions z b qs os next n nil enough =
    ([], n, refl, refl, λ t. unfold count replies_of in nothing t)
  where
    nothing : (t : Table) → [] ≡ expected z b t (next t) 0
    nothing t = ground arith
write_loop-versions z b (q ∷ qs) (o ∷ os) next n (cons code c i s m h e hs) enough =
    let (r, next', n', flag, rows, first, parts, effect) =
      write_reply-Replies z b next q n code c i s m h e (Enough-HasNumber b next o os enough) in
    let (rs, n'', rest, senders, answers) =
      write_loop-versions z b qs os next' n' hs
        (Effect-Enough z b next next' o os flag rows effect enough) in
    (
      r ∷ rs,
      n'',
      rw first (rw rest refl),
      rw (parts, h, senders) refl,
      λ t. Effect-replies z b next next' o os flag rows c i t r rs parts effect (answers t),
    )
