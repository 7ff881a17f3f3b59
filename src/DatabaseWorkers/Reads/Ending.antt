-- ===== src/DatabaseWorkers/Reads/Ending.antt =====
-- The loop over a batch of read queries ends, and keeps the queries.
use services_backend.Common.{
  ℕ, length-drop, zero, suc, ◌+◌, ◌-◌, ◌%◌, ◌^◌, ◌≤◌, ◌<◌, ◌≡◌, refl, sym, ap, ◌∙◌, Bool, true,
  false, Option, none, some, List, [], ◌∷◌, length, drop, get_elem?, ok, IfOk, IfOk->>=, IfOk-then,
  IfOk-map, IfOk-or_fault, index_out_of_range, ◌>>=◌, or_fault, arith,
}
use services_backend.ZmqQuery.{ZmqQuery}
use services_backend.DatabaseWorkers.Reads.{
  Answer, result_of, raised, Pipeline, ReadLoop, is_skipped, submit_ids, retrieve, keep_result,
  keep_error, pull, read_round,
}
use services_backend.DatabaseWorkers.Reads.Batches.{read_rounds, parts_of, parts_of-set}

length-parts_of : (qs : List ZmqQuery) → length (parts_of qs) ≡ length qs
unfolding parts_of
length-parts_of [] = refl
length-parts_of (q ∷ qs) = omega (arith, length-parts_of qs)

-- After a round that started at `last_i`: the queries are the same but for results and errors, and a
-- further round starts later, within the batch.
abbrev Later : ℕ → ℕ → Option ℕ → Type 0
Later last_i size none = Unit
Later last_i size (some next_i) = (last_i < next_i) × (next_i ≤ size)

abbrev Moves : ℕ → ReadLoop → ReadLoop × Option ℕ → Type 0
Moves last_i s r = (parts_of r.0.queries ≡ parts_of s.queries) × Later last_i (length s.queries) r.1

same_size : (qs qs' : List ZmqQuery) → parts_of qs ≡ parts_of qs' → length qs ≡ length qs'
same_size qs qs' e = sym (length-parts_of qs) ∙ ap length e ∙ length-parts_of qs'

Moves-trans :
    (last_i : ℕ) (s t : ReadLoop) (r : ReadLoop × Option ℕ)
    → parts_of t.queries ≡ parts_of s.queries
    → Moves last_i t r
    → Moves last_i s r
Moves-trans last_i s t r e h = (h.0 ∙ e, rw (← same_size t.queries s.queries e) h.1)

module _ (px : Pipeline) (last_i : ℕ) where
  answer-Moves :
      (k i : ℕ) (ids : List Bool) (q : ZmqQuery) (s : ReadLoop) (a : Answer)
      → get_elem? s.queries k ≡ some q
      → last_i + (i + 1) ≤ length s.queries
      → length s.queries < 2 ^ 16
      → ((t : ReadLoop)
          → parts_of t.queries ≡ parts_of s.queries
          → IfOk (Moves last_i t) (pull px last_i (i + 1) ids t))
      → IfOk (Moves last_i s) (elim a [
        | result_of rows ↦ pull px last_i (i + 1) ids (keep_result k q rows s)
        | raised text ↦ ok (keep_error k q text s, some ((last_i + (i + 1)) % 2 ^ 16))
      ])
  unfolding keep_result keep_error
  answer-Moves k i ids q s (result_of rows) e room small rest =
      let t = keep_result k q rows s in
      let same = parts_of-set s.queries k q (record q { result = rows }) e refl in
      IfOk-map (Moves last_i t) (Moves last_i s) _ (rest t same)
        (λ r h. Moves-trans last_i s t r same h)
  answer-Moves k i ids q s (raised text) e room small rest =
      (parts_of-set s.queries k q _ e refl, omega arith)

  skip-Moves :
      (i : ℕ) (id : Bool) (ids : List Bool) (s : ReadLoop) (skip : Bool)
      → last_i + (i + 1) ≤ length s.queries
      → length s.queries < 2 ^ 16
      → ((t : ReadLoop)
          → parts_of t.queries ≡ parts_of s.queries
          → IfOk (Moves last_i t) (pull px last_i (i + 1) ids t))
      → IfOk (Moves last_i s) (elim skip [
        | true ↦ pull px last_i (i + 1) ids s
        | false ↦ or_fault (get_elem? s.queries (i + last_i)) index_out_of_range >>= λ q.
            elim (retrieve px (i + last_i) id) [
              | result_of rows ↦ pull px last_i (i + 1) ids (keep_result (i + last_i) q rows s)
              | raised text ↦
                  ok (keep_error (i + last_i) q text s, some ((last_i + (i + 1)) % 2 ^ 16))
            ]
      ])
  skip-Moves i id ids s true room small rest = rest s refl
  skip-Moves i id ids s false room small rest =
      IfOk-or_fault (Moves last_i s) (get_elem? s.queries (i + last_i)) _ _
        (λ q e. answer-Moves (i + last_i) i ids q s (retrieve px (i + last_i) id) e room small rest)

  pull-Moves :
      (i : ℕ) (ids : List Bool) (s : ReadLoop)
      → last_i + (i + length ids) ≤ length s.queries
      → length s.queries < 2 ^ 16
      → IfOk (Moves last_i s) (pull px last_i i ids s)
  unfolding pull
  pull-Moves i [] s room small = (refl, tt)
  pull-Moves i (id ∷ ids) s room small =
      IfOk-or_fault (Moves last_i s) (get_elem? s.queries i) _ _ (λ tested e.
        IfOk-then (Moves last_i s) (is_skipped tested) _ (λ skip.
          skip-Moves i id ids s skip (omega arith) small (λ t same.
            let size = same_size t.queries s.queries same in
            pull-Moves (i + 1) ids t (omega (arith, size)) (omega (arith, size)))))

  submit_ids-size : (qs : List ZmqQuery) → IfOk (λ ids. length ids ≡ length qs) (submit_ids qs)
  unfolding submit_ids
  submit_ids-size [] = refl
  submit_ids-size (q ∷ qs) =
      IfOk-then _ (is_skipped q) _
        (λ skip. IfOk->>= _ _ (submit_ids qs) _ (submit_ids-size qs) (λ ids h. ap suc h))

  -- A round keeps the queries, and a further one starts later and within the batch. `last_i` has 16
  -- bits.
  read_round-Moves :
      (s : ReadLoop)
      → last_i ≤ length s.queries
      → length s.queries < 2 ^ 16
      → IfOk (Moves last_i s) (read_round px last_i s)
  unfolding read_round
  read_round-Moves s within small =
      IfOk->>= _ (Moves last_i s) (submit_ids (drop last_i s.queries)) _
        (submit_ids-size (drop last_i s.queries))
        (λ ids h. pull-Moves 0 ids s (omega (arith, h, length-drop last_i s.queries)) small)

-- A batch that is through has the queries that it had.
abbrev pub IsRead : ReadLoop → Option ReadLoop → Type 0
IsRead s none = ⊥
IsRead s (some t) = parts_of t.queries ≡ parts_of s.queries

next_round-IsRead :
    (px : ℕ → Pipeline) (n k last_i : ℕ) (s : ReadLoop) (r : ReadLoop × Option ℕ)
    → Moves last_i s r
    → ((t : ReadLoop) (next_i : ℕ)
        → parts_of t.queries ≡ parts_of s.queries
        → last_i < next_i
        → next_i ≤ length s.queries
        → IfOk (IsRead t) (read_rounds px n (suc k) next_i t))
    → IfOk
        (IsRead s)
        (elim r.1 [ none ↦ ok (some r.0) | some next_i ↦ read_rounds px n (suc k) next_i r.0 ])
next_round-IsRead px n k last_i s (t, none) h next = h.0
next_round-IsRead px n k last_i s (t, some next_i) h next =
    IfOk-map (IsRead t) (IsRead s) _ (next t next_i h.0 h.1.0 h.1.1) later
  where
    later : (o : Option ReadLoop) → IsRead t o → IsRead s o
    later none e = e
    later (some u) e = e ∙ h.0

-- The loop over a batch of read queries ends, whatever the database answers: a batch of less than
-- 2^16 queries needs at most one round more than it has queries from `last_i` on. Unless the code
-- reads past the end of a vector, the queries of the batch are then the same, in order, but for
-- their results and errors.
pub read_rounds-IsRead :
    (px : ℕ → Pipeline) (n k last_i : ℕ) (s : ReadLoop)
    → last_i ≤ length s.queries
    → length s.queries < 2 ^ 16
    → length s.queries - last_i < n
    → IfOk (IsRead s) (read_rounds px n k last_i s)
unfolding read_rounds
read_rounds-IsRead px zero k last_i s within small enough = absurd (omega arith)
read_rounds-IsRead px (suc n) k last_i s within small enough =
    IfOk->>= (Moves last_i s) (IsRead s) (read_round (px k) last_i s) _
      (read_round-Moves (px k) last_i s within small)
      (λ r h. next_round-IsRead px n k last_i s r h (λ t next_i same later inside.
        let size = same_size t.queries s.queries same in
        read_rounds-IsRead px n (suc k) next_i t (omega (arith, size)) (omega (arith, size))
          (omega (arith, size))))
