-- ===== src/DatabaseWorkers/Reads/PassedOver.antt =====
-- The first query of a later round of the pipeline.
use services_backend.Common.{
  ℕ, zero, suc, ◌+◌, ◌<◌, ◌≡◌, refl, ◌∙◌, Bool, true, false, Option, some, List, [], ◌∷◌, get_elem?,
  set, Outcome, ok, fault, arith, >>=-eq-ok, inl, inr, ◌⊎◌, Fault, ◌%◌, ◌^◌, Option-cases, drop,
}
use services_backend.ZmqQuery.{ZmqQuery}
use services_backend.DatabaseWorkers.Reads.{
  Answer, result_of, raised, Pipeline, ReadLoop, is_skipped, submit_ids, retrieve, keep_result,
  keep_error, pull, read_round,
}

get_elem?-set :
    (qs : List ZmqQuery) (k n : ℕ) (v : ZmqQuery)
    → n < k
    → get_elem? (set qs k v) n ≡ get_elem? qs n
get_elem?-set [] k n v h = refl
get_elem?-set (q ∷ qs) zero n v h = absurd (omega arith)
get_elem?-set (q ∷ qs) (suc k) zero v h = refl
get_elem?-set (q ∷ qs) (suc k) (suc n) v h = get_elem?-set qs k n v (omega arith)

-- The query at `n` is the same in both.
abbrev Same : ℕ → ReadLoop → Outcome (ReadLoop × Option ℕ) → Type 0
Same n s (ok r) = get_elem? r.0.queries n ≡ get_elem? s.queries n
Same n s (fault e) = Unit

Same-from :
    (n : ℕ) (s s' : ReadLoop) (r : Outcome (ReadLoop × Option ℕ))
    → get_elem? s'.queries n ≡ get_elem? s.queries n
    → Same n s' r
    → Same n s r
Same-from n s s' (ok r) e h = h ∙ e
Same-from n s s' (fault x) e h = tt

bool_outcome : (o : Outcome Bool) → ((x : Fault) × (o ≡ fault x)) ⊎ ((o ≡ ok true) ⊎ (o ≡ ok false))
bool_outcome (fault x) = inl (x, refl)
bool_outcome (ok true) = inr (inl refl)
bool_outcome (ok false) = inr (inr refl)

module _ (px : Pipeline) (last_i i : ℕ) (ids : List Bool) (later : 0 < i)
    (rest : (s : ReadLoop) → Same last_i s (pull px last_i (i + 1) ids s)) where
  answer-Same :
      (s : ReadLoop) (q : ZmqQuery) (a : Answer)
      → Same last_i s (elim a [
        | result_of rows ↦ pull px last_i (i + 1) ids (keep_result (i + last_i) q rows s)
        | raised text ↦ ok (keep_error (i + last_i) q text s, some ((last_i + (i + 1)) % 2 ^ 16))
      ])
  answer-Same s q (result_of rows) =
      Same-from last_i s (keep_result (i + last_i) q rows s) _
        (unfold keep_result in get_elem?-set s.queries (i + last_i) last_i _ (omega arith))
        (rest (keep_result (i + last_i) q rows s))
  answer-Same s q (raised text) =
      unfold keep_error in get_elem?-set s.queries (i + last_i) last_i _ (omega arith)

  step-Same : (id : Bool) (s : ReadLoop) → Same last_i s (pull px last_i i (id ∷ ids) s)
  unfolding pull
  step-Same id s = elim (Option-cases (get_elem? s.queries i)) [
    | inl e ↦ rw (e, pull) tt
    | inr (tested, e) ↦ elim (bool_outcome (is_skipped tested)) [
      | inl (x, f) ↦ rw (e, pull) (rw f tt)
      | inr (inl skip) ↦ rw (e, pull) (rw skip (rest s))
      | inr (inr go) ↦
          rw (e, pull)
            (rw go (elim (Option-cases (get_elem? s.queries (i + last_i))) [
              | inl g ↦ rw g tt
              | inr (q, g) ↦ rw g (answer-Same s q (retrieve px (i + last_i) id))
            ]))
    ]
  ]

-- Pulling from the second id on does not write to the first query of the round.
pull-Same :
    (px : Pipeline) (last_i i : ℕ) (ids : List Bool) (s : ReadLoop)
    → 0 < i
    → Same last_i s (pull px last_i i ids s)
pull-Same px last_i i [] s h = unfold pull in refl
pull-Same px last_i i (id ∷ ids) s h =
    step-Same px last_i i ids h (λ s'. pull-Same px last_i (i + 1) ids s' (omega arith)) id s

-- If the first query of a batch is skipped, as it is when it has failed, then no round writes to the
-- query that it starts from: it gets neither its result nor an error. The rounds are those that
-- start behind the first query; the query tested is the one at the position of the id, not the one
-- that the id is for.
pub read_round-passed_over :
    (px : Pipeline) (last_i : ℕ) (s s' : ReadLoop) (next : Option ℕ) (first : ZmqQuery)
    → get_elem? s.queries 0 ≡ some first
    → is_skipped first ≡ ok true
    → read_round px last_i s ≡ ok (s', next)
    → get_elem? s'.queries last_i ≡ get_elem? s.queries last_i
unfolding read_round
read_round-passed_over px last_i s s' next first e skip run =
    let (ids, submitted, pulled) = >>=-eq-ok (submit_ids (drop last_i s.queries)) _ run in
    rw pulled at (from_first ids)
  where
    from_first : (ids : List Bool) → Same last_i s (pull px last_i 0 ids s)
    from_first [] = unfold pull in refl
    from_first (id ∷ ids) =
        unfold pull in (rw (e, pull) (rw skip (pull-Same px last_i 1 ids s (omega arith))))
