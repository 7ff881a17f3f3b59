-- ===== src/DatabaseWorkers/Reads/Clean.antt =====
-- A batch of read queries whose every query succeeds.
use services_backend.Common.{
  ℕ, suc, ◌+◌, ◌≡◌, refl, sym, ◌∙◌, Bool, true, false, none, some, List, [], ◌∷◌, ◌++◌, map,
  append_assoc, length, get_elem?, not, ok, arith, length-append, set-append, get_elem?-append,
  if◌then◌else◌,
}
use services_backend.ZmqQuery.{ZmqQuery, Row}
use services_backend.DatabaseWorkers.Reads.{
  result_of, Pipeline, ReadLoop, is_skipped, submit_ids, retrieve, keep_result, pull, read_round,
}

-- Whether each query is skipped.
pub data Tested : List ZmqQuery → List Bool → Type 0 where
  nil : Tested [] []
  cons :
      {q : ZmqQuery} {qs : List ZmqQuery} {b : Bool} {bs : List Bool}
      → is_skipped q ≡ ok b
      → Tested qs bs
      → Tested (q ∷ qs) (b ∷ bs)

-- The queries that are not skipped, with their results.
unfoldable pub with_results : (ℕ → List Row) → ℕ → List ZmqQuery → List Bool → List ZmqQuery
with_results rows k (q ∷ qs) (b ∷ bs) =
    (if b then q else record q { result = rows k }) ∷ with_results rows (k + 1) qs bs
with_results rows k qs bs = []

-- How many are not skipped.
unfoldable pub submitted : List Bool → ℕ
submitted [] = 0
submitted (b ∷ bs) = if b then submitted bs else suc (submitted bs)

submit_ids-Tested :
    (qs : List ZmqQuery) (bs : List Bool) → Tested qs bs → submit_ids qs ≡ ok (map not bs)
unfolding submit_ids
submit_ids-Tested qs bs nil = refl
submit_ids-Tested (q ∷ qs) (b ∷ bs) (cons e h) = rw (e, submit_ids-Tested qs bs h) refl

-- What is left of a batch, when the queries `done` are through.
record Pulled (rows : ℕ → List Row) (done qs : List ZmqQuery) (bs : List Bool) (s s' : ReadLoop)
    : Type 0 where
  queries : s'.queries ≡ done ++ with_results rows (length done) qs bs
  submissions : s'.readquery_submissions ≡ s.readquery_submissions + submitted bs
  failures : s'.readquery_submissions_failed ≡ s.readquery_submissions_failed

length-snoc : (done : List ZmqQuery) (q : ZmqQuery) → length (done ++ q ∷ []) ≡ length done + 1
length-snoc done q = length-append done (q ∷ [])

module _ (px : Pipeline) (rows : ℕ → List Row)
    (good : (k : ℕ) → px.answers k ≡ result_of (rows k)) where
  pull-Pulled :
      (done qs : List ZmqQuery) (bs : List Bool) (s : ReadLoop)
      → s.queries ≡ done ++ qs
      → Tested qs bs
      → (s' : ReadLoop) × (pull px 0 (length done) (map not bs) s ≡ ok (s', none))
        × Pulled rows done qs bs s s'
  unfolding pull with_results submitted
  pull-Pulled done qs bs s e nil =
      (s, refl, record { queries = e; submissions = omega arith; failures = refl })
  pull-Pulled done (q ∷ qs) (true ∷ bs) s e (cons t h) =
      let found : get_elem? s.queries (length done) ≡ some q = rw e (get_elem?-append done q qs) in
      let (s', run, p) =
        pull-Pulled (done ++ q ∷ []) qs bs s (e ∙ sym (append_assoc done (q ∷ []) qs)) h in
      (
        s',
        rw (found, pull) (rw t (rw (← length-snoc done q) run)),
        record {
          queries = p.queries ∙ (rw (length-snoc done q) (append_assoc done (q ∷ []) _));
          submissions = p.submissions;
          failures = p.failures;
        },
      )
  pull-Pulled done (q ∷ qs) (false ∷ bs) s e (cons t h) =
      let found : get_elem? s.queries (length done) ≡ some q = rw e (get_elem?-append done q qs) in
      let here : length done + 0 ≡ length done = omega arith in
      let q' = record q { result = rows (length done) } in
      let s1 = keep_result (length done) q (rows (length done)) s in
      let kept : s1.queries ≡ (done ++ q' ∷ []) ++ qs =
        unfold keep_result in
        rw (e, set-append done q qs q') (sym (append_assoc done (q' ∷ []) qs)) in
      let (s', run, p) = pull-Pulled (done ++ q' ∷ []) qs bs s1 kept h in
      let answer : retrieve px (length done) true ≡ result_of (rows (length done)) =
        unfold retrieve in good (length done) in
      (
        s',
        rw (found, pull)
            (rw t (rw (here, found) (rw answer (rw (here, ← length-snoc done q') run)))),
        record {
          queries = p.queries ∙ (rw (length-snoc done q') (append_assoc done (q' ∷ []) _));
          submissions = p.submissions ∙ (unfold keep_result in omega arith);
          failures = p.failures ∙ (unfold keep_result in refl);
        },
      )

  -- If the database answers every query of a batch with a result, then one round over the batch is
  -- enough: it does not fault and finds no error. Each query has its own result, those that are
  -- skipped (they have failed already, or ask for a cached configuration) are as they were, and the
  -- submissions are counted. `bs` says which queries are skipped.
  pub read_round-results :
      (s : ReadLoop) (bs : List Bool)
      → Tested s.queries bs
      → (s' : ReadLoop) × (read_round px 0 s ≡ ok (s', none))
        × (s'.queries ≡ with_results rows 0 s.queries bs)
        × (s'.readquery_submissions ≡ s.readquery_submissions + submitted bs)
        × (s'.readquery_submissions_failed ≡ s.readquery_submissions_failed)
  unfolding read_round
  read_round-results s bs h =
      let (s', run, p) = pull-Pulled [] s.queries bs s refl h in
      (s', rw (submit_ids-Tested s.queries bs h) run, p.queries, p.submissions, p.failures)
