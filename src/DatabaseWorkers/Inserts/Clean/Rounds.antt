-- ===== src/DatabaseWorkers/Inserts/Clean/Rounds.antt =====
-- A job whose insertions the database takes: one round commits all of them.
use services_backend.Common.{
  ℕ, suc, ◌^◌, ◌<◌, ◌≡◌, refl, ap, ◌∙◌, Bool, true, false, if◌then◌else◌, Option, none, some, List,
  [], ◌++◌, length, Runs, Runs->>=, Outcome, ok, ◌>>=◌, arith,
}
use services_backend.Jobs.{Feed, logs, monitors, rootplot_feed, plotlyplot_feed}
use services_backend.DatabaseWorkers.{
  DatabaseJobStep, generics, logging, monitoring, rootplots, plotlyplots, writes, finish,
  DatabaseJobStruct,
}
use services_backend.DatabaseWorkers.Server.{Server, Statement, after_commit}
use services_backend.DatabaseWorkers.Inserts.{Inserts, step_eq}
use services_backend.DatabaseWorkers.Inserts.Generics.{exec_generics, exec_batches}
use services_backend.DatabaseWorkers.Inserts.Feeds.{
  feed_queue, bad_set, with_bad_set, feed_step, feed_items, insert_feed,
}
use services_backend.DatabaseWorkers.Inserts.Writes.{insert_writes}
use services_backend.DatabaseWorkers.Inserts.Rounds.{
  Loop, unless_at, from_plots, from_logs, sections, RoundEnd, left, threw, again, commit_end, round,
  rounds,
}
use services_backend.DatabaseWorkers.Inserts.Clean.{
  IsHealthy, generic_statements, write_statements, Executes, Executes-trans,
}
use services_backend.DatabaseWorkers.Inserts.Clean.Job.{
  IsFresh, feed_part, statements, Done, whole_queue, same_job, part-same, batches-Done,
}
use services_backend.DatabaseWorkers.Inserts.Clean.Feeds.{feed_items-Feeds}
use services_backend.DatabaseWorkers.Inserts.Clean.Tables.{insert_batches-Executes}
use services_backend.DatabaseWorkers.Inserts.Clean.Queries.{
  RunsBatches, exec_batches-Runs, span_rest,
}

-- The loop is left, with these statements in the database and none in the transaction.
abbrev pub Commits : List Statement → Option RoundEnd → Type 0
Commits stored none = ⊥
Commits stored (some (left t)) = (t.1.session.stored ≡ stored) × (t.1.session.tx ≡ [])
Commits stored (some (threw t)) = ⊥
Commits stored (some (again t)) = ⊥

left_now :
    (srv : Server) (n : ℕ) (stored : List Statement) (end : RoundEnd)
    → Commits stored (some end)
    → Runs (Commits stored) (elim end [
      | left t ↦ ok (some (left t))
      | threw t ↦ ok (some (threw t))
      | again t ↦ rounds srv n t
    ])
left_now srv n stored (left t) c = c
left_now srv n stored (threw t) c = absurd c
left_now srv n stored (again t) c = absurd c

if-Runs :
    (Q : Loop → Type 0) (b c : Bool) (x y z : Outcome Loop)
    → b ≡ false
    → c ≡ false
    → Runs Q z
    → Runs Q (if b then x else if c then y else z)
if-Runs Q b c x y z e f h = rw (e, f) h

module _ (j : DatabaseJobStruct) (s : Inserts) (fresh : IsFresh j) (no_error : s.had_error ≡ false)
    (alive : s.session.is_open ≡ true) where
  -- Between two sections of a round without errors.
  unless_at-Runs :
      (Q : Loop → Type 0) (step : DatabaseJobStep) (next : Loop → Outcome Loop)
      (added : List Statement) (r : Loop)
      → step_eq finish step ≡ false
      → Done j s added r
      → ((t : Loop) → Done j s added t → Runs Q (next t))
      → Runs Q (unless_at step next r)
  unfolding unless_at
  unless_at-Runs Q step next added r other done go =
      if-Runs Q r.1.had_error (step_eq r.0.endpoint step) _ _ _ (done.executes.had_error ∙ no_error)
        (ap (λ e. step_eq e step) done.ahead.endpoint ∙ other)
        (go (r.0, record (r.1) { checkpoint = step })
          (record {
            ahead = done.ahead;
            executes = record {
              tx = done.executes.tx;
              stored = done.executes.stored;
              is_open = done.executes.is_open;
              had_error = done.executes.had_error;
              checkpoint_j = done.executes.checkpoint_j;
            };
          }))

  module _ (srv : Server) (h : IsHealthy srv) where
    insert_feed-Runs :
        (f : Feed) (added : List Statement) (r : Loop)
        → step_eq finish (feed_step f) ≡ false
        → Done j s added r
        → Runs (Done j s (added ++ feed_part f j)) (insert_feed srv f r.0 r.1)
    unfolding insert_feed
    insert_feed-Runs f added r other done =
        let queue = feed_queue f r.0 in
        let size : length queue < 2 ^ 16 = rw (done.ahead.queues f) (fresh.few_texts f) in
        let whole = whole_queue (feed_step f) (length queue) r.0 done.ahead.endpoint other size in
        let t = feed_items srv f 0 queue (bad_set f r.0, r.1) in
        let fed =
          feed_items-Feeds srv h f 0 queue (bad_set f r.0) r.1 (done.executes.is_open ∙ alive) in
        let same : with_bad_set f t.0 r.0 ≡ r.0 =
          ap (λ b. with_bad_set f b r.0) fed.same ∙ same_job f r.0 in
        let part = part-same f j r.0 done.ahead in
        rw (whole, span_rest 0 queue)
          (rw same (record {
            ahead = done.ahead;
            executes = Executes-trans done.executes (rw part at fed.executes);
          }))

    exec_generics-Runs :
        Runs (Done j s (generic_statements s.checkpoint_j j.write_queue)) (exec_generics srv j s)
    unfolding exec_generics
    exec_generics-Runs =
        let queue = j.write_queue in
        let whole = whole_queue generics (length queue) j fresh.endpoint refl fresh.few_writes in
        let other = ap (λ e. step_eq e generics) fresh.endpoint in
        rw (whole, span_rest 0 queue)
          (Runs->>= (RunsBatches queue s) (Done j s (generic_statements s.checkpoint_j queue))
            (exec_batches srv j 0 queue s) _
            (exec_batches-Runs srv h j 0 queue s alive other fresh.indexed)
            (λ r ran. batches-Done j s r fresh.endpoint ran))

    insert_writes-Runs :
        (added : List Statement) (r : Loop)
        → Done j s added r
        → Runs
            (λ t. Executes (added ++ write_statements j.write_queue) s t.1)
            (insert_writes srv r.0 r.1)
    unfolding insert_writes
    insert_writes-Runs added r done =
        let queue = r.0.write_queue in
        let size : length queue < 2 ^ 16 = omega (arith, done.ahead.size, fresh.few_writes) in
        let whole = whole_queue writes (length queue) r.0 done.ahead.endpoint refl size in
        let inserted = insert_batches-Executes srv h 0 queue r.1 (done.executes.is_open ∙ alive) in
        rw (whole, span_rest 0 queue)
          (Executes-trans done.executes (rw (done.ahead.write_part) at inserted))

    -- A section of multicast buffers, and what follows it.
    feed-Runs :
        (Q : Loop → Type 0) (f : Feed) (step : DatabaseJobStep) (next : Loop → Outcome Loop)
        (added : List Statement) (r : Loop)
        → step_eq finish (feed_step f) ≡ false
        → step_eq finish step ≡ false
        → Done j s added r
        → ((t : Loop) → Done j s (added ++ feed_part f j) t → Runs Q (next t))
        → Runs Q (insert_feed srv f r.0 r.1 >>= unless_at step next)
    feed-Runs Q f step next added r here there done go =
        Runs->>= (Done j s (added ++ feed_part f j)) Q (insert_feed srv f r.0 r.1)
          (unless_at step next) (insert_feed-Runs f added r here done)
          (λ t d. unless_at-Runs Q step next (added ++ feed_part f j) t there d go)

    abbrev AllDone : Loop → Type 0
    AllDone t = Executes (statements s.checkpoint_j j) s t.1

    sections-Runs : Runs AllDone (sections srv (j, s))
    unfolding sections from_logs from_plots statements
    sections-Runs =
        Runs->>= (Done j s (generic_statements s.checkpoint_j j.write_queue)) AllDone
          (exec_generics srv j s) _ exec_generics-Runs
          (λ r d. unless_at-Runs AllDone logging (from_logs srv) _ r refl d (λ r d.
            feed-Runs AllDone logs monitoring _ _ r refl refl d (λ r d.
              feed-Runs AllDone monitors rootplots _ _ r refl refl d (λ r d.
                feed-Runs AllDone rootplot_feed plotlyplots _ _ r refl refl d (λ r d.
                  feed-Runs AllDone plotlyplot_feed writes _ _ r refl refl d
                    (λ r d. insert_writes-Runs _ r d))))))

    commit_end-Commits :
        (t : Loop)
        → AllDone t
        → Commits
            (s.session.stored ++ (s.session.tx ++ statements s.checkpoint_j j))
            (some (commit_end (srv.commit t.1.session) t))
    unfolding commit_end after_commit
    commit_end-Commits t d =
        let now = h.commits t.1.session (d.is_open ∙ alive) in
        let clean : t.1.had_error ≡ false = d.had_error ∙ no_error in
        rw (now, commit_end) (rw clean (rw (d.stored, d.tx) refl, refl))

    -- A fresh job, whose queues have less than 2^16 elements and whose generic indices are in range,
    -- and a database that executes and commits everything: the loop around the insertions is left
    -- after one round without a fault. The database then also holds what the transaction held and
    -- after it the statements of the job, each once and in the order of the sections: the generic
    -- queries that have no error, of each batch from the checkpoint that is left from the job before,
    -- the log, monitoring and multicast plot buffers, and the table buffers of each write batch.
    pub rounds-Commits :
        (n : ℕ)
        → Runs
            (Commits (s.session.stored ++ (s.session.tx ++ statements s.checkpoint_j j)))
            (rounds srv (suc n) (j, s))
    unfolding rounds round
    rounds-Commits n =
        let stored = s.session.stored ++ (s.session.tx ++ statements s.checkpoint_j j) in
        Runs->>= (λ end. Commits stored (some end)) (Commits stored) (round srv (j, s)) _
          (Runs->>= AllDone (λ end. Commits stored (some end)) (sections srv (j, s)) _ sections-Runs
            commit_end-Commits)
          (λ end c. left_now srv n stored end c)
