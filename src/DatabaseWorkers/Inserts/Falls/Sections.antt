-- ===== src/DatabaseWorkers/Inserts/Falls/Sections.antt =====
-- The unflagged items of a job fall over each whole section.
use services_backend.Common.{
  ℕ, ◌+◌, ◌≡◌, sym, ap, ◌∙◌, List, ◌++◌, length, drop, IfOk, IfOk->>=, arith, length-append,
}
use services_backend.QueryBatch.{QueryBatch}
use services_backend.Jobs.{Feed, logs, monitors, rootplot_feed, plotlyplot_feed}
use services_backend.DatabaseWorkers.{DatabaseJobStruct, generics, writes}
use services_backend.DatabaseWorkers.Server.{Server}
use services_backend.DatabaseWorkers.Inserts.{Inserts, last_i, span}
use services_backend.DatabaseWorkers.Inserts.Generics.{exec_batches, exec_generics}
use services_backend.DatabaseWorkers.Inserts.Feeds.{
  insert_feed, feed_queue, bad_set, with_bad_set, feed_step,
}
use services_backend.DatabaseWorkers.Inserts.Writes.{insert_batches, insert_writes}
use services_backend.DatabaseWorkers.Inserts.Chances.{
  open_batches, open_below, chances, span-split, open_batches-append,
}
use services_backend.DatabaseWorkers.Inserts.Falls.{Falls, Falls-plus, Falls-beside, Lowers}
use services_backend.DatabaseWorkers.Inserts.Falls.Queries.{exec_batches-Falls}
use services_backend.DatabaseWorkers.Inserts.Falls.Feeds.{feed_items-Falls}
use services_backend.DatabaseWorkers.Inserts.Falls.Tables.{insert_batches-Falls}

-- A section over the first batches of the queue leaves the others as they are.
first-Falls :
    (n : ℕ) (queue bs bs' : List QueryBatch) (s s' : Inserts)
    → bs ++ drop n queue ≡ queue
    → Falls (open_batches bs) (open_batches bs') s s'
    → Falls (open_batches queue) (open_batches (bs' ++ drop n queue)) s s'
first-Falls n queue bs bs' s s' e h =
    Falls-plus h (open_batches (drop n queue))
      (sym (ap open_batches e) ∙ open_batches-append bs (drop n queue))
      (open_batches-append bs' (drop n queue))

queue-Falls :
    (j : DatabaseJobStruct) (queue : List QueryBatch) (s s' : Inserts)
    → Falls (open_batches j.write_queue) (open_batches queue) s s'
    → Falls (chances j) (chances (record j { write_queue = queue })) s s'
unfolding chances
queue-Falls j queue s s' h = record {
  within = omega (arith, h.within);
  strictly = λ e f. omega (arith, h.strictly e f);
}

pub exec_generics-Falls :
    (srv : Server) (j : DatabaseJobStruct) (s : Inserts)
    → IfOk (Lowers chances j s) (exec_generics srv j s)
unfolding exec_generics chances
exec_generics-Falls srv j s =
    let n = last_i generics (length j.write_queue) j in
    IfOk->>= (λ bs. bs ++ drop n j.write_queue ≡ j.write_queue) (Lowers chances j s) _ _
      (span-split n j.write_queue)
      (λ bs e.
        IfOk->>= (Lowers open_batches bs s) (Lowers chances j s) (exec_batches srv j 0 bs s) _
          (exec_batches-Falls srv j 0 bs s)
          (λ r h. queue-Falls j _ s r.1 (first-Falls n j.write_queue bs r.0 s r.1 e h)))

pub insert_writes-Falls :
    (srv : Server) (j : DatabaseJobStruct) (s : Inserts)
    → IfOk (Lowers chances j s) (insert_writes srv j s)
unfolding insert_writes chances
insert_writes-Falls srv j s =
    let n = last_i writes (length j.write_queue) j in
    IfOk->>= (λ bs. bs ++ drop n j.write_queue ≡ j.write_queue) (Lowers chances j s) _ _
      (span-split n j.write_queue)
      (λ bs e.
        let r = insert_batches srv 0 bs s in
        queue-Falls j _ s r.1
          (first-Falls n j.write_queue bs r.0 s r.1 e (insert_batches-Falls srv 0 bs s)))

set-Falls :
    (f : Feed) (j : DatabaseJobStruct) (bad : List ℕ) (s s' : Inserts)
    → Falls
        (open_below (length (feed_queue f j)) (bad_set f j))
        (open_below (length (feed_queue f j)) bad)
        s
        s'
    → Falls (chances j) (chances (with_bad_set f bad j)) s s'
unfolding chances
set-Falls logs j bad s s' h = Falls-beside h (omega arith)
set-Falls monitors j bad s s' h = Falls-beside h (omega arith)
set-Falls rootplot_feed j bad s s' h = Falls-beside h (omega arith)
set-Falls plotlyplot_feed j bad s s' h = Falls-beside h (omega arith)

pub insert_feed-Falls :
    (srv : Server) (f : Feed) (j : DatabaseJobStruct) (s : Inserts)
    → IfOk (Lowers chances j s) (insert_feed srv f j s)
unfolding insert_feed
insert_feed-Falls srv f j s =
    let queue = feed_queue f j in
    let n = last_i (feed_step f) (length queue) j in
    IfOk->>= (λ texts. texts ++ drop n queue ≡ queue) (Lowers chances j s) (span 0 n queue) _
      (span-split n queue)
      (λ texts e.
        let size : length queue ≡ length texts + length (drop n queue) =
          sym (ap length e) ∙ length-append texts (drop n queue) in
        set-Falls f j _ s _
          (feed_items-Falls srv f 0 (length queue) texts (bad_set f j) s (omega (arith, size))))
