-- ===== src/DatabaseWorkers/Inserts/Keeps.antt =====
-- The loop around the insertions keeps the write batches of a job and their queries, but for
-- results, errors and version numbers, and it keeps the multicast buffers.
use services_backend.Common.{
  ℕ, zero, suc, ◌≡◌, refl, sym, ap, ◌∙◌, Option, none, some, List, ◌++◌, length, drop, ok, IfOk,
  IfOk->>=, IfOk-map, IfOk-then, Bool-cases, inl, inr, false,
}
use services_backend.QueryBatch.{QueryBatch}
use services_backend.Jobs.{Feed, logs, monitors, rootplot_feed, plotlyplot_feed}
use services_backend.DatabaseWorkers.{DatabaseJobStruct, generics, writes}
use services_backend.DatabaseWorkers.Server.{Server, Commit, committed, in_doubt, commit_failed}
use services_backend.DatabaseWorkers.Inserts.{Inserts, last_i, span}
use services_backend.DatabaseWorkers.Inserts.Generics.{exec_batches, exec_generics}
use services_backend.DatabaseWorkers.Inserts.Feeds.{
  insert_feed, with_bad_set, feed_queue, feed_step,
}
use services_backend.DatabaseWorkers.Inserts.Writes.{insert_batches, insert_writes}
use services_backend.DatabaseWorkers.Inserts.Rounds.{
  Loop, sections, RoundEnd, left, threw, again, commit_end, round, rounds,
}
use services_backend.DatabaseWorkers.Inserts.Chances.{span-split}
use services_backend.DatabaseWorkers.Inserts.Parts.{
  all_parts, all_parts-append, SameBatches, exec_batches-parts, insert_batches-parts,
}
use services_backend.DatabaseWorkers.Inserts.Sections.{sections-Respects}

-- What the loop keeps of a job.
pub record Keeps (r t : Loop) : Type 0 where
  pub parts : all_parts t.0.write_queue ≡ all_parts r.0.write_queue
  pub reads : t.0.read_queue ≡ r.0.read_queue
  pub log_texts : t.0.logging_queue ≡ r.0.logging_queue
  pub mon_texts : t.0.monitoring_queue ≡ r.0.monitoring_queue

Keeps-trans : (r s t : Loop) → Keeps r s → Keeps s t → Keeps r t
Keeps-trans r s t h k = record {
  parts = k.parts ∙ h.parts;
  reads = k.reads ∙ h.reads;
  log_texts = k.log_texts ∙ h.log_texts;
  mon_texts = k.mon_texts ∙ h.mon_texts;
}

stays : (j : DatabaseJobStruct) (s s' : Inserts) → Keeps (j, s) (j, s')
stays j s s' = record { parts = refl; reads = refl; log_texts = refl; mon_texts = refl }

-- A section over the first batches of the queue.
queue-Keeps :
    (j : DatabaseJobStruct) (n : ℕ) (bs bs' : List QueryBatch) (s s' : Inserts)
    → bs ++ drop n j.write_queue ≡ j.write_queue
    → all_parts bs' ≡ all_parts bs
    → Keeps (j, s) (record j { write_queue = bs' ++ drop n j.write_queue }, s')
queue-Keeps j n bs bs' s s' e h =
    let rest = drop n j.write_queue in
    record {
      parts =
          all_parts-append bs' rest
          ∙ ap (λ x. x ++ all_parts rest) h
          ∙ sym (all_parts-append bs rest)
          ∙ ap all_parts e;
      reads = refl;
      log_texts = refl;
      mon_texts = refl;
    }

exec_generics-Keeps : (srv : Server) (r : Loop) → IfOk (Keeps r) (exec_generics srv r.0 r.1)
unfolding exec_generics
exec_generics-Keeps srv (j, s) =
    let n = last_i generics (length j.write_queue) j in
    IfOk->>= (λ bs. bs ++ drop n j.write_queue ≡ j.write_queue) (Keeps (j, s))
      (span 0 n j.write_queue) _ (span-split n j.write_queue)
      (λ bs e.
        IfOk->>= (SameBatches bs) (Keeps (j, s)) (exec_batches srv j 0 bs s) _
          (exec_batches-parts srv j 0 bs s) (λ r h. queue-Keeps j n bs r.0 s r.1 e h))

insert_writes-Keeps : (srv : Server) (r : Loop) → IfOk (Keeps r) (insert_writes srv r.0 r.1)
unfolding insert_writes
insert_writes-Keeps srv (j, s) =
    let n = last_i writes (length j.write_queue) j in
    IfOk->>= (λ bs. bs ++ drop n j.write_queue ≡ j.write_queue) (Keeps (j, s))
      (span 0 n j.write_queue) _ (span-split n j.write_queue)
      (λ bs e.
        let r = insert_batches srv 0 bs s in
        queue-Keeps j n bs r.0 s r.1 e (insert_batches-parts srv 0 bs s))

set-Keeps :
    (f : Feed) (j : DatabaseJobStruct) (s s' : Inserts) (bad : List ℕ)
    → Keeps (j, s) (with_bad_set f bad j, s')
set-Keeps logs j s s' bad = record {
  parts = refl;
  reads = refl;
  log_texts = refl;
  mon_texts = refl;
}
set-Keeps monitors j s s' bad = record {
  parts = refl;
  reads = refl;
  log_texts = refl;
  mon_texts = refl;
}
set-Keeps rootplot_feed j s s' bad = record {
  parts = refl;
  reads = refl;
  log_texts = refl;
  mon_texts = refl;
}
set-Keeps plotlyplot_feed j s s' bad = record {
  parts = refl;
  reads = refl;
  log_texts = refl;
  mon_texts = refl;
}

insert_feed-Keeps :
    (srv : Server) (f : Feed) (r : Loop) → IfOk (Keeps r) (insert_feed srv f r.0 r.1)
unfolding insert_feed
insert_feed-Keeps srv f (j, s) =
    IfOk-then (Keeps (j, s))
      (span 0 (last_i (feed_step f) (length (feed_queue f j)) j) (feed_queue f j)) _
      (λ texts. set-Keeps f j s _ _)

sections-Keeps : (srv : Server) (r : Loop) → IfOk (Keeps r) (sections srv r)
sections-Keeps srv =
    sections-Respects Keeps (λ r. stays r.0 r.1 r.1) Keeps-trans
      (λ j s step. stays j s (record s { checkpoint = step })) srv (exec_generics-Keeps srv)
      (insert_feed-Keeps srv) (insert_writes-Keeps srv)

abbrev pub EndKeeps : Loop → RoundEnd → Type 0
EndKeeps r (left t) = Keeps r t × (t.1.had_error ≡ false)
EndKeeps r (threw t) = Keeps r t
EndKeeps r (again t) = Keeps r t

commit_end-Keeps : (c : Commit) (r t : Loop) → Keeps r t → EndKeeps r (commit_end c t)
unfolding commit_end
commit_end-Keeps committed r t h = elim (Bool-cases t.1.had_error) [
  | inl f ↦ rw f (record {
    parts = h.parts;
    reads = h.reads;
    log_texts = h.log_texts;
    mon_texts = h.mon_texts;
  })
  | inr f ↦ rw f (
    record { parts = h.parts; reads = h.reads; log_texts = h.log_texts; mon_texts = h.mon_texts },
    refl,
  )
]
commit_end-Keeps in_doubt r t h = h
commit_end-Keeps commit_failed r t h = record {
  parts = h.parts;
  reads = h.reads;
  log_texts = h.log_texts;
  mon_texts = h.mon_texts;
}

round-Keeps : (srv : Server) (r : Loop) → IfOk (EndKeeps r) (round srv r)
unfolding round
round-Keeps srv r =
    IfOk->>= (Keeps r) (EndKeeps r) (sections srv r) _ (sections-Keeps srv r)
      (λ t h. commit_end-Keeps (srv.commit t.1.session) r t h)

abbrev pub LoopKeeps : Loop → Option RoundEnd → Type 0
LoopKeeps r none = Unit
LoopKeeps r (some end) = EndKeeps r end

LoopKeeps-trans : (r t : Loop) (o : Option RoundEnd) → Keeps r t → LoopKeeps t o → LoopKeeps r o
LoopKeeps-trans r t none h k = tt
LoopKeeps-trans r t (some (left u)) h k = (Keeps-trans r t u h k.0, k.1)
LoopKeeps-trans r t (some (threw u)) h k = Keeps-trans r t u h k
LoopKeeps-trans r t (some (again u)) h k = Keeps-trans r t u h k

next_round-Keeps :
    (srv : Server) (n : ℕ) (r : Loop) (end : RoundEnd)
    → EndKeeps r end
    → ((t : Loop) → IfOk (LoopKeeps t) (rounds srv n t))
    → IfOk (LoopKeeps r) (elim end [
      | left t ↦ ok (some (left t))
      | threw t ↦ ok (some (threw t))
      | again t ↦ rounds srv n t
    ])
next_round-Keeps srv n r (left t) h next = h
next_round-Keeps srv n r (threw t) h next = h
next_round-Keeps srv n r (again t) h next =
    IfOk-map (LoopKeeps t) (LoopKeeps r) (rounds srv n t) (next t)
      (λ o k. LoopKeeps-trans r t o h k)

pub rounds-Keeps : (srv : Server) (n : ℕ) (r : Loop) → IfOk (LoopKeeps r) (rounds srv n r)
unfolding rounds
rounds-Keeps srv zero r = tt
rounds-Keeps srv (suc n) r =
    IfOk->>= (EndKeeps r) (LoopKeeps r) (round srv r) _ (round-Keeps srv r)
      (λ end h. next_round-Keeps srv n r end h (rounds-Keeps srv n))
