-- ===== src/DatabaseWorkers/Inserts/Sections.antt =====
-- A property of a round from its sections: what all of them respect, and composes, the round respects.
use services_backend.Common.{
  Bool, true, false, Outcome, IfOk, IfOk->>=, IfOk-map, ◌>>=◌, if◌then◌else◌,
}
use services_backend.Jobs.{Feed, logs, monitors, rootplot_feed, plotlyplot_feed}
use services_backend.DatabaseWorkers.{
  DatabaseJobStep, logging, monitoring, rootplots, plotlyplots, writes, DatabaseJobStruct,
}
use services_backend.DatabaseWorkers.Server.{Server}
use services_backend.DatabaseWorkers.Inserts.{Inserts, step_eq}
use services_backend.DatabaseWorkers.Inserts.Generics.{exec_generics}
use services_backend.DatabaseWorkers.Inserts.Feeds.{insert_feed}
use services_backend.DatabaseWorkers.Inserts.Writes.{insert_writes}
use services_backend.DatabaseWorkers.Inserts.Rounds.{
  Loop, unless_at, from_plots, from_logs, sections,
}

if-IfOk :
    (Q : Loop → Type 0) (b c : Bool) (x y z : Outcome Loop)
    → IfOk Q x
    → IfOk Q y
    → IfOk Q z
    → IfOk Q (if b then x else if c then y else z)
if-IfOk Q true c x y z h k l = h
if-IfOk Q false true x y z h k l = k
if-IfOk Q false false x y z h k l = l

module _ (R : Loop → Loop → Type 0) (stay : (r : Loop) → R r r)
    (join : (r s t : Loop) → R r s → R s t → R r t)
    (mark : (j : DatabaseJobStruct) (s : Inserts) (step : DatabaseJobStep)
      → R (j, s) (j, record s { checkpoint = step })) where
  -- The sections that `next` stands for, from a state that the ones before have reached.
  abbrev Respects : (Loop → Outcome Loop) → Type 0
  Respects next = (r : Loop) → IfOk (R r) (next r)

  unless_at-Respects :
      (step : DatabaseJobStep) (next : Loop → Outcome Loop)
      → Respects next
      → Respects (unless_at step next)
  unfolding unless_at
  unless_at-Respects step next h (j, s) =
      let at = record s { checkpoint = step } in
      if-IfOk (R (j, s)) s.had_error (step_eq j.endpoint step) _ _ _ (h (j, s)) (stay (j, s)) (
        IfOk-map (R (j, at)) (R (j, s)) (next (j, at)) (h (j, at))
          (λ t k. join (j, s) (j, at) t (mark j s step) k))

  chain-Respects :
      (first next : Loop → Outcome Loop)
      → Respects first
      → Respects next
      → Respects (λ r. first r >>= next)
  chain-Respects first next h k r =
      IfOk->>= (R r) (R r) (first r) next (h r)
        (λ t a. IfOk-map (R t) (R r) (next t) (k t) (λ u b. join r t u a b))

  module _ (srv : Server) (generic_part : (r : Loop) → IfOk (R r) (exec_generics srv r.0 r.1))
      (feed_part : (f : Feed) (r : Loop) → IfOk (R r) (insert_feed srv f r.0 r.1))
      (write_part : (r : Loop) → IfOk (R r) (insert_writes srv r.0 r.1)) where
    feed-Respects :
        (f : Feed) (step : DatabaseJobStep) (next : Loop → Outcome Loop)
        → Respects next
        → Respects (λ r. insert_feed srv f r.0 r.1 >>= unless_at step next)
    feed-Respects f step next h =
        chain-Respects (λ r. insert_feed srv f r.0 r.1) (unless_at step next) (feed_part f)
          (unless_at-Respects step next h)

    from_plots-Respects : Respects (from_plots srv)
    unfolding from_plots
    from_plots-Respects =
        feed-Respects rootplot_feed plotlyplots _
          (feed-Respects plotlyplot_feed writes (λ r. insert_writes srv r.0 r.1) write_part)

    from_logs-Respects : Respects (from_logs srv)
    unfolding from_logs
    from_logs-Respects =
        feed-Respects logs monitoring _
          (feed-Respects monitors rootplots (from_plots srv) from_plots-Respects)

    pub sections-Respects : (r : Loop) → IfOk (R r) (sections srv r)
    unfolding sections
    sections-Respects =
        chain-Respects (λ r. exec_generics srv r.0 r.1) _ generic_part
          (unless_at-Respects logging (from_logs srv) from_logs-Respects)
