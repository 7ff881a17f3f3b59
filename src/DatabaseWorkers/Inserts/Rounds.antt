-- ===== src/DatabaseWorkers/Inserts/Rounds.antt =====
-- UserTools/DatabaseWorkers/DatabaseWorkers.cpp: the loop of `DatabaseJob` around the insertions. A
-- round ends with a commit, and the loop goes on until a round has no error.
use services_backend.Common.{
  ℕ, zero, suc, true, false, Option, none, some, Outcome, ok, ◌>>=◌, if◌then◌else◌,
}
use services_backend.Jobs.{logs, monitors, rootplot_feed, plotlyplot_feed}
use services_backend.DatabaseWorkers.{
  DatabaseJobStep, logging, monitoring, rootplots, plotlyplots, writes, DatabaseJobStruct,
}
use services_backend.DatabaseWorkers.Server.{
  Server, Commit, committed, in_doubt, commit_failed, after_commit,
}
use services_backend.DatabaseWorkers.Inserts.{Inserts, step_eq}
use services_backend.DatabaseWorkers.Inserts.Generics.{exec_generics}
use services_backend.DatabaseWorkers.Inserts.Feeds.{insert_feed}
use services_backend.DatabaseWorkers.Inserts.Writes.{insert_writes}

abbrev pub Loop : Type 0
Loop = DatabaseJobStruct × Inserts

-- Between two sections: without an error so far, a round stops before the step where an earlier one
-- found its last error, and `goto commitit`.
unfoldable pub unless_at : DatabaseJobStep → (Loop → Outcome Loop) → Loop → Outcome Loop
unless_at step next (j, s) =
    if s.had_error
    then next (j, s)
    else if step_eq j.endpoint step
    then ok (j, s)
    else next (j, record s { checkpoint = step })

-- The sections from the plots on, from the monitoring messages on, and from the log messages on.
unfoldable pub from_plots : Server → Loop → Outcome Loop
from_plots srv r =
    insert_feed srv rootplot_feed r.0 r.1
    >>= unless_at plotlyplots λ r.
      insert_feed srv plotlyplot_feed r.0 r.1 >>= unless_at writes λ r. insert_writes srv r.0 r.1

unfoldable pub from_logs : Server → Loop → Outcome Loop
from_logs srv r =
    insert_feed srv logs r.0 r.1
    >>= unless_at monitoring
        λ r. insert_feed srv monitors r.0 r.1 >>= unless_at rootplots (from_plots srv)

-- All sections of one round.
unfoldable pub sections : Server → Loop → Outcome Loop
sections srv r = exec_generics srv r.0 r.1 >>= unless_at logging (from_logs srv)

-- How a round ends: the loop ends, the job ends with an exception, or there is another round.
pub data RoundEnd : Type 0 where
  left : Loop → RoundEnd
  threw : Loop → RoundEnd
  again : Loop → RoundEnd

abbrev ending : Loop → RoundEnd
ending (j, s) = if s.had_error then again (j, record s { had_error = false }) else left (j, s)

unfoldable pub commit_end : Commit → Loop → RoundEnd
commit_end committed (j, s) = ending (
  record j { endpoint = s.checkpoint; endpoint_i = s.checkpoint_i; endpoint_j = s.checkpoint_j },
  record s { session = after_commit committed s.session },
)
commit_end in_doubt r = threw r
commit_end commit_failed (j, s) =
    ending (j, record s { had_error = true; session = after_commit commit_failed s.session })

unfoldable pub round : Server → Loop → Outcome RoundEnd
round srv r = sections srv r >>= λ r. ok (commit_end (srv.commit r.1.session) r)

-- The loop, for at most `n` rounds; `none` is a loop that is not over by then.
unfoldable pub rounds : Server → ℕ → Loop → Outcome (Option RoundEnd)
rounds srv zero r = ok none
rounds srv (suc n) r = round srv r >>= λ end. elim end [
  | left r ↦ ok (some (left r))
  | threw r ↦ ok (some (threw r))
  | again r ↦ rounds srv n r
]
