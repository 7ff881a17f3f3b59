-- ===== src/DatabaseWorkers/Inserts/Ending.antt =====
-- The loop around the insertions ends: each further round needs an item that failed, was flagged,
-- and is skipped from then on.
use services_backend.Common.{
  ℕ, zero, suc, ◌<◌, ◌≡◌, ◌≢◌, refl, inl, inr, false, Option, none, some, ok, IfOk, IfOk->>=, arith,
  Bool-cases,
}
use services_backend.DatabaseWorkers.Server.{
  Server, Session, Commit, committed, in_doubt, commit_failed,
}
use services_backend.DatabaseWorkers.Inserts.Rounds.{
  Loop, sections, RoundEnd, left, threw, again, commit_end, round, rounds,
}
use services_backend.DatabaseWorkers.Inserts.Sections.{sections-Respects}
use services_backend.DatabaseWorkers.Inserts.Chances.{chances}
use services_backend.DatabaseWorkers.Inserts.Falls.{kept, Falls, Falls-refl, Falls-trans}
use services_backend.DatabaseWorkers.Inserts.Falls.Sections.{
  exec_generics-Falls, insert_feed-Falls, insert_writes-Falls,
}

abbrev FallsTo : Loop → Loop → Type 0
FallsTo r t = Falls (chances r.0) (chances t.0) r.1 t.1

sections-FallsTo : (srv : Server) (r : Loop) → IfOk (FallsTo r) (sections srv r)
sections-FallsTo srv =
    sections-Respects FallsTo (λ r. Falls-refl (chances r.0) r.1) (λ r s t. Falls-trans)
      (λ j s step. kept s _ refl refl) srv (λ r. exec_generics-Falls srv r.0 r.1)
      (λ f r. insert_feed-Falls srv f r.0 r.1) (λ r. insert_writes-Falls srv r.0 r.1)

-- A round that is followed by another one had an error, and leaves fewer items that can fail.
abbrev Goes : Loop → RoundEnd → Type 0
Goes r (left t) = Unit
Goes r (threw t) = Unit
Goes r (again t) = (chances t.0 < chances r.0) × (t.1.had_error ≡ false)

commit_end-Goes :
    (c : Commit) (r t : Loop)
    → c ≢ commit_failed
    → r.1.had_error ≡ false
    → FallsTo r t
    → Goes r (commit_end c t)
unfolding commit_end chances
commit_end-Goes committed r t ne e h = elim (Bool-cases t.1.had_error) [
  | inl f ↦ rw f (h.strictly e f, refl)
  | inr f ↦ rw f tt
]
commit_end-Goes in_doubt r t ne e h = tt
commit_end-Goes commit_failed r t ne e h = absurd (ne refl)

round-Goes :
    (srv : Server) (r : Loop)
    → ((s : Session) → srv.commit s ≢ commit_failed)
    → r.1.had_error ≡ false
    → IfOk (Goes r) (round srv r)
unfolding round
round-Goes srv r commits e =
    IfOk->>= (FallsTo r) (Goes r) (sections srv r) _ (sections-FallsTo srv r)
      (λ t h. commit_end-Goes (srv.commit t.1.session) r t (commits t.1.session) e h)

-- A loop that is over: what `rounds` gives is no `none`.
abbrev pub Ends : Option RoundEnd → Type 0
Ends none = ⊥
Ends (some (left r)) = Unit
Ends (some (threw r)) = Unit
Ends (some (again r)) = ⊥

next_round-Ends :
    (srv : Server) (n : ℕ) (r : Loop) (end : RoundEnd)
    → Goes r end
    → ((t : Loop) → t.1.had_error ≡ false → chances t.0 < chances r.0 → IfOk Ends (rounds srv n t))
    → IfOk Ends (elim end [
      | left t ↦ ok (some (left t))
      | threw t ↦ ok (some (threw t))
      | again t ↦ rounds srv n t
    ])
next_round-Ends srv n r (left t) k next = tt
next_round-Ends srv n r (threw t) k next = tt
next_round-Ends srv n r (again t) k next = next t k.1 k.0

-- The loop around the insertions ends. If no commit fails for another reason than that it is in
-- doubt, then more rounds than there are queries, tables and buffers that are not flagged yet are
-- enough, from a state without an error: unless the code reads past the end of a vector, the loop is
-- left after a round without an error, or the job ends with the exception of a commit in doubt.
pub rounds-Ends :
    (srv : Server) (n : ℕ) (r : Loop)
    → ((s : Session) → srv.commit s ≢ commit_failed)
    → r.1.had_error ≡ false
    → chances r.0 < n
    → IfOk Ends (rounds srv n r)
unfolding rounds
rounds-Ends srv zero r commits e h = absurd (omega arith)
rounds-Ends srv (suc n) r commits e h =
    IfOk->>= (Goes r) Ends (round srv r) _ (round-Goes srv r commits e) (λ end k.
      next_round-Ends srv n r end k (λ t f fewer. rounds-Ends srv n t commits f (omega arith)))
