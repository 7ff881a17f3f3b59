-- ===== src/DatabaseWorkers/Inserts/Lost.antt =====
-- Multicast buffers that the database refuses: what was executed before the last of them is lost.
use services_backend.Common.{
  ℕ, suc, ◌<◌, ◌≡◌, refl, ◌∙◌, Bool, true, false, List, [], ◌∷◌, ◌++◌, append_assoc, append-nil,
  sym, map, Bytes, All, arith, Bool-cases, inl, inr,
}
use services_backend.ZmqQuery.{Row}
use services_backend.Jobs.{Feed}
use services_backend.DatabaseWorkers.Server.{
  Server, Session, Statement, done, raised, feed_statement, renewed,
}
use services_backend.DatabaseWorkers.Inserts.{Inserts, fail_at}
use services_backend.DatabaseWorkers.Inserts.Clean.Feeds.{feed_done-Executes}
use services_backend.DatabaseWorkers.Inserts.Feeds.{
  count, feed_failed, feed_reply, feed_item, feed_items,
}

-- A database that refuses the buffers of a feed that `rejects` tells, and executes the others in an
-- open transaction.
pub record Refuses (srv : Server) (f : Feed) (rejects : Bytes → Bool) : Type 0 where
  pub accepted :
      (s : Session) (text : Bytes)
      → s.is_open ≡ true
      → rejects text ≡ false
      → (rows : List Row) × (versions : List ℕ) × (srv.answer s (feed_statement f text)
          ≡ done rows versions)
  pub refused :
      (s : Session) (text : Bytes)
      → s.is_open ≡ true
      → rejects text ≡ true
      → (versions : List ℕ) × (name : Bytes) × (what : Bytes) × (srv.answer s
            (feed_statement f text)
          ≡ raised versions name what)

-- The set of bad indices holds none from `i` on.
abbrev pub IsBelow : ℕ → List ℕ → Type 0
IsBelow i bad = All (λ k. k < i) bad

count-below : (i : ℕ) (bad : List ℕ) → IsBelow i bad → count bad i ≡ false
count-below i [] h = refl
count-below i (k ∷ bad) h = ground (arith, count-below i bad h.1)

IsBelow-suc : (i : ℕ) (bad : List ℕ) → IsBelow i bad → IsBelow (suc i) bad
IsBelow-suc i [] h = tt
IsBelow-suc i (k ∷ bad) h = (omega (arith, h.0), IsBelow-suc i bad h.1)

-- The loop before the buffer at `i`.
record Reached (i : ℕ) (stored : List Statement) (r : List ℕ × Inserts) : Type 0 where
  is_below : IsBelow i r.0
  is_open : r.1.session.is_open ≡ true
  same : r.1.session.stored ≡ stored

-- What is in the transaction after a buffer, and whether there was an error.
record Next (tx : List Statement) (had_error : Bool) (r : List ℕ × Inserts) : Type 0 where
  in_tx : r.1.session.tx ≡ tx
  error : r.1.had_error ≡ had_error

module _ (srv : Server) (f : Feed) (rejects : Bytes → Bool) (h : Refuses srv f rejects) where
  item_taken :
      (i : ℕ) (text : Bytes) (stored : List Statement) (r : List ℕ × Inserts)
      → Reached i stored r
      → rejects text ≡ false
      → Reached (suc i) stored (feed_item srv f i text r)
        × Next
            (r.1.session.tx ++ feed_statement f text ∷ [])
            r.1.had_error
            (feed_item srv f i text r)
  unfolding feed_item feed_reply
  item_taken i text stored r at e =
      let (rows, versions, answer) = h.accepted r.1.session text at.is_open e in
      let free = count-below i r.0 at.is_below in
      let d = feed_done-Executes f text r.1 in
      rw (free, answer)
        (
          record {
            is_below = IsBelow-suc i r.0 at.is_below;
            is_open = d.is_open ∙ at.is_open;
            same = d.stored ∙ at.same;
          },
          record { in_tx = d.tx; error = d.had_error },
        )

  item_refused :
      (i : ℕ) (text : Bytes) (stored : List Statement) (r : List ℕ × Inserts)
      → Reached i stored r
      → rejects text ≡ true
      → Reached (suc i) stored (feed_item srv f i text r) × Next [] true (feed_item srv f i text r)
  unfolding feed_item feed_reply feed_failed fail_at renewed
  item_refused i text stored r at e =
      let (versions, name, what, answer) = h.refused r.1.session text at.is_open e in
      let free = count-below i r.0 at.is_below in
      rw (free, answer)
        (
          record {
            is_below = (omega arith, IsBelow-suc i r.0 at.is_below);
            is_open = refl;
            same = at.same;
          },
          record { in_tx = refl; error = refl },
        )

  feed_item-Reached :
      (i : ℕ) (text : Bytes) (stored : List Statement) (r : List ℕ × Inserts)
      → Reached i stored r
      → Reached (suc i) stored (feed_item srv f i text r)
  feed_item-Reached i text stored r at = elim (Bool-cases (rejects text)) [
    | inl e ↦ (item_refused i text stored r at e).0
    | inr e ↦ (item_taken i text stored r at e).0
  ]

  -- Buffers that are all taken.
  items_taken :
      (i : ℕ) (texts : List Bytes) (stored : List Statement) (r : List ℕ × Inserts)
      → Reached i stored r
      → All (λ text. rejects text ≡ false) texts
      → (feed_items srv f i texts r).1.session.stored ≡ stored
        × Next
            (r.1.session.tx ++ map (feed_statement f) texts)
            r.1.had_error
            (feed_items srv f i texts r)
  unfolding feed_items
  items_taken i [] stored r at good =
      (at.same, record { in_tx = sym (append-nil r.1.session.tx); error = refl })
  items_taken i (text ∷ texts) stored r at good =
      let (reached, one) = item_taken i text stored r at good.0 in
      let (kept, rest) =
        items_taken (suc i) texts stored (feed_item srv f i text r) reached good.1 in
      (
        kept,
        record {
          in_tx =
              rest.in_tx
              ∙ (rw (one.in_tx) (append_assoc r.1.session.tx (feed_statement f text ∷ []) _));
          error = rest.error ∙ one.error;
        },
      )

  abbrev Lost : List Bytes → List Statement → List ℕ × Inserts → Type 0
  Lost post stored r =
      (r.1.session.tx ≡ map (feed_statement f) post)
      × (r.1.session.stored ≡ stored)
      × (r.1.had_error ≡ true)

  items_behind :
      (pre post : List Bytes) (bad : Bytes) (i : ℕ) (stored : List Statement) (r : List ℕ × Inserts)
      → Reached i stored r
      → rejects bad ≡ true
      → All (λ text. rejects text ≡ false) post
      → Lost post stored (feed_items srv f i (pre ++ bad ∷ post) r)
  unfolding feed_items
  items_behind [] post bad i stored r at e good =
      let (reached, one) = item_refused i bad stored r at e in
      let (kept, rest) = items_taken (suc i) post stored (feed_item srv f i bad r) reached good in
      (rest.in_tx ∙ (rw (one.in_tx) refl), kept, rest.error ∙ one.error)
  items_behind (text ∷ pre) post bad i stored r at e good =
      items_behind pre post bad (suc i) stored (feed_item srv f i text r)
        (feed_item-Reached i text stored r at) e good

  -- If the database refuses a multicast buffer and takes those behind it, the transaction was open, and
  -- none of the buffers was flagged before, then what was executed earlier is not committed: after the loop over the buffers the transaction holds exactly the
  -- insertions of the buffers behind the refused one, an error is noted, and nothing was stored. What
  -- the transaction held before the section and the buffers `pre`, taken or not, are lost.
  pub feed_items-Lost :
      (pre post : List Bytes) (bad : Bytes) (i : ℕ) (set : List ℕ) (s : Inserts)
      → s.session.is_open ≡ true
      → IsBelow i set
      → rejects bad ≡ true
      → All (λ text. rejects text ≡ false) post
      → let r = feed_items srv f i (pre ++ bad ∷ post) (set, s) in
        (r.1.session.tx ≡ map (feed_statement f) post)
        × (r.1.session.stored ≡ s.session.stored)
        × (r.1.had_error ≡ true)
  feed_items-Lost pre post bad i set s alive below e good =
      items_behind pre post bad i s.session.stored (set, s)
        (record { is_below = below; is_open = alive; same = refl }) e good
