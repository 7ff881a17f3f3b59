-- ===== src/Receiver/Delivery.antt =====
-- Every message that is received whole is handed on once, and nothing else is.
use services_backend.Common.{
  ◌≤◌, ltb, Outcome, ok, ◌≡◌, refl, sym, ap, ◌∙◌, true, false, List, [], ◌∷◌, ◌++◌, append_assoc,
  append-nil, Bytes, length, resize, arith, pop_back-snoc, length-resize, is_empty, Bool-cases, inl,
  inr, ◌==◌,
}
use services_backend.ZmqQuery.{ZmqQuery, new_query}
use services_backend.QueryBatch.{QueryBatch}
use services_backend.Receiver.{
  Receiver, ReceiverConfig, Input, Recv, RecvEnd, complete, Poll, readable, is_due, outgoing,
  transfer, poll_error, place, fill, received_into, receive, poll_receive, round,
}
use services_backend.Receiver.Parts.{IsBlank, length-place, update_back-snoc}

-- The queries of a list of batches, in order.
unfoldable pub all_queries : List QueryBatch → List ZmqQuery
all_queries [] = []
all_queries (b ∷ bs) = b.queries ++ all_queries bs

-- The local batch holds the queries `fin` that are complete, and behind them, if `make_new` is
-- false, one that is still being received.
pub data Held (r : Receiver) (fin : List ZmqQuery) : Type 0 where
  finished : r.make_new ≡ true → r.in_local_queue.queries ≡ fin → Held r fin
  pending :
      (q : ZmqQuery)
      → IsBlank q
      → r.make_new ≡ false
      → r.in_local_queue.queries ≡ fin ++ q ∷ []
      → Held r fin

-- A message that comes whole has at most four parts.
abbrev pub IsShort : Recv → Type 0
IsShort v = v.ending ≡ complete → length v.frames ≤ 4

-- A query with nothing but its parts.
unfoldable pub received_query : List Bytes → ZmqQuery
received_query parts = record { parts = parts; decompress_buffer = []; result = []; err = [] }

all_queries-snoc :
    (bs : List QueryBatch) (b : QueryBatch)
    → all_queries (bs ++ b ∷ []) ≡ all_queries bs ++ b.queries
unfolding all_queries
all_queries-snoc [] b = append-nil b.queries
all_queries-snoc (c ∷ bs) b =
    rw (all_queries-snoc bs b) (sym (append_assoc c.queries (all_queries bs) b.queries))

-- What is handed on is the complete queries.
outgoing-Held : (r : Receiver) (fin : List ZmqQuery) → Held r fin → (outgoing r).queries ≡ fin
unfolding outgoing
outgoing-Held r fin (finished m e) = rw (m, outgoing) e
outgoing-Held r fin (pending q b m e) = rw (m, outgoing) (rw e (pop_back-snoc fin q))

pub Held-same :
    (r r' : Receiver) (fin : List ZmqQuery)
    → r'.make_new ≡ r.make_new
    → r'.in_local_queue.queries ≡ r.in_local_queue.queries
    → Held r fin
    → Held r' fin
Held-same r r' fin m e (finished n f) = finished (m ∙ n) (e ∙ f)
Held-same r r' fin m e (pending q b n f) = pending q b (m ∙ n) (e ∙ f)

module _ (cfg : ReceiverConfig) where
  pub transfer-Held :
      (input : Input) (r : Receiver) (queue : List QueryBatch) (fin : List ZmqQuery)
      → input.get_new.queries ≡ []
      → Held r fin
      → (fin' : List ZmqQuery) × Held (transfer cfg input (r, queue)).0 fin'
        × (all_queries (transfer cfg input (r, queue)).1 ++ fin' ≡ all_queries queue ++ fin)
  unfolding transfer
  transfer-Held input r queue fin fresh h = elim (Bool-cases (is_due cfg input.now r)) [
    | inr wait ↦ rw wait (fin, h, refl)
    | inl due ↦ elim (Bool-cases (is_empty r.in_local_queue.queries)) [
      | inl none ↦ rw (due, none) (fin, Held-same r _ fin refl refl h, refl)
      | inr some ↦
          rw (due, some)
            (
              [],
              finished refl fresh,
              rw append-nil (
                  all_queries-snoc queue (outgoing r)
                  ∙ ap (◌++◌ (all_queries queue)) (outgoing-Held r fin h)),
            )
    ]
  ]

  fill-IsBlank : (fs : List Bytes) (q : ZmqQuery) → IsBlank q → IsBlank (fill cfg fs q)
  unfolding fill
  fill-IsBlank fs q b = (
    length-place cfg.part_order 0 fs (resize 4 [] q.parts) ∙ length-resize 4 [] q.parts,
    b.1,
    b.2,
    b.3,
  )

  -- The query that a receipt writes to stands behind the complete ones.
  received_into-Held :
      (fs : List Bytes) (r : Receiver) (fin : List ZmqQuery)
      → Held r fin
      → (q : ZmqQuery) × IsBlank q × (received_into cfg fs r ≡ fin ++ fill cfg fs q ∷ [])
  unfolding received_into
  received_into-Held fs r fin (finished m e) = (
    new_query,
    unfold new_query in (refl, refl, refl, refl),
    rw (m, received_into) (rw e (update_back-snoc _ fin new_query)),
  )
  received_into-Held fs r fin (pending q b m e) =
      (q, b, rw (m, received_into) (rw e (update_back-snoc _ fin q)))

module _ (cfg : ReceiverConfig) (arrange : Bytes → Bytes → Bytes → Bytes → List Bytes)
    (ordered : (a b c d : Bytes) (parts : List Bytes)
      → length parts ≡ 4
      → place cfg.part_order 0 (a ∷ b ∷ c ∷ d ∷ []) parts ≡ arrange a b c d) where
  -- The query of a message of four parts.
  unfoldable pub query_of : List Bytes → List ZmqQuery
  query_of (a ∷ b ∷ c ∷ d ∷ []) = received_query (arrange a b c d) ∷ []
  query_of _ = []

  -- The queries that a round receives: one if the poll finds a message, and it comes whole and in
  -- four parts, and none otherwise.
  unfoldable pub delivered : Poll → Recv → List ZmqQuery
  delivered readable v = elim v.ending [ complete ↦ query_of v.frames | _ ↦ [] ]
  delivered _ v = []

  whole-query :
      (fs : List Bytes) (q : ZmqQuery)
      → IsBlank q
      → (length fs == 4) ≡ true
      → fill cfg fs q ∷ [] ≡ query_of fs
  unfolding fill query_of
  whole-query [] q b h = ground arith
  whole-query (x0 ∷ []) q b h = ground arith
  whole-query (x0 ∷ x1 ∷ []) q b h = ground arith
  whole-query (x0 ∷ x1 ∷ x2 ∷ []) q b h = ground arith
  whole-query (x0 ∷ x1 ∷ x2 ∷ x3 ∷ []) q b h =
      unfold received_query in
      ground (arith, ordered x0 x1 x2 x3 (resize 4 [] q.parts) (length-resize 4 [] q.parts))
  whole-query (x0 ∷ x1 ∷ x2 ∷ x3 ∷ x4 ∷ xs) q b h = ground arith

  query_of-other : (fs : List Bytes) → (length fs == 4) ≡ false → query_of fs ≡ []
  unfolding query_of
  query_of-other [] h = refl
  query_of-other (x0 ∷ []) h = refl
  query_of-other (x0 ∷ x1 ∷ []) h = refl
  query_of-other (x0 ∷ x1 ∷ x2 ∷ []) h = refl
  query_of-other (x0 ∷ x1 ∷ x2 ∷ x3 ∷ []) h = ground arith
  query_of-other (x0 ∷ x1 ∷ x2 ∷ x3 ∷ x4 ∷ xs) h = refl

  -- What a receipt without a fault leaves.
  abbrev Received : Outcome Receiver → List ZmqQuery → List ZmqQuery → Type 0
  Received o fin new =
      (r : Receiver) × (fin' : List ZmqQuery) × (o ≡ ok r) × Held r fin' × (fin' ≡ fin ++ new)

  receive-Held :
      (fs : List Bytes) (en : RecvEnd) (r : Receiver) (fin : List ZmqQuery)
      → (en ≡ complete → length fs ≤ 4)
      → Held r fin
      → Received
          (receive cfg (record { frames = fs; ending = en }) r)
          fin
          (delivered readable (record { frames = fs; ending = en }))
  unfolding receive delivered
  receive-Held fs complete r fin short h =
      let (q, b, e) = received_into-Held cfg fs r fin h in
      elim (Bool-cases (length fs == 4)) [
        | inl four ↦ rw four (
          _,
          fin ++ query_of fs,
          refl,
          finished refl (e ∙ ap (◌++◌ fin) (whole-query fs q b four)),
          refl,
        )
        | inr other ↦
            let within : ltb 4 (length fs) ≡ false = ground (arith, short refl) in
            rw (other, within, query_of-other fs other, append-nil)
              (_, fin, refl, pending (fill cfg fs q) (fill-IsBlank cfg fs q b) refl e, refl)
      ]
  receive-Held fs en r fin short h =
      let (q, b, e) = received_into-Held cfg fs r fin h in
      (_, fin, refl, pending (fill cfg fs q) (fill-IsBlank cfg fs q b) refl e, sym (append-nil fin))

  poll_receive-Held :
      (input : Input) (p : Poll) (r : Receiver) (fin : List ZmqQuery)
      → input.polled ≡ p
      → IsShort input.recv
      → Held r fin
      → Received (poll_receive cfg input r) fin (delivered p input.recv)
  unfolding poll_receive
  poll_receive-Held input readable r fin e short h =
      rw (e, poll_receive) (receive-Held input.recv.frames input.recv.ending r fin short h)
  poll_receive-Held input p r fin e short h =
      rw (e, poll_receive)
        (unfold delivered poll_error in
          (_, fin, refl, Held-same r _ fin refl refl h, sym (append-nil fin)))

  -- A round of the thread does not fault if a message that comes whole has at most four parts. It
  -- keeps the local batch in order, and loses and adds no query: what is in the data model's queue
  -- and complete in the local batch after it is what was there before, and the message that the
  -- round received, if it came whole and in four parts. The pool gives a batch with no queries.
  -- `ordered` says where the thread puts four parts.
  pub round-Held :
      (input : Input) (r : Receiver) (queue : List QueryBatch) (fin : List ZmqQuery)
      → IsShort input.recv
      → input.get_new.queries ≡ []
      → Held r fin
      → (r' : Receiver) × (queue' : List QueryBatch) × (fin' : List ZmqQuery) × (round cfg input
            (r, queue)
          ≡ ok (r', queue'))
        × Held r' fin'
        × (all_queries queue' ++ fin'
            ≡ (all_queries queue ++ fin) ++ delivered input.polled input.recv)
  unfolding round
  round-Held input r queue fin short fresh h =
      let (mid, held, same) = transfer-Held cfg input r queue fin fresh h in
      let (r', fin', done, held', more) =
        poll_receive-Held input input.polled (transfer cfg input (r, queue)).0 mid refl short
          held in
      (
        r',
        (transfer cfg input (r, queue)).1,
        fin',
        rw done refl,
        held',
        rw (more, ← append_assoc) (rw same refl),
      )
