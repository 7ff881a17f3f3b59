-- ===== src/ResultWorkers/Rows.antt =====
-- The parts of a reply: its sender and number stay first, then the success flag and the rows.
use services_backend.Common.{
  set-append, ℕ, suc, ◌+◌, ◌≡◌, refl, sym, ap, ◌∙◌, Bool, true, false, Option, none, some, List, [],
  ◌∷◌, ◌++◌, map, append_assoc, Bytes, arith, length, length-append, length-resize, resize, set,
  Option-cases, inl, inr, if◌then◌else◌,
}
use services_backend.Zstd.{Zstd}
use services_backend.ZmqQuery.{
  ZmqQuery, Row, le_bytes, set_success, set_response_rows, set_response,
}
use services_backend.ResultWorkers.Reply.{compress_msg, one_row, failure, copy_rows, result_reply}

-- The parts of a message or reply, its first three and the rest.
abbrev pub Parts : ZmqQuery → Bytes → Bytes → Bytes → List Bytes → Type 0
Parts q c i s rows = q.parts ≡ c ∷ i ∷ s ∷ rows

pub set_success-Parts :
    (n : ℕ) (q : ZmqQuery) {c i s : Bytes} {rows : List Bytes}
    → Parts q c i s rows
    → Parts (set_success n q) c i (le_bytes 4 n) rows
unfolding set_success
set_success-Parts n q h = rw h

pub set_response_rows-Parts :
    (n : ℕ) (q : ZmqQuery) {c i s : Bytes} {rows : List Bytes}
    → Parts q c i s rows
    → Parts (set_response_rows n q) c i s (resize n [] rows)
unfolding set_response_rows
set_response_rows-Parts n q h = let e : 3 + n ≡ suc (suc (suc n)) = omega arith in rw e (rw h refl)

pub set_response-Parts :
    (k : ℕ) (v : Bytes) (q : ZmqQuery) {c i s : Bytes} {rows : List Bytes}
    → Parts q c i s rows
    → Parts (set_response k v q) c i s (set rows k v)
unfolding set_response
set_response-Parts k v q h = let e : k + 3 ≡ suc (suc (suc k)) = omega arith in rw e (rw h refl)

pub one_row-Parts :
    (n : ℕ) (text : Bytes) (q : ZmqQuery) {c i s : Bytes} {rows : List Bytes}
    → Parts q c i s rows
    → Parts (one_row n text q) c i (le_bytes 4 n) (text ∷ [])
unfolding one_row
one_row-Parts n text q {rows = []} h =
    set_response-Parts 0 text (set_response_rows 1 (set_success n q))
      (set_response_rows-Parts 1 (set_success n q) (set_success-Parts n q h))
one_row-Parts n text q {rows = r ∷ rows} h =
    set_response-Parts 0 text (set_response_rows 1 (set_success n q))
      (set_response_rows-Parts 1 (set_success n q) (set_success-Parts n q h))

-- The texts of all rows, unless an access throws.
unfoldable pub all_texts : (Row → Option Bytes) → List Row → Option (List Bytes)
all_texts read [] = some []
all_texts read (r ∷ rs) = elim (read r) [
  | none ↦ none
  | some text ↦ elim (all_texts read rs) [ none ↦ none | some texts ↦ some (text ∷ texts) ]
]

-- What `copy_rows` leaves: all texts behind those that were there, or some rows and the flag.
data Copied (z : Zstd) (done : List Bytes) (c i s : Bytes) (r : Bool × ZmqQuery)
    : Option (List Bytes) → Type 0 where
  all :
      (texts : List Bytes)
      → r.0 ≡ false
      → Parts r.1 c i s (done ++ map (compress_msg z) texts)
      → Copied z done c i s r (some texts)
  thrown : (rows : List Bytes) → r.0 ≡ true → Parts r.1 c i s rows → Copied z done c i s r none

abbrev prepend : Bytes → Option (List Bytes) → Option (List Bytes)
prepend text none = none
prepend text (some texts) = some (text ∷ texts)

prepend-Copied :
    (z : Zstd) (done : List Bytes) (c i s text : Bytes) (r : Bool × ZmqQuery)
    (o : Option (List Bytes))
    → Copied z (done ++ compress_msg z text ∷ []) c i s r o
    → Copied z done c i s r (prepend text o)
prepend-Copied z done c i s text r o (all texts f h) = all (text ∷ texts) f (rw append_assoc at h)
prepend-Copied z done c i s text r o (thrown rows f h) = thrown rows f h

set_response-next :
    (done : List Bytes) (x : Bytes) (rest : List Bytes) (c i s v : Bytes) (q : ZmqQuery)
    → Parts q c i s (done ++ x ∷ rest)
    → Parts (set_response (length done) v q) c i s ((done ++ v ∷ []) ++ rest)
set_response-next done x rest c i s v q h =
    set_response-Parts (length done) v q h
    ∙ ap (λ rows. c ∷ i ∷ s ∷ rows)
        (set-append done x rest v ∙ sym (append_assoc done (v ∷ []) rest))

copy_rows-text :
    (z : Zstd) (read : Row → Option Bytes) (r : Row) (rs : List Row) (done : List Bytes)
    (text : Bytes) (q : ZmqQuery)
    → read r ≡ some text
    → (copy_rows z read (length done) (r ∷ rs) q
        ≡ copy_rows z read
            (length (done ++ compress_msg z text ∷ []))
            rs
            (set_response (length done) (compress_msg z text) q))
      × (all_texts read (r ∷ rs) ≡ prepend text (all_texts read rs))
unfolding copy_rows all_texts
copy_rows-text z read r rs done text q e = (
  rw (e, copy_rows)
      (ap (λ k. copy_rows z read k rs (set_response (length done) (compress_msg z text) q))
        (omega (arith, length-append done (compress_msg z text ∷ [])))),
  rw (e, all_texts) (joined (all_texts read rs)),
)
  where
    joined :
        (o : Option (List Bytes))
        → (elim o as (λ _. Option (List Bytes)) [ none ↦ none | some texts ↦ some (text ∷ texts) ])
          ≡ prepend text o
    joined none = refl
    joined (some texts) = refl

copy_rows-Copied :
    (z : Zstd) (read : Row → Option Bytes) (rs : List Row) (done rest : List Bytes) (c i s : Bytes)
    (q : ZmqQuery)
    → length rest ≡ length rs
    → Parts q c i s (done ++ rest)
    → Copied z done c i s (copy_rows z read (length done) rs q) (all_texts read rs)
copy_rows-Copied z read [] done [] c i s q n h = unfold copy_rows all_texts in all [] refl h
copy_rows-Copied z read [] done (x ∷ rest) c i s q n h = absurd (omega arith)
copy_rows-Copied z read (r ∷ rs) done [] c i s q n h = absurd (omega arith)
copy_rows-Copied z read (r ∷ rs) done (x ∷ rest) c i s q n h = elim (Option-cases (read r)) [
  | inl e ↦ unfold copy_rows all_texts in rw (e, copy_rows, all_texts) (thrown _ refl h)
  | inr (text, e) ↦
      let v = compress_msg z text in
      let (run, texts) = copy_rows-text z read r rs done text q e in
      rw (run, texts)
        (prepend-Copied z done c i s text _ _ (
          copy_rows-Copied z read rs (done ++ v ∷ []) rest c i s (set_response (length done) v q)
            (omega arith) (set_response-next done x rest c i s v q h)))
]

-- The success flag and the rows of the reply to a query with a result.
abbrev pub flag_of : Option (List Bytes) → Bytes
flag_of none = le_bytes 4 0
flag_of (some texts) = le_bytes 4 1

abbrev pub rows_of : Zstd → Bytes → Option (List Bytes) → List Bytes
rows_of z text none = compress_msg z text ∷ []
rows_of z text (some texts) = map (compress_msg z) texts

abbrev pub errors_of : Option (List Bytes) → ℕ → ℕ
errors_of none n = n + 1
errors_of (some texts) n = n

finish_copy :
    (z : Zstd) (c i s text : Bytes) (r : Bool × ZmqQuery) (o : Option (List Bytes)) (n : ℕ)
    → s ≡ le_bytes 4 1
    → Copied z [] c i s r o
    → let a : ZmqQuery × ℕ = (if r.0 then (failure z text r.1, n + 1) else (r.1, n)) in
      Parts a.0 c i (flag_of o) (rows_of z text o) × (a.1 ≡ errors_of o n)
finish_copy z c i s text r o n e (all texts f h) = rw f (rw (← e) h, refl)
finish_copy z c i s text r o n e (thrown rows f h) =
    rw f (unfold failure in (one_row-Parts 0 (compress_msg z text) r.1 h, refl))

-- The reply has the row texts, compressed and in order, or the error text if an access threw.
pub result_reply-Parts :
    (z : Zstd) (read : Row → Option Bytes) (text : Bytes) (q : ZmqQuery) (n : ℕ) (c i s m : Bytes)
    → Parts q c i s (m ∷ [])
    → let o = all_texts read q.result in
      Parts (result_reply z read text q n).0 c i (flag_of o) (rows_of z text o)
      × ((result_reply z read text q n).1 ≡ errors_of o n)
unfolding result_reply
result_reply-Parts z read text q n c i s m h = finish_copy z c i (le_bytes 4 1) text _ _ n refl (
    copy_rows-Copied z read q.result [] (resize (length q.result) [] (m ∷ [])) c i (le_bytes 4 1)
      (set_response_rows (length q.result) (set_success 1 q))
      (length-resize (length q.result) [] (m ∷ []))
      (set_response_rows-Parts (length q.result) (set_success 1 q) (set_success-Parts 1 q h)))
