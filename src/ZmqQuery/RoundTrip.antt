-- ===== src/ZmqQuery/RoundTrip.antt =====
-- What a client reads from a reply is what the setters of the reply were given.
use services_backend.Common.{
  ltb, ok, fault, index_out_of_range, if◌then◌else◌, ℕ, zero, suc, ◌+◌, ◌^◌, ◌<◌, ◌≤◌, ◌≡◌, ◌≢◌,
  refl, ◌∙◌, ap, List, [], ◌∷◌, length, get_or, set, resize, take, length-set, length-resize, arith,
}
use services_backend.ZmqQuery.{
  ZmqQuery, part, le_bytes, le_value, client_id, msg_id, set_success, set_response_rows,
  set_response, set_response_num,
}
use services_backend.ZmqQuery.Parts.{le_value-le_bytes}

module _ {A : Type 0} where
  get_or-set : (xs : List A) (i : ℕ) (v d : A) → i < length xs → get_or (set xs i v) i d ≡ v
  get_or-set [] i v d h = absurd (omega arith)
  get_or-set (x ∷ xs) zero v d h = refl
  get_or-set (x ∷ xs) (suc i) v d h = get_or-set xs i v d (omega arith)

  get_or-set_other :
      (xs : List A) (i k : ℕ) (v d : A) → k ≢ i → get_or (set xs i v) k d ≡ get_or xs k d
  get_or-set_other [] i k v d h = refl
  get_or-set_other (x ∷ xs) zero zero v d h = absurd (h refl)
  get_or-set_other (x ∷ xs) zero (suc k) v d h = refl
  get_or-set_other (x ∷ xs) (suc i) zero v d h = refl
  get_or-set_other (x ∷ xs) (suc i) (suc k) v d h = get_or-set_other xs i k v d (λ e. h (ap suc e))

  get_or-resize :
      (n : ℕ) (d : A) (xs : List A) (k : ℕ) (e : A)
      → k < n
      → k < length xs
      → get_or (resize n d xs) k e ≡ get_or xs k e
  get_or-resize zero d xs k e h g = absurd (omega arith)
  get_or-resize (suc n) d [] k e h g = absurd (omega arith)
  get_or-resize (suc n) d (x ∷ xs) zero e h g = refl
  get_or-resize (suc n) d (x ∷ xs) (suc k) e h g =
      get_or-resize n d xs k e (omega arith) (omega arith)

-- A reply with `n` rows and a number of `w` bytes in one of them.
abbrev pub number_reply : (succeeded n w row val : ℕ) → ZmqQuery → ZmqQuery
number_reply succeeded n w row val q =
    set_response_num w row val (set_response_rows n (set_success succeeded q))

-- A client reads from a reply what was written: the number in its row, for any width in which it
-- fits, the success flag, and the client and message id of the query. The query has its first three
-- parts, the row is one of the reply's, and the flag fits in 32 bits.
pub number_reply-reads :
    (succeeded n w row val : ℕ) (q : ZmqQuery)
    → 3 ≤ length q.parts
    → row < n
    → val < 256 ^ w
    → succeeded < 256 ^ 4
    → let r = number_reply succeeded n w row val q in
      (le_value (part r (row + 3)) ≡ val)
      × (le_value (part r 2) ≡ succeeded)
      × (client_id r ≡ client_id q)
      × (msg_id r ≡ msg_id q)
unfolding set_response_num set_response set_response_rows set_success client_id msg_id
number_reply-reads succeeded n w row val q parts here fits flag =
    let p1 = set q.parts 2 (le_bytes 4 succeeded) in
    let p2 = resize (3 + n) [] p1 in
    let v = le_bytes w val in
    let size1 = length-set q.parts 2 (le_bytes 4 succeeded) in
    let size2 = length-resize (3 + n) [] p1 in
    let kept : (k : ℕ) → k < 3 → get_or (set p2 (row + 3) v) k [] ≡ get_or p1 k [] = λ k h.
      get_or-set_other p2 (row + 3) k v [] (λ e. omega arith)
      ∙ get_or-resize (3 + n) [] p1 k [] (omega arith) (omega (arith, size1)) in
    (
      ap le_value (get_or-set p2 (row + 3) v [] (omega (arith, size2)))
          ∙ le_value-le_bytes w val fits,
      ap le_value
            (kept 2 (omega arith) ∙ get_or-set q.parts 2 (le_bytes 4 succeeded) [] (omega arith))
          ∙ le_value-le_bytes 4 succeeded flag,
      kept 0 (omega arith)
          ∙ get_or-set_other q.parts 2 0 (le_bytes 4 succeeded) [] (λ e. omega arith),
      ap (λ x. if ltb (length x) 4 then fault index_out_of_range else ok (le_value (take 4 x)))
          (kept 1 (omega arith)
            ∙ get_or-set_other q.parts 2 1 (le_bytes 4 succeeded) [] (λ e. omega arith)),
    )
