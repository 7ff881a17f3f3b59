-- ===== src/Receiver/Parts.antt =====
-- Where the parts of a received message end up.
use services_backend.Common.{
  ℕ, ◌+◌, ◌≡◌, refl, ap, List, [], ◌∷◌, ◌++◌, Bytes, length, resize, arith, set, zero, suc,
}
use services_backend.ZmqQuery.{ZmqQuery}
use services_backend.Receiver.{place, update_back}

-- A query under receipt: four parts, and nothing else set.
abbrev pub IsBlank : ZmqQuery → Type 0
IsBlank q = (length q.parts ≡ 4) × (q.decompress_buffer ≡ []) × (q.result ≡ []) × (q.err ≡ [])

pub length-set : {A : Type 0} (xs : List A) (i : ℕ) (v : A) → length (set xs i v) ≡ length xs
length-set [] i v = refl
length-set (x ∷ xs) zero v = refl
length-set (x ∷ xs) (suc i) v = ap suc (length-set xs i v)

pub length-place :
    (order : ℕ → ℕ) (k : ℕ) (fs parts : List Bytes) → length (place order k fs parts) ≡ length parts
unfolding place
length-place order k [] parts = refl
length-place order k (f ∷ fs) parts =
    omega (arith, length-place order (k + 1) fs (set parts _ f), length-set parts _ f)

pub update_back-snoc :
    (f : ZmqQuery → ZmqQuery) (qs : List ZmqQuery) (q : ZmqQuery)
    → update_back f (qs ++ q ∷ []) ≡ qs ++ f q ∷ []
update_back-snoc f [] q = refl
update_back-snoc f (x ∷ []) q = refl
update_back-snoc f (x ∷ y ∷ qs) q = ap (◌∷◌ x) (update_back-snoc f (y ∷ qs) q)

pub resize_self : (n : ℕ) (xs : List Bytes) → length xs ≡ n → resize n [] xs ≡ xs
resize_self zero [] h = refl
resize_self zero (x ∷ xs) h = absurd (omega arith)
resize_self (suc n) [] h = absurd (omega arith)
resize_self (suc n) (x ∷ xs) h = ap (◌∷◌ x) (resize_self n xs (omega arith))
