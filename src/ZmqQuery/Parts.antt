-- ===== src/ZmqQuery/Parts.antt =====
-- What the accessors of a query read after the setters of a reply.
use services_backend.Common.{ℕ, zero, suc, ◌/◌, ◌^◌, ◌<◌, ◌≡◌, [], ◌∷◌, Bytes, arith}
use native.Mathlib.Nat.{pow-suc}
use services_backend.ZmqQuery.{ZmqQuery, le_bytes, le_value}

-- A number that fits is read back as it was written: `msg_id` after a client's four bytes.
pub le_value-le_bytes : (w n : ℕ) → n < 256 ^ w → le_value (le_bytes w n) ≡ n
unfolding le_value le_bytes
le_value-le_bytes zero n h = omega arith
le_value-le_bytes (suc w) n h =
    omega (arith, le_value-le_bytes w (n / 256) (omega (arith, pow-suc 256 w)))

-- A query as the receivers store it.
abbrev pub IsReceived : ZmqQuery → Type 0
IsReceived q =
    (c : Bytes) × (i : Bytes) × (t : Bytes) × (m : Bytes) × (q.parts ≡ c ∷ i ∷ t ∷ m ∷ [])
