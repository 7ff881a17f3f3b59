-- ===== src/QueryBatch/Buffers.antt =====
-- The text of a buffer against the JSON array that it stands for.
use services_backend.Common.{
  ℕ, ◌+◌, ◌*◌, ◌<◌, ◌≤◌, ◌≡◌, refl, sym, false, List, [], ◌∷◌, ◌++◌, append_assoc, Bytes, arith,
  length, All, length-append, ◌==◌,
}
use services_backend.QueryBatch.{append_message, close_buffer}

-- The messages with `, ` between them.
unfoldable pub intercalate : List Bytes → Bytes
intercalate [] = []
intercalate (m ∷ []) = m
intercalate (m ∷ n ∷ ms) = m ++ (b',' ∷ b' ' ∷ intercalate (n ∷ ms))

-- An array that is still open, and the finished one. No messages give no array at all.
unfoldable pub open_array : List Bytes → Bytes
open_array ms = b'[' ∷ intercalate ms

unfoldable pub json_array : List Bytes → Bytes
json_array [] = []
json_array (m ∷ ms) = b'[' ∷ (intercalate (m ∷ ms) ++ b']' ∷ [])

abbrev pub NonEmpty : Bytes → Type 0
NonEmpty m = 0 < length m

intercalate-cons :
    (m : Bytes) (ms : List Bytes)
    → 0 < length ms
    → intercalate (m ∷ ms) ≡ m ++ (b',' ∷ b' ' ∷ intercalate ms)
unfolding intercalate
intercalate-cons m [] h = absurd (omega arith)
intercalate-cons m (n ∷ ms) h = refl

intercalate-snoc :
    (n : Bytes) (ms : List Bytes) (m : Bytes)
    → intercalate ((n ∷ ms) ++ m ∷ []) ≡ intercalate (n ∷ ms) ++ (b',' ∷ b' ' ∷ m)
unfolding intercalate
intercalate-snoc n [] m = refl
intercalate-snoc n (k ∷ ms) m =
    rw (intercalate-snoc k ms m) (sym (append_assoc n (b',' ∷ b' ' ∷ intercalate (k ∷ ms)) _))

pub length-intercalate : (m : Bytes) (ms : List Bytes) → length m ≤ length (intercalate (m ∷ ms))
unfolding intercalate
length-intercalate m [] = omega arith
length-intercalate m (n ∷ ms) = omega (arith, length-append m (b',' ∷ b' ' ∷ intercalate (n ∷ ms)))

-- Adding a message to the open array of `ms` gives the open array of `ms` and the message.
pub append_message-open_array :
    (ms : List Bytes) (m : Bytes)
    → All NonEmpty ms
    → append_message (open_array ms) m ≡ open_array (ms ++ m ∷ [])
unfolding append_message open_array
append_message-open_array [] m h = unfold intercalate in refl
append_message-open_array (n ∷ ms) m h = ground (
  arith,
  length-intercalate n ms,
  intercalate-snoc n ms m,
  append_assoc (intercalate (n ∷ ms)) (b',' ∷ b' ' ∷ []) m,
)

pub close_buffer-open_array :
    (ms : List Bytes) → All NonEmpty ms → close_buffer (open_array ms) ≡ json_array ms
unfolding close_buffer open_array json_array
close_buffer-open_array [] h = unfold intercalate in refl
close_buffer-open_array (m ∷ ms) h = ground (arith, length-intercalate m ms)

-- An open array is one byte long exactly if it has no messages.
pub length-open_array :
    (m : Bytes) (ms : List Bytes) → NonEmpty m → (length (open_array (m ∷ ms)) == 1) ≡ false
unfolding open_array
length-open_array m ms h = ground (arith, length-intercalate m ms)

-- The bytes of messages.
unfoldable pub total_length : List Bytes → ℕ
total_length [] = 0
total_length (m ∷ ms) = length m + total_length ms

-- Each separator takes two bytes.
pub length-intercalate_total :
    (m : Bytes) (ms : List Bytes)
    → length (intercalate (m ∷ ms)) ≡ total_length (m ∷ ms) + 2 * length ms
unfolding intercalate total_length
length-intercalate_total m [] = omega arith
length-intercalate_total m (n ∷ ms) =
    omega
      (arith, length-append m (b',' ∷ b' ' ∷ intercalate (n ∷ ms)), length-intercalate_total n ms)
