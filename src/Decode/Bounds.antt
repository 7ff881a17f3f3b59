-- ===== src/Decode/Bounds.antt =====
-- What decompression in place keeps, how much it stores, and what the next stage reads.
use services_backend.Common.{
  ℕ, zero, suc, ◌≤◌, ◌≡◌, ◌≢◌, refl, ap, ◌++◌, true, Option, none, some, [], ◌∷◌, Bytes, arith,
  length, length-resize, take, drop, resize, take_all, ltb, if◌then◌else◌, inl, inr, Bool-cases,
  append-nil,
}
use services_backend.Zstd.{
  Zstd, FrameSize, known_size, unknown_size, error_size, Inflated, bad_size, too_large, corrupt,
  inflated, inflate, text_of, max_decompressed_msg_size,
}
use services_backend.ZmqQuery.{ZmqQuery, part, msg, is_compressed}
use services_backend.Decode.{discard, message, decoded, decode_query, settle}

-- The parts of a query are left as they are, so its sender, number and topic are.
pub parts-decoded : (z : Zstd) (q : ZmqQuery) → (decoded (decode_query z q)).parts ≡ q.parts
unfolding decode_query decoded
parts-decoded z q = ground arith

drop_all : (xs : Bytes) (n : ℕ) → length xs ≤ n → drop n xs ≡ []
drop_all [] zero h = refl
drop_all [] (suc n) h = refl
drop_all (x ∷ xs) zero h = absurd (omega arith)
drop_all (x ∷ xs) (suc n) h = drop_all xs n (omega arith)

-- What a decompressor that returns `o` for `n` announced bytes leaves.
abbrev outcome_of : Bytes → ℕ → Option Bytes → Inflated
outcome_of buffer n none = corrupt (resize n 0 buffer)
outcome_of buffer n (some out) =
    let filled = out ++ drop (length out) (resize n 0 buffer) in
    inflated filled (take (length out) filled)

inflate-known :
    (z : Zstd) (source buffer : Bytes) (n : ℕ) (o : Option Bytes)
    → z.content_size source ≡ known_size n
    → z.decompress n source ≡ o
    → inflate z source buffer
      ≡ (if ltb max_decompressed_msg_size n then too_large else outcome_of buffer n o)
unfolding inflate
inflate-known z source buffer n none e f = rw (e, inflate) (rw f refl)
inflate-known z source buffer n (some out) e f = rw (e, inflate) (rw f refl)

outcome_of-exact :
    (buffer : Bytes) (n : ℕ) (out : Bytes)
    → length out ≡ n
    → outcome_of buffer n (some out) ≡ inflated out out
outcome_of-exact buffer n out e =
    rw
      (
        drop_all (resize n 0 buffer) (length out) (omega (arith, length-resize n 0 buffer)),
        append-nil out,
      )
      (ap (inflated out) (take_all out))

-- What comes out of `inflate` with a text: the text alone fills the buffer, and is within the limit.
pub record Fits (filled text : Bytes) : Type 0 where
  pub whole : filled ≡ text
  pub small : length text ≤ max_decompressed_msg_size

pub inflate-Fits :
    (z : Zstd) (source buffer filled text : Bytes)
    → inflate z source buffer ≡ inflated filled text
    → Fits filled text
inflate-Fits z source buffer filled text h = by_size (z.content_size source) refl
  where
    by_output :
        (n : ℕ) (o : Option Bytes)
        → z.content_size source ≡ known_size n
        → z.decompress n source ≡ o
        → Fits filled text
    by_output n none e f = ground (arith, inflate-known z source buffer n none e f)
    by_output n (some out) e f = ground (
      arith,
      inflate-known z source buffer n (some out) e f,
      outcome_of-exact buffer n out (z.decompress_exact n source out e f),
      z.decompress_exact n source out e f,
    )

    by_size : (s : FrameSize) → z.content_size source ≡ s → Fits filled text
    by_size unknown_size e = unfold inflate in ground arith
    by_size error_size e = unfold inflate in ground arith
    by_size (known_size n) e = by_output n (z.decompress n source) e refl

-- What was in the buffer before has no effect on the text.
pub text_of-inflate :
    (z : Zstd) (source old new : Bytes)
    → text_of (inflate z source old) ≡ text_of (inflate z source new)
text_of-inflate z source old new = by_size (z.content_size source) refl
  where
    by_output :
        (n : ℕ) (o : Option Bytes)
        → z.content_size source ≡ known_size n
        → z.decompress n source ≡ o
        → text_of (inflate z source old) ≡ text_of (inflate z source new)
    by_output n none e f =
        ground (arith, inflate-known z source old n none e f, inflate-known z source new n none e f)
    by_output n (some out) e f = ground (
      arith,
      inflate-known z source old n (some out) e f,
      inflate-known z source new n (some out) e f,
      outcome_of-exact old n out (z.decompress_exact n source out e f),
      outcome_of-exact new n out (z.decompress_exact n source out e f),
    )

    by_size :
        (s : FrameSize)
        → z.content_size source ≡ s
        → text_of (inflate z source old) ≡ text_of (inflate z source new)
    by_size unknown_size e = unfold inflate in ground arith
    by_size error_size e = unfold inflate in ground arith
    by_size (known_size n) e = by_output n (z.decompress n source) e refl

-- What the next stage finds in a decoded query: `msg()` reads the decoded text, nothing else of the
-- query has changed, and a text that was compressed is within the limit.
pub record Reads (q q' : ZmqQuery) (text : Bytes) : Type 0 where
  pub view : msg q' ≡ text
  pub kept : (q'.parts ≡ q.parts) × (q'.err ≡ q.err) × (q'.result ≡ q.result)
  pub limited : is_compressed q ≡ true → length text ≤ max_decompressed_msg_size

settle-Reads :
    (z : Zstd) (q q' : ZmqQuery) (text : Bytes)
    → is_compressed q ≡ true
    → settle q (inflate z (part q 3) q.decompress_buffer) ≡ message q' text
    → Reads q q' text
settle-Reads z q q' text c h = by_result (inflate z (part q 3) q.decompress_buffer) refl
  where
    by_result : (r : Inflated) → inflate z (part q 3) q.decompress_buffer ≡ r → Reads q q' text
    by_result bad_size e = unfold settle in ground arith
    by_result too_large e = unfold settle in ground arith
    by_result (corrupt room) e = unfold settle in ground arith
    by_result (inflated filled m) e =
        unfold settle msg is_compressed in
        ground (arith, inflate-Fits z (part q 3) q.decompress_buffer filled m e)

-- A query that decodes to a text is read back as that text by the database workers' `msg()`, keeps
-- its parts, result and error, and holds at most MAX_DECOMPRESSED_MSG_SIZE bytes if it was
-- compressed.
pub decode_query-Reads :
    (z : Zstd) (q q' : ZmqQuery) (text : Bytes)
    → decode_query z q ≡ message q' text
    → Reads q q' text
unfolding decode_query
decode_query-Reads z q q' text h = elim (Bool-cases (is_compressed q)) [
  | inl c ↦ settle-Reads z q q' text c (ground arith)
  | inr c ↦ unfold msg is_compressed in ground arith
]

-- A query that is discarded carries an error, and keeps its parts.
pub decode_query-discard :
    (z : Zstd) (q q' : ZmqQuery)
    → decode_query z q ≡ discard q'
    → (q'.err ≢ []) × (q'.parts ≡ q.parts)
unfolding decode_query
decode_query-discard z q q' h = ground arith
