-- ===== src/Zstd.antt =====
-- The decompression that WriteWorkers, ReadWorkers and MulticastWorkers share, over the calls of
-- the bundled zstd library, which are parameters.
use services_backend.Common.{
  ℕ, ◌≡◌, Bool, false, Option, none, some, ◌++◌, ◌∷◌, ltb, if◌then◌else◌, Bytes, length, take, drop,
  resize, ◌&&◌, ◌==◌,
}

-- What `ZSTD_getFrameContentSize` returns: ZSTD_CONTENTSIZE_UNKNOWN, ZSTD_CONTENTSIZE_ERROR or a
-- size.
pub data FrameSize : Type 0 where
  unknown_size : FrameSize
  error_size : FrameSize
  known_size : ℕ → FrameSize

-- `decompress capacity source` is what `ZSTD_decompressDCtx` writes to the buffer, `none` where
-- `ZSTD_isError` holds of its result; `compress` is `ZSTD_compressCCtx` likewise.
-- By its documentation a frame of known size decompresses to that many bytes or is an error.
pub record Zstd : Type 0 where
  pub content_size : Bytes → FrameSize
  pub decompress : ℕ → Bytes → Option Bytes
  pub compress : Bytes → Option Bytes
  pub decompress_exact :
      (n : ℕ) (source out : Bytes)
      → content_size source ≡ known_size n
      → decompress n source ≡ some out
      → length out ≡ n

-- `MAX_DECOMPRESSED_MSG_SIZE`
abbrev pub max_decompressed_msg_size : ℕ
max_decompressed_msg_size = 655356

-- `ZmqQuery::compressed(msg)`: longer than four bytes, and the first four are `ZSTD_MAGIC_BYTES`.
-- (None of these is NUL, so `strncmp` compares all four.)
unfoldable pub compressed : Bytes → Bool
compressed (a ∷ b ∷ c ∷ d ∷ e ∷ rest) = a == 0x28 && (b == 0xB5 && (c == 0x2F && d == 0xFD))
compressed _ = false

pub data Inflated : Type 0 where
  bad_size : Inflated
  too_large : Inflated
  corrupt : Bytes → Inflated
  inflated : Bytes → Bytes → Inflated

-- Decompression of `source` into the string `buffer`. `corrupt b` and `inflated b m` hand back the
-- buffer, resized to the announced size; `m` is the view of the bytes that were written to it.
unfoldable pub inflate : Zstd → Bytes → Bytes → Inflated
inflate z source buffer = elim (z.content_size source) [
  | unknown_size ↦ bad_size
  | error_size ↦ bad_size
  | known_size n ↦
      if ltb max_decompressed_msg_size n
      then too_large
      else (let room = resize n 0 buffer in
          elim (z.decompress n source) [
            | none ↦ corrupt room
            | some out ↦
                let filled = out ++ drop (length out) room in
                inflated filled (take (length out) filled)
          ])
]

-- The text that decompression gives, if it does.
abbrev pub text_of : Inflated → Option Bytes
text_of bad_size = none
text_of too_large = none
text_of (corrupt room) = none
text_of (inflated filled text) = some text
