-- ===== src/ZmqQuery.antt =====
-- DataModel/ZmqQuery.h: one query, its message parts, its result and its error.
-- The debugging clock (`times`, `push_time`, `print_times`) is left out.
pub mod Parts
pub mod RoundTrip
use services_backend.Common.{
  ℕ, zero, suc, ◌+◌, ◌*◌, ◌/◌, ◌%◌, Bool, Option, List, [], ◌∷◌, Bytes, length, get_elem?, get_or,
  set, resize, take, ltb, Outcome, ok, fault, index_out_of_range, if◌then◌else◌,
}
use services_backend.Zstd.{compressed}

-- A field of a result row: `name()`, `type()` (an oid) and `c_str()`.
pub record Field : Type 0 where
  pub name : Bytes
  pub oid : ℕ
  pub c_str : Bytes

-- A row of a `pqxx::result` by what its accessors return: the text of column 0, and the fields in
-- order. `none` is an access that throws.
pub record Row : Type 0 where
  pub first : Option Bytes
  pub fields : Option (List Field)

-- The query's parts are [client, msg_id, topic, message] once received, and
-- [client, msg_id, success, results...] as a reply.
pub record ZmqQuery : Type 0 where
  pub parts : List Bytes
  pub decompress_buffer : Bytes
  pub result : List Row
  pub err : Bytes

-- Integers in memory, least significant byte first.
pub le_bytes : ℕ → ℕ → Bytes
le_bytes zero n = []
le_bytes (suc w) n = n % 256 ∷ le_bytes w (n / 256)

pub le_value : Bytes → ℕ
le_value [] = 0
le_value (b ∷ bs) = b + 256 * le_value bs

-- `query[i]`. The code indexes parts that `parts.resize` has made; a missing one reads as empty.
abbrev pub part : ZmqQuery → ℕ → Bytes
part q i = get_or q.parts i []

unfoldable pub client_id : ZmqQuery → Bytes
client_id q = part q 0

-- Four bytes are read, whatever the size of the part.
unfoldable pub msg_id : ZmqQuery → Outcome ℕ
msg_id q =
    if ltb (length (part q 1)) 4
    then fault index_out_of_range
    else ok (le_value (take 4 (part q 1)))

unfoldable pub topic : ZmqQuery → Bytes
topic q = part q 2

unfoldable pub msg_raw : ZmqQuery → Bytes
msg_raw q = part q 3

unfoldable pub is_compressed : ZmqQuery → Bool
unfolding compressed
is_compressed q = compressed (part q 3)

unfoldable pub msg : ZmqQuery → Bytes
unfolding is_compressed
msg q = if is_compressed q then q.decompress_buffer else part q 3

-- A default-constructed query: four empty parts.
unfoldable pub new_query : ZmqQuery
new_query = record { parts = [] ∷ [] ∷ [] ∷ [] ∷ []; decompress_buffer = []; result = []; err = [] }

unfoldable pub set_success : ℕ → ZmqQuery → ZmqQuery
set_success succeeded q = record q { parts = set q.parts 2 (le_bytes 4 succeeded) }

unfoldable pub set_response_rows : ℕ → ZmqQuery → ZmqQuery
set_response_rows n_rows q = record q { parts = resize (3 + n_rows) [] q.parts }

unfoldable pub set_response : ℕ → Bytes → ZmqQuery → ZmqQuery
set_response row_num val q = record q { parts = set q.parts (row_num + 3) val }

-- The overload for fundamental types; `w` is `sizeof(val)`.
unfoldable pub set_response_num : ℕ → ℕ → ℕ → ZmqQuery → ZmqQuery
unfolding set_response
set_response_num w row_num val q = set_response row_num (le_bytes w val) q

unfoldable pub clear : ZmqQuery → ZmqQuery
clear q = record q { result = []; err = []; decompress_buffer = [] }
