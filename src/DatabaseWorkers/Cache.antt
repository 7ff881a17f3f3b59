-- ===== src/DatabaseWorkers/Cache.antt =====
-- UserTools/DatabaseWorkers/DatabaseWorkers.cpp: the slow control `CacheConfigs`, which fills the
-- cache that replies to queries for cached configurations are read from, and `GetCachedConfigs`.
-- What the JSON parser and the database give is an argument, as is the text of an `int`. Of
-- `m_data->vars` it keeps the two keys that are set here.
use services_backend.Common.{
  ◌≡◌, refl, ap, ◌∙◌, inl, inr, Option, none, some, List, [], ◌∷◌, ◌++◌, Bytes, codes, arith,
  bytes_eq, bytes_eq→eq, bytes_lt, two_keys, Bool-cases, Option-cases, if◌then◌else◌,
}
use services_backend.ResultWorkers.Reply.{find_config}

-- `cached_configs[device]=json` on a `std::map`.
unfoldable pub assign : Bytes → Bytes → List (Bytes × Bytes) → List (Bytes × Bytes)
assign key value [] = (key, value) ∷ []
assign key value ((k, v) ∷ m) =
    if bytes_eq k key
    then (k, value) ∷ m
    else if bytes_lt key k
    then (key, value) ∷ (k, v) ∷ m
    else (k, v) ∷ assign key value m

-- How the connection is opened: it is open, it is not, or an exception with its text.
pub data Opened : Type 0 where
  open_now not_open : Opened
  open_threw : Bytes → Opened

-- The rows (device and configuration) that the query gives, and the exception that ends it, if any.
pub record Configs : Type 0 where
  pub rows : List (Bytes × Bytes)
  pub threw : Option Bytes

unfoldable pub fill_cache : List (Bytes × Bytes) → List (Bytes × Bytes) → List (Bytes × Bytes)
fill_cache [] m = m
fill_cache ((device, json) ∷ rows) m = fill_cache rows (assign device json m)

-- The configuration of a device in the rows, the last one if there are several.
unfoldable pub last_row : Bytes → List (Bytes × Bytes) → Option Bytes → Option Bytes
last_row key [] found = found
last_row key ((device, json) ∷ rows) found =
    last_row key rows (if bytes_eq device key then some json else found)

module _ (I : Type 0) (to_string : I → Bytes) where
  -- The cache and the two numbers.
  pub record ConfigCache : Type 0 where
    pub cached_configs : List (Bytes × Bytes)
    pub base_config_id : I
    pub runmode_config_id : I
    pub base_config_var : Option I
    pub runmode_config_var : Option I

  -- `GetCachedConfigs`
  unfoldable pub get_cached_configs : ConfigCache → Bytes
  get_cached_configs s =
      codes "{"
      ++ to_string s.base_config_id
      ++ codes ","
      ++ to_string s.runmode_config_id
      ++ codes "}"

  -- From the rows of the query on.
  unfoldable pub take_configs : I → I → Configs → ConfigCache → ConfigCache × Bytes
  take_configs base runmode r s = elim r.threw [
    | some text ↦ (s, text)
    | none ↦
        let s' : ConfigCache = record {
          cached_configs = fill_cache r.rows [];
          base_config_id = base;
          runmode_config_id = runmode;
          base_config_var = some base;
          runmode_config_var = some runmode;
        } in
        (s', get_cached_configs s')
  ]

  -- From the connection on, with what the query gives for two numbers.
  unfoldable pub connect_configs :
      I → I → Opened → (I → I → Configs) → ConfigCache → ConfigCache × Bytes
  connect_configs base runmode not_open query s =
      (s, codes "CacheConfigs returned false after connection attempt")
  connect_configs base runmode (open_threw text) query s = (s, text)
  connect_configs base runmode open_now query s = take_configs base runmode (query base runmode) s

  abbrev pub parse_error : Bytes → Bytes
  parse_error payload =
      codes "Error parsing CacheConfigs alert: '"
      ++ payload
      ++ codes "' does not contain 'base_config_id' and 'runmode_config_id' int keys"

  -- `CacheConfigs` for the payload, with the numbers that the parser finds in it.
  unfoldable pub cache_configs :
      Bytes → Option I → Option I → Opened → (I → I → Configs) → ConfigCache → ConfigCache × Bytes
  cache_configs payload none runmode opened query s = (s, parse_error payload)
  cache_configs payload (some base) none opened query s = (s, parse_error payload)
  cache_configs payload (some base) (some runmode) opened query s =
      connect_configs base runmode opened query s

-- Looking up a key in a map that one was assigned in.
find_config-assign :
    (key value : Bytes) (m : List (Bytes × Bytes)) (k : Bytes)
    → find_config k (assign key value m) ≡ (if bytes_eq key k then some value else find_config k m)
unfolding find_config assign
find_config-assign key value [] k = refl
find_config-assign key value ((k0, v0) ∷ m) k = elim (Bool-cases (bytes_eq k0 key)) [
  | inl same ↦
      let here : k0 ≡ key = bytes_eq→eq k0 key same in
      rw same (ground (arith, ap (λ x. bytes_eq x k) here))
  | inr other ↦ elim (Bool-cases (bytes_lt key k0)) [
    | inl front ↦ rw (other, front) refl
    | inr later ↦
        rw (other, later)
          (rw (find_config-assign key value m k)
            (two_keys key k0 k (some v0) (some value) (find_config k m) other))
  ]
]

-- The cache after all rows has the last one of each device.
find_config-fill_cache :
    (k : Bytes) (rows m : List (Bytes × Bytes))
    → find_config k (fill_cache rows m) ≡ last_row k rows (find_config k m)
unfolding fill_cache last_row
find_config-fill_cache k [] m = refl
find_config-fill_cache k ((device, json) ∷ rows) m =
    find_config-fill_cache k rows (assign device json m)
    ∙ ap (last_row k rows) (find_config-assign device json m k)

-- What a call has given: with both numbers, an open connection and no exception, the cache that the
-- rows say and the numbers; else the old cache.
module _ (I : Type 0) (to_string : I → Bytes) where
  pub Cached : I → I → List (Bytes × Bytes) → ConfigCache I to_string × Bytes → Type 0
  Cached base runmode rows (s, reply) =
      ((k : Bytes) → find_config k s.cached_configs ≡ last_row k rows none)
      × (s.base_config_id ≡ base)
      × (s.runmode_config_id ≡ runmode)
      × (s.base_config_var ≡ some base)
      × (s.runmode_config_var ≡ some runmode)
      × (reply ≡ get_cached_configs I to_string s)

  pub Taken : I → I → Configs → ConfigCache I to_string → ConfigCache I to_string × Bytes → Type 0
  Taken base runmode r s out = elim r.threw [
    | none ↦ Cached base runmode r.rows out
    | some text ↦ out ≡ (s, text)
  ]

  pub CallOutcome :
      Option I
      → Option I
      → Opened
      → (I → I → Configs)
      → ConfigCache I to_string
      → ConfigCache I to_string × Bytes
      → Type 0
  CallOutcome none runmode opened query s (s', reply) = s' ≡ s
  CallOutcome (some base) none opened query s (s', reply) = s' ≡ s
  CallOutcome (some base) (some runmode) not_open query s (s', reply) = s' ≡ s
  CallOutcome (some base) (some runmode) (open_threw text) query s out = out ≡ (s, text)
  CallOutcome (some base) (some runmode) open_now query s out =
      Taken base runmode (query base runmode) s out

  take_configs-Taken :
      (base runmode : I) (r : Configs) (s : ConfigCache I to_string)
      → Taken base runmode r s (take_configs I to_string base runmode r s)
  unfolding Taken Cached take_configs find_config
  take_configs-Taken base runmode r s = elim (Option-cases r.threw) [
    | inl e ↦ rw e ((λ k. find_config-fill_cache k r.rows []), refl, refl, refl, refl, refl)
    | inr (text, e) ↦ rw e refl
  ]

  -- Whatever the parser, the connection and the query give: with both numbers, an open connection
  -- and a query that ends, the cache has for each device the last configuration of the rows and
  -- none for a device that has no row, the two numbers are set, also in the variables, and they
  -- are the reply; in every other case the cache and the numbers are as before, and the reply to
  -- an exception is its text.
  pub cache_configs-CallOutcome :
      (payload : Bytes) (base runmode : Option I) (opened : Opened) (query : I → I → Configs)
      (s : ConfigCache I to_string)
      → CallOutcome base runmode opened query s
          (cache_configs I to_string payload base runmode opened query s)
  unfolding CallOutcome cache_configs connect_configs
  cache_configs-CallOutcome payload none runmode opened query s = refl
  cache_configs-CallOutcome payload (some base) none opened query s = refl
  cache_configs-CallOutcome payload (some base) (some runmode) not_open query s = refl
  cache_configs-CallOutcome payload (some base) (some runmode) (open_threw text) query s = refl
  cache_configs-CallOutcome payload (some base) (some runmode) open_now query s =
      take_configs-Taken base runmode (query base runmode) s
