-- ===== src/Tests/Caches.antt =====
-- UserTools/DatabaseWorkers/DatabaseWorkers.cpp: runs of the slow control `CacheConfigs`.
use Prim.Native.Nat.{ℕ}
use services_backend.Common.{◌+◌, ◌≡◌, refl, none, some, [], ◌∷◌, Bytes, codes}
use services_backend.DatabaseWorkers.Cache.{
  ConfigCache, Configs, CallOutcome, open_now, cache_configs, connect_configs, take_configs,
  get_cached_configs, cache_configs-CallOutcome,
}

abbrev digit : ℕ → Bytes
digit n = (n + 48) ∷ []

abbrev old_cache : ConfigCache ℕ digit
old_cache = record {
  cached_configs = (codes "pmt", codes "{1}") ∷ [];
  base_config_id = 0;
  runmode_config_id = 0;
  base_config_var = none;
  runmode_config_var = none;
}

abbrev two_devices : ℕ → ℕ → Configs
two_devices base runmode = record {
  rows =
      (codes "mpmt", digit base) ∷ (codes "hv", digit runmode) ∷ (codes "mpmt", digit runmode) ∷ [];
  threw = none;
}

filled :
    (cache_configs ℕ digit (codes "{}") (some 3) (some 5) open_now two_devices old_cache).1
    ≡ codes "{3,5}"
unfolding cache_configs connect_configs take_configs get_cached_configs
filled = refl

cache_configs-CallOutcome_example :
    CallOutcome ℕ digit
      (some 3)
      (some 5)
      open_now
      two_devices
      old_cache
      (cache_configs ℕ digit (codes "{}") (some 3) (some 5) open_now two_devices old_cache)
cache_configs-CallOutcome_example =
    cache_configs-CallOutcome ℕ digit (codes "{}") (some 3) (some 5) open_now two_devices old_cache
