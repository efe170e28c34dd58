-- ===== src/Cache/Json.antt =====
-- What cacheUtils.ts relies on of the browser's JSON and of the two names in the storage.
use text.Mathlib.TextLemmas.{append_cancel_left}
use net_test_toy.Cache.{Entry, Host, Parsed, cache_prefix, get_cache_key}
use net_test_toy.Base.{String, some, ◌≡◌, ◌≢◌}

abbrev pub written : {D : Type 0} → Entry D → Parsed D
written e = record { payload = e.payload; timestamp = some e.timestamp; version = some e.version }

-- `JSON.parse` undoes `JSON.stringify`, which never returns the empty text.
pub record IsJson {D : Type 0} (h : Host D) : Type 0 where
  pub parse-stringify : (e : Entry D) → h.parse (h.stringify e) ≡ some (written e)
  pub stringify-ne-empty : (e : Entry D) → h.stringify e ≢ ""

pub get_cache_key-injective : (j k : String) → get_cache_key j ≡ get_cache_key k → j ≡ k
unfolding get_cache_key
get_cache_key-injective j k e = append_cancel_left cache_prefix j k e

pub get_cache_key-ne : (j k : String) → j ≢ k → get_cache_key j ≢ get_cache_key k
get_cache_key-ne j k h e = h (get_cache_key-injective j k e)
