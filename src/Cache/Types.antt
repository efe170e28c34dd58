-- ===== src/Cache/Types.antt =====
-- utils/cacheUtils.ts: the entries of the cache, its state and its constants.
use net_test_toy.Base.{Bool, List, Option, String, ℕ, ◌*◌}
use net_test_toy.Storage.{Storage}

-- What `JSON.stringify` is given. `none` is the value null, which `get` gives on a miss as well. All
-- other data are of the type `D`, `undefined` among them where an entry has no data; `set` is given
-- data that JSON has, so never `undefined`.
pub record Entry (D : Type 0) : Type 0 where
  pub payload : Option D
  pub timestamp : ℕ
  pub version : String

-- What `JSON.parse` returns: a field may be missing, since another writer may own the text.
pub record Parsed (D : Type 0) : Type 0 where
  pub payload : Option D
  pub timestamp : Option ℕ
  pub version : Option String

pub data Ttl : Type 0 where
  millis : ℕ → Ttl
  infinity : Ttl

pub record CacheConfig : Type 0 where
  pub ttl : Option Ttl
  pub version : Option String

-- `is_cached_mode` is read for its truth only.
pub record CacheStatus : Type 0 where
  pub is_cached_mode : Bool
  pub last_api_success : Option ℕ
  pub failed_requests : ℕ

-- The browser: JSON on the values of the program, and whether `setItem` finds room.
-- `parse` is `none` where `JSON.parse` throws, or returns what has no fields.
pub record Host (D : Type 0) : Type 0 where
  pub stringify : Entry D → String
  pub parse : String → Option (Parsed D)
  pub stringify_status : CacheStatus → String
  pub parse_status : String → Option CacheStatus
  pub room : Storage → String → String → Bool

-- A listener is known by a number; `delivered` is the calls made, newest last.
pub record Manager : Type 0 where
  pub storage : Storage
  pub status : CacheStatus
  pub listeners : List ℕ
  pub delivered : List (ℕ × CacheStatus)

-- A key of the storage with the time of its entry, as the eviction collects them.
pub record Stamp : Type 0 where
  pub key : String
  pub timestamp : Option ℕ

abbrev pub cache_prefix : String
cache_prefix = "netstream_cache_"

abbrev pub cache_status_key : String
cache_status_key = "netstream_cache_status"

abbrev pub default_ttl : ℕ
default_ttl = 24 * 60 * 60 * 1000

abbrev pub cache_version : String
cache_version = "1.0.0"
