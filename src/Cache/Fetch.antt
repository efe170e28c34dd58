-- ===== src/Cache/Fetch.antt =====
-- `withCache` of cacheUtils.ts: from the cache first, then from the API, then from stale data.
-- The promise of the fetcher is the value that it settles with, at the time `later`.
use net_test_toy.Base.{
  ℕ, String, ◌≡◌, ◌≢◌, Bool, true, false, Option, none, some, arith, if◌then◌else◌,
}
use net_test_toy.Base.Dict.{lookup, lookup-insert}
use net_test_toy.Cache.{
  CacheStatus, entry_of, ttl_of, version_of, Host, Manager, Ttl, infinity, CacheConfig,
  cache_status_key, get_cache_key, get, set, is_version, is_expired, update_status,
  record_api_success, record_api_failure,
}
use net_test_toy.Storage.{truthy}
use net_test_toy.Cache.Json.{IsJson}
use net_test_toy.Cache.Lookup.{IsLive, get-set}

-- How the fetcher's promise settles.
pub data Fetched (D : Type 0) : Type 0 where
  fresh : Option D → Fetched D
  failed : String → Fetched D

-- What `withCache` returns: cached data, with a refresh behind it; fresh data; stale data; or the
-- error that it throws again.
pub data Served (D : Type 0) : Type 0 where
  cached : D → Served D
  fetched : Option D → Served D
  stale : D → Served D
  thrown : String → Served D

module _ {D : Type 0} (h : Host D) where
  -- the first part: the cache is asked, unless a refresh is forced
  unfoldable pub look_up : ℕ → String → Option Ttl → Bool → Manager → Option D × Manager
  look_up now key ttl true m = (none, m)
  look_up now key ttl false m = get h now key (record { ttl = ttl; version = none }) m

  -- the refresh in the background after a hit
  pub refresh : ℕ → String → Fetched D → Manager → Manager
  refresh later key (fresh d) m = record_api_success h later (set h later key d none m)
  refresh later key (failed e) m = (record_api_failure h later m).1

  -- `cache.get(key, { ttl: Infinity })` after a failed fetch
  pub fall_back : ℕ → String → String → Manager → Served D × Manager
  fall_back later key error m =
      let (found, m') = get h later key (record { ttl = some infinity; version = none }) m in
      (elim found [ none ↦ thrown error | some d ↦ stale d ], m')

  -- the part after a miss
  pub fetch : ℕ → String → Fetched D → Manager → Served D × Manager
  unfolding fall_back
  fetch later key (fresh d) m = (fetched d, record_api_success h later (set h later key d none m))
  fetch later key (failed e) m = fall_back later key e (record_api_failure h later m).1

  pub with_cache : ℕ → ℕ → String → Option Ttl → Bool → Fetched D → Manager → Served D × Manager
  unfolding look_up refresh fetch
  with_cache now later key ttl force result m =
      let (found, m') = look_up now key ttl force m in
      elim found [
        | some d ↦ (cached d, refresh later key result m')
        | none ↦ fetch later key result m'
      ]

  lookup-update_status :
      (k : String) (st : CacheStatus) (m : Manager)
      → k ≢ cache_status_key
      → lookup k (update_status h st m).storage ≡ lookup k m.storage
  unfolding update_status
  lookup-update_status k st m ne =
      ground (arith, lookup-insert cache_status_key k (h.stringify_status st) m.storage)

  lookup-record_api_failure :
      (k : String) (now : ℕ) (m : Manager)
      → k ≢ cache_status_key
      → lookup k (record_api_failure h now m).1.storage ≡ lookup k m.storage
  unfolding record_api_failure
  lookup-record_api_failure k now m ne = grind (arith, lookup-update_status)

  lookup-record_api_success :
      (k : String) (now : ℕ) (m : Manager)
      → k ≢ cache_status_key
      → lookup k (record_api_success h now m).storage ≡ lookup k m.storage
  unfolding record_api_success
  lookup-record_api_success k now m ne = grind (arith, lookup-update_status)

  status-record_api_success :
      (now : ℕ) (m : Manager) → (record_api_success h now m).status.is_cached_mode ≡ false
  unfolding record_api_success update_status
  status-record_api_success now m = ground arith

  -- What `get` makes of the text under its key.
  value_of : ℕ → CacheConfig → Option String → Option D
  value_of now config stored = elim (truthy stored) [
    | none ↦ none
    | some text ↦ elim (h.parse text) [
      | none ↦ none
      | some entry ↦
          if is_version entry.version (version_of config.version)
          then (if is_expired now (ttl_of config.ttl) entry.timestamp then none else entry.payload)
          else none
    ]
  ]

  get-value_of :
      (now : ℕ) (key : String) (config : CacheConfig) (m : Manager)
      → (get h now key config m).0 ≡ value_of now config (lookup (get_cache_key key) m.storage)
  unfolding get value_of
  get-value_of now key config m = ground arith

  -- With JSON as documented, and for a key whose entry is not the saved API status: when a refresh is
  -- forced and the fetch fails, the value of an earlier `set` with room is returned as stale data,
  -- however old it is.
  pub forced_stale :
      (laws : IsJson h) (before now later : ℕ) (key : String) (d : D) (ttl : Option Ttl)
      (error : String) (m : Manager)
      → get_cache_key key ≢ cache_status_key
      → h.room m.storage (get_cache_key key) (h.stringify (entry_of before (some d) none)) ≡ true
      → (with_cache now later key ttl true (failed error) (set h before key (some d) none m)).0
        ≡ stale d
  unfolding with_cache
  forced_stale laws before now later key d ttl error m ne r = ground (
    arith,
    get-set h laws before later key (some d) (record { ttl = some infinity; version = none }) m r
        tt,
    lookup-record_api_failure (get_cache_key key) later (set h before key (some d) none m) ne,
    get-value_of later key (record { ttl = some infinity; version = none })
        (record_api_failure h later (set h before key (some d) none m)).1,
    get-value_of later key (record { ttl = some infinity; version = none })
        (set h before key (some d) none m),
  )

  -- With JSON as documented, room in the storage, and for a key whose entry is not the saved API
  -- status: a fetch that succeeds after a miss is returned as it is, ends the cached mode, and answers
  -- the next call until its time to live ends.
  pub fetched_then_cached :
      (laws : IsJson h) (now later next : ℕ) (key : String) (d : D) (ttl : Option Ttl)
      (force : Bool) (m : Manager)
      → get_cache_key key ≢ cache_status_key
      → (look_up now key ttl force m).0 ≡ none
      → h.room
          (look_up now key ttl force m).1.storage
          (get_cache_key key)
          (h.stringify (entry_of later (some d) none))
        ≡ true
      → IsLive later next (ttl_of ttl)
      → let r = with_cache now later key ttl force (fresh (some d)) m in
        (r.0 ≡ fetched (some d))
        × (r.1.status.is_cached_mode ≡ false)
        × ((look_up next key ttl false r.1).0 ≡ some d)
  unfolding with_cache
  fetched_then_cached laws now later next key d ttl force m ne miss r live =
      let m' = set h later key (some d) none (look_up now key ttl force m).1 in
      let config : CacheConfig = record { ttl = ttl; version = none } in
      ground (
        arith,
        get-set h laws later next key (some d) config (look_up now key ttl force m).1 r live,
        status-record_api_success later m',
        lookup-record_api_success (get_cache_key key) later m' ne,
        get-value_of next key config (record_api_success h later m'),
        get-value_of next key config m',
      )
