-- ===== src/Cache/Lookup.antt =====
-- `set`, `get`, `has` and `remove` of cacheUtils.ts against one another.
use net_test_toy.Base.{
  ◌+◌, ◌≤◌, ◌<◌, refl, false, ℕ, String, ◌≡◌, ◌≢◌, true, Option, none, some, arith,
}
use net_test_toy.Base.Dict.{lookup, insert, lookup-insert, lookup-erase}
use net_test_toy.Cache.{
  Ttl, millis, infinity, entry_of, Host, Manager, CacheConfig, get_cache_key, set, get, is_expired,
  is_version, ttl_of,
}
use net_test_toy.Cache.Json.{IsJson}

-- The time to live covers the time from `now` to `later`.
abbrev pub IsLive : ℕ → ℕ → Ttl → Type 0
IsLive now later (millis n) = later ≤ now + n
IsLive now later infinity = Unit

is_expired-live :
    (now later : ℕ) (t : Ttl) → IsLive now later t → is_expired later t (some now) ≡ false
unfolding is_expired
is_expired-live now later (millis n) live = ground arith
is_expired-live now later infinity live = refl

module _ {D : Type 0} (h : Host D) where
  -- Where the storage has room, `set` writes the entry under the cache's key.
  pub set_room :
      (now : ℕ) (key : String) (payload : Option D) (version : Option String) (m : Manager)
      → h.room m.storage (get_cache_key key) (h.stringify (entry_of now payload version)) ≡ true
      → (set h now key payload version m).storage
        ≡ insert (get_cache_key key) (h.stringify (entry_of now payload version)) m.storage
  unfolding set
  set_room now key payload version m r = rw r

  -- With JSON as documented, after a `set` for which the storage has room, `get` of that key with
  -- the same version returns the stored value as long as the time to live has not run out.
  pub get-set :
      (laws : IsJson h) (now later : ℕ) (key : String) (payload : Option D) (config : CacheConfig)
      (m : Manager)
      → h.room m.storage (get_cache_key key) (h.stringify (entry_of now payload config.version))
        ≡ true
      → IsLive now later (ttl_of config.ttl)
      → (get h later key config (set h now key payload config.version m)).0 ≡ payload
  unfolding get is_version is_expired
  get-set laws now later key payload config m r live = ground (
    arith,
    is_expired-live now later (ttl_of config.ttl) live,
    set_room now key payload config.version m r,
    laws.parse-stringify (entry_of now payload config.version),
    laws.stringify-ne-empty (entry_of now payload config.version),
    lookup-insert (get_cache_key key) (get_cache_key key)
        (h.stringify (entry_of now payload config.version)) m.storage,
  )

  -- With JSON as documented, after a `set` for which the storage has room, and more than `n`
  -- milliseconds after it, a `get` of that key with the same version and the time to live `n` returns
  -- null and removes the entry.
  pub get-set_expired :
      (laws : IsJson h) (now later n : ℕ) (key : String) (payload : Option D)
      (version : Option String) (m : Manager)
      → h.room m.storage (get_cache_key key) (h.stringify (entry_of now payload version)) ≡ true
      → now + n < later
      → let config : CacheConfig = record { ttl = some (millis n); version = version } in
        let r = get h later key config (set h now key payload version m) in
        (r.0 ≡ none) × (lookup (get_cache_key key) r.1.storage ≡ none)
  unfolding get is_version is_expired
  get-set_expired laws now later n key payload version m r late = ground (
    arith,
    set_room now key payload version m r,
    laws.parse-stringify (entry_of now payload version),
    laws.stringify-ne-empty (entry_of now payload version),
    lookup-insert (get_cache_key key) (get_cache_key key)
        (h.stringify (entry_of now payload version)) m.storage,
    lookup-erase (get_cache_key key) (get_cache_key key) (set h now key payload version m).storage,
  )

  -- `get` leaves what is stored under every other key as it is, whatever it returns.
  pub lookup-get :
      (now : ℕ) (key : String) (config : CacheConfig) (m : Manager) (other : String)
      → other ≢ get_cache_key key
      → lookup other (get h now key config m).1.storage ≡ lookup other m.storage
  unfolding get
  lookup-get now key config m other ne =
      ground (arith, lookup-erase (get_cache_key key) other m.storage)

  -- A second `get` at the same time returns the same value and changes nothing more.
  pub get_again :
      (now : ℕ) (key : String) (config : CacheConfig) (m : Manager)
      → get h now key config (get h now key config m).1 ≡ get h now key config m
  unfolding get
  get_again now key config m =
      ground (arith, lookup-erase (get_cache_key key) (get_cache_key key) m.storage)
