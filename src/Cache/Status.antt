-- ===== src/Cache/Status.antt =====
-- The API status of cacheUtils.ts: runs of failures, notices to the listeners, the saved copy.
use net_test_toy.Base.{
  ℕ, ◌+◌, ◌≡◌, ◌≢◌, true, false, ◌||◌, some, List, [], ◌∷◌, ◌++◌, map, arith, leb,
}
use net_test_toy.Base.Dict.{lookup-insert}
use net_test_toy.Cache.{
  Host, Manager, CacheStatus, cache_status_key, update_status, record_api_failure, load_status,
  is_silent,
}

-- What the documentation of JSON says of the status.
pub record IsStatusJson {D : Type 0} (h : Host D) : Type 0 where
  pub parse-stringify : (st : CacheStatus) → h.parse_status (h.stringify_status st) ≡ some st
  pub stringify-ne-empty : (st : CacheStatus) → h.stringify_status st ≢ ""

module _ {D : Type 0} (h : Host D) where
  status-update_status : (st : CacheStatus) (m : Manager) → (update_status h st m).status ≡ st
  unfolding update_status
  status-update_status st m = ground arith

  -- Failed calls at the times `ts`, in order.
  abbrev pub failures : List ℕ → Manager → Manager
  failures [] m = m
  failures (t ∷ ts) m = failures ts (record_api_failure h t m).1

  failed : ℕ → Manager → CacheStatus
  failed now m = record {
    is_cached_mode =
        leb 3 (m.status.failed_requests + 1) || is_silent now m.status.last_api_success;
    last_api_success = m.status.last_api_success;
    failed_requests = m.status.failed_requests + 1;
  }

  -- The warning that the cached mode begins is never printed: the code tests the mode after it
  -- has been set.
  pub never_warns : (now : ℕ) (m : Manager) → (record_api_failure h now m).0 ≡ false
  unfolding record_api_failure update_status
  never_warns now m = ground arith

  -- Each update calls each listener once, with the new status, in the order of subscription.
  pub delivered-update_status :
      (st : CacheStatus) (m : Manager)
      → (update_status h st m).delivered ≡ m.delivered ++ map (λ l. (l, st)) m.listeners
  unfolding update_status
  delivered-update_status st m = ground arith

  -- With JSON as documented and room in the storage, the status of an update is what the next
  -- start of the program loads.
  pub load_status-update_status :
      (laws : IsStatusJson h) (st : CacheStatus) (m : Manager)
      → h.room m.storage cache_status_key (h.stringify_status st) ≡ true
      → load_status h (update_status h st m).storage ≡ st
  unfolding update_status load_status
  load_status-update_status laws st m r = ground (
    arith,
    laws.parse-stringify st,
    laws.stringify-ne-empty st,
    lookup-insert cache_status_key cache_status_key (h.stringify_status st) m.storage,
  )
