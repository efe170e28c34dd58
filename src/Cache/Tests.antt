-- ===== src/Cache/Tests.antt =====
-- Tests of the cache, and its theorems at concrete inputs.
use text.Mathlib.TextEquality.{eq_iff}
use text.Mathlib.Text.{starts_with}
use net_test_toy.Cache.{
  CacheConfig, Manager, cache_prefix, cache_status_key, clear, construct, entry_of, get,
  get_cache_key, handle_storage_error, initial_status, load_status, millis, record_api_failure, set,
  update_status,
}
use net_test_toy.Cache.Json.{get_cache_key-ne}
use net_test_toy.Cache.Status.{delivered-update_status, load_status-update_status, never_warns}
use net_test_toy.Cache.Fetch.{
  failed, fetched_then_cached, forced_stale, fresh, look_up, stale, with_cache,
}
use net_test_toy.Cache.Lookup.{get-set, get-set_expired, get_again, lookup-get}
use net_test_toy.Cache.Clear.{get-clear, lookup-clear}
use net_test_toy.Cache.Eviction.{handle_storage_error-foreign}
use net_test_toy.Cache.Sample.{
  new_manager, put_nat, put_option, sample_host, sample_host-IsJson, sample_host-IsStatusJson,
  stringify,
}
use net_test_toy.Cache.Clean.{left_of, lookup-clean_expired_entries}
use net_test_toy.Base.{
  [], arith, false, if◌then◌else◌, none, refl, some, true, ◌<>◌, ◌∙◌, ◌∷◌, ◌≡◌, ◌≢◌,
}
use net_test_toy.Base.Dict.{lookup}
use net_test_toy.Storage.{Storage}

abbrev short_lived : CacheConfig
short_lived = record { ttl = some (millis 10); version = none }

abbrev stored : Manager
stored = set sample_host 3 "k" (some 7) none new_manager

status_ne : get_cache_key "k" ≢ cache_status_key
unfolding get_cache_key
status_ne e =
    absurd
      (get_cache_key-ne "k" "status" (λ p. ground (arith, eq_iff "k" "status")) (e ∙ status_key))
  where
    status_key : cache_status_key ≡ get_cache_key "status"
    status_key = refl

get-set_example : (get sample_host 5 "k" short_lived stored).0 ≡ some 7
get-set_example =
    get-set sample_host sample_host-IsJson 3 5 "k" (some 7) short_lived new_manager refl
      (omega arith)

get-set_expired_example : (get sample_host 20 "k" short_lived stored).0 ≡ none
get-set_expired_example =
    (get-set_expired sample_host sample_host-IsJson 3 20 10 "k" (some 7) none new_manager refl
      (omega arith)).0

lookup-get_example :
    lookup "other" (get sample_host 20 "k" short_lived stored).1.storage
    ≡ lookup "other" stored.storage
unfolding get_cache_key
lookup-get_example =
    lookup-get sample_host 20 "k" short_lived stored "other"
      (λ e. ground (arith, eq_iff "other" (cache_prefix <> "k")))

get_again_example :
    get sample_host 20 "k" short_lived (get sample_host 20 "k" short_lived stored).1
    ≡ get sample_host 20 "k" short_lived stored
get_again_example = get_again sample_host 20 "k" short_lived stored

lookup-clear_example :
    lookup "other" (clear stored).storage
    ≡ (if starts_with "other" cache_prefix then none else lookup "other" stored.storage)
lookup-clear_example = lookup-clear "other" stored

get-clear_example : (get sample_host 5 "k" short_lived (clear stored)).0 ≡ none
get-clear_example = get-clear sample_host 5 "k" short_lived stored

never_warns_example : (record_api_failure sample_host 40000 new_manager).0 ≡ false
never_warns_example = never_warns sample_host 40000 new_manager

delivered-update_status_example :
    (update_status sample_host initial_status new_manager).delivered ≡ (1, initial_status) ∷ []
delivered-update_status_example = delivered-update_status sample_host initial_status new_manager

load_status-update_status_example :
    load_status sample_host (update_status sample_host initial_status new_manager).storage
    ≡ initial_status
load_status-update_status_example =
    load_status-update_status sample_host sample_host-IsStatusJson initial_status new_manager refl

missed : (look_up sample_host 20 "k" (some (millis 10)) false stored).0 ≡ none
unfolding look_up
missed = get-set_expired_example

forced_stale_example :
    (with_cache sample_host 20 21 "k" (some (millis 10)) true (failed "offline") stored).0 ≡ stale 7
forced_stale_example =
    forced_stale sample_host sample_host-IsJson 3 20 21 "k" 7 (some (millis 10)) "offline"
      new_manager status_ne refl

fetched_then_cached_example :
    (look_up sample_host 25 "k"
      (some (millis 10))
      false
      (with_cache sample_host 20 21 "k" (some (millis 10)) false (fresh (some 8)) stored).1).0
    ≡ some 8
fetched_then_cached_example =
    (fetched_then_cached sample_host sample_host-IsJson 20 21 25 "k" 8 (some (millis 10)) false
      stored status_ne missed refl (omega arith)).2

full_storage : Storage
unfolding stringify put_nat put_option
full_storage =
    (get_cache_key "a", stringify (entry_of 5 (some 1) none))
    ∷ (get_cache_key "b", stringify (entry_of 2 (some 1) none))
    ∷ []

handle_storage_error-foreign_example :
    lookup "other" (handle_storage_error sample_host stored.storage) ≡ lookup "other" stored.storage
handle_storage_error-foreign_example =
    handle_storage_error-foreign sample_host "other" stored.storage refl

lookup-clean_expired_entries_example :
    lookup "other" (construct sample_host 1000000000 stored.storage).storage
    ≡ left_of sample_host 1000000000 "other" (lookup "other" stored.storage)
lookup-clean_expired_entries_example =
    lookup-clean_expired_entries sample_host 1000000000 "other" stored.storage
