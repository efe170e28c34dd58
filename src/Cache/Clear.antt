-- ===== src/Cache/Clear.antt =====
-- `clear` of cacheUtils.ts: which texts of the storage it removes.
use text.Mathlib.Text.{starts_with}
use text.Mathlib.TextEquality.{starts_with_iff}
use text.Mathlib.TextLemmas.{prefix-append}
use net_test_toy.Cache.{
  CacheConfig, Host, Manager, cache_prefix, clear, get, get_cache_key, remove_cached,
}
use net_test_toy.Base.{List, String, [], arith, if◌then◌else◌, none, true, ℕ, ◌&&◌, ◌∷◌, ◌≡◌}
use net_test_toy.Base.Texts.{includes}
use net_test_toy.Base.Dict.{erase, keys, lookup, lookup-absent, lookup-erase}
use net_test_toy.Storage.{Storage}

lookup-remove_cached :
    (j : String) (ks : List String) (s : Storage)
    → lookup j (remove_cached ks s)
      ≡ (if starts_with j cache_prefix && includes j ks then none else lookup j s)
unfolding remove_cached
lookup-remove_cached j [] s = ground arith
lookup-remove_cached j (k ∷ ks) s = ground (
  arith,
  lookup-remove_cached j ks (if starts_with k cache_prefix then erase k s else s),
  lookup-erase k j s,
)

-- After `clear` every key with the cache's prefix is missing, and every other one is as before.
pub lookup-clear :
    (j : String) (m : Manager)
    → lookup j (clear m).storage ≡ (if starts_with j cache_prefix then none else lookup j m.storage)
unfolding clear
lookup-clear j m =
    ground (arith, lookup-remove_cached j (keys m.storage) m.storage, lookup-absent j m.storage)

get_cache_key-starts : (key : String) → starts_with (get_cache_key key) cache_prefix ≡ true
unfolding get_cache_key
get_cache_key-starts key = (starts_with_iff _ _).1 (prefix-append cache_prefix key)

module _ {D : Type 0} (h : Host D) where
  -- After `clear` every `get` returns null.
  pub get-clear :
      (now : ℕ) (key : String) (config : CacheConfig) (m : Manager)
      → (get h now key config (clear m)).0 ≡ none
  unfolding get
  get-clear now key config m =
      ground (arith, lookup-clear (get_cache_key key) m, get_cache_key-starts key)
