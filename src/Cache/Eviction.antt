-- ===== src/Cache/Eviction.antt =====
-- `handleStorageError` of cacheUtils.ts: the oldest quarter of the cache goes, and nothing else.
use text.Mathlib.Text.{starts_with}
use net_test_toy.Cache.{
  Host, Stamp, cache_prefix, collect_stamps, handle_storage_error, insert_stamp, is_after,
  remove_stamps, sort_stamps,
}
use net_test_toy.Cache.Stamps.{stamp_keys}
use net_test_toy.Base.{
  All, List, String, [], arith, drop, false, if◌then◌else◌, length, none, refl, some, suc, take,
  true, zero, ℕ, ◌++◌, ◌+◌, ◌/◌, ◌||◌, ◌∷◌, ◌≡◌,
}
use net_test_toy.Base.Texts.{includes}
use net_test_toy.Base.Dict.{erase, keys, lookup, lookup-erase}
use net_test_toy.Storage.{Storage}

abbrev pub HasTime : Stamp → Type 0
HasTime a = (t : ℕ) × (a.timestamp ≡ some t)

-- `a` is not newer than `b`.
abbrev pub NotAfter : Stamp → Stamp → Type 0
NotAfter a b = is_after a b ≡ false

abbrev Sorted : List Stamp → Type 0
Sorted [] = Unit
Sorted (a ∷ as') = All (NotAfter a) as' × Sorted as'

All-insert_stamp {ℓ} :
    (P : Stamp → Type ℓ) (a : Stamp) (bs : List Stamp) → P a → All P bs → All P (insert_stamp a bs)
All-insert_stamp P a [] p ps = (p, tt)
All-insert_stamp P a (b ∷ bs) p ps = ground (arith, All-insert_stamp P a bs p ps.1)

All-sort_stamps {ℓ} : (P : Stamp → Type ℓ) (bs : List Stamp) → All P bs → All P (sort_stamps bs)
All-sort_stamps P [] ps = tt
All-sort_stamps P (b ∷ bs) (p, ps) =
    All-insert_stamp P b (sort_stamps bs) p (All-sort_stamps P bs ps)

lookup-remove_stamps :
    (j : String) (bs : List Stamp) (s : Storage)
    → lookup j (remove_stamps bs s) ≡ (if includes j (stamp_keys bs) then none else lookup j s)
unfolding remove_stamps
lookup-remove_stamps j [] s = refl
lookup-remove_stamps j (b ∷ bs) s =
    ground (arith, lookup-remove_stamps j bs (erase b.key s), lookup-erase b.key j s)

abbrev IsCached : Stamp → Type 0
IsCached a = starts_with a.key cache_prefix ≡ true

All-take {ℓ} : (P : Stamp → Type ℓ) (n : ℕ) (bs : List Stamp) → All P bs → All P (take n bs)
All-take P zero bs ps = tt
All-take P (suc n) [] ps = tt
All-take P (suc n) (b ∷ bs) (p, ps) = (p, All-take P n bs ps)

All-push {ℓ} :
    (P : Stamp → Type ℓ) (as' : List Stamp) (b : Stamp) → All P as' → P b → All P (as' ++ b ∷ [])
All-push P [] b ps p = (p, tt)
All-push P (a ∷ as') b (q, ps) p = (q, All-push P as' b ps p)

not-includes_of_All :
    (j : String) (bs : List Stamp)
    → starts_with j cache_prefix ≡ false
    → All IsCached bs
    → includes j (stamp_keys bs) ≡ false
not-includes_of_All j [] n ps = refl
not-includes_of_All j (b ∷ bs) n ps = ground (arith, not-includes_of_All j bs n ps.1)

module _ {D : Type 0} (h : Host D) where
  collect_stamps-IsCached :
      (ks : List String) (found : List Stamp) (s : Storage)
      → All IsCached found
      → All IsCached (collect_stamps h ks found s).0
  unfolding collect_stamps
  collect_stamps-IsCached [] found s ps = ps
  collect_stamps-IsCached (k ∷ ks) found s ps =
      grind (arith, collect_stamps-IsCached ks, All-push IsCached found)

  lookup-collect_stamps :
      (j : String) (ks : List String) (found : List Stamp) (s : Storage)
      → starts_with j cache_prefix ≡ false
      → lookup j (collect_stamps h ks found s).1 ≡ lookup j s
  unfolding collect_stamps
  lookup-collect_stamps j [] found s n = refl
  lookup-collect_stamps j (k ∷ ks) found s n =
      grind (arith, lookup-collect_stamps j ks, lookup-erase k j s)

  -- The entries that the eviction finds, those that it removes, and those that it keeps.
  abbrev pub stamps : Storage → List Stamp
  stamps s = (collect_stamps h (keys s) [] s).0

  abbrev pub evicted : Storage → List Stamp
  evicted s = take ((length (stamps s) + 3) / 4) (sort_stamps (stamps s))

  abbrev pub kept : Storage → List Stamp
  kept s = drop ((length (stamps s) + 3) / 4) (sort_stamps (stamps s))

  -- What the eviction makes of a storage: a quarter of the entries found go, rounded up, and the
  -- others keep their texts; none that goes is newer than one that stays.
  pub record IsEvicted (s : Storage) : Type 0 where
    pub quarter : length (evicted s) ≡ (length (stamps s) + 3) / 4
    pub oldest : All (λ a. All (NotAfter a) (kept s)) (evicted s)
    pub parted :
        (j : String)
        → includes j (stamp_keys (stamps s))
          ≡ (includes j (stamp_keys (evicted s)) || includes j (stamp_keys (kept s)))
    pub gone : All (λ a. lookup a.key (handle_storage_error h s) ≡ none) (evicted s)
    pub stays : All (λ a. lookup a.key (handle_storage_error h s) ≡ lookup a.key s) (kept s)

  -- Texts of the storage that are not the cache's are never touched.
  pub handle_storage_error-foreign :
      (j : String) (s : Storage)
      → starts_with j cache_prefix ≡ false
      → lookup j (handle_storage_error h s) ≡ lookup j s
  unfolding handle_storage_error
  handle_storage_error-foreign j s n = ground (
    arith,
    lookup-remove_stamps j (evicted s) (collect_stamps h (keys s) [] s).1,
    not-includes_of_All j (evicted s) n (
        All-take IsCached _ _
          (All-sort_stamps IsCached (stamps s) (collect_stamps-IsCached (keys s) [] s tt))),
    lookup-collect_stamps j (keys s) [] s n,
  )
