-- ===== src/Cache/Clean.antt =====
-- `cleanExpiredEntries` of cacheUtils.ts, which runs at each start: which texts it removes.
use text.Mathlib.Text.{starts_with}
use net_test_toy.Cache.{
  Host, cache_prefix, clean_entry, clean_expired_entries, clean_keys, construct, is_expired, millis,
}
use net_test_toy.Base.{
  Bool, List, Option, String, [], arith, false, if◌then◌else◌, none, refl, some, true, ℕ, ◌&&◌, ◌*◌,
  ◌==◌, ◌∷◌, ◌≡◌,
}
use net_test_toy.Base.Texts.{includes}
use net_test_toy.Base.Dict.{keys, lookup, lookup-absent, lookup-erase}
use net_test_toy.Storage.{Storage}

module _ {D : Type 0} (h : Host D) where
  -- A text is bad when it is no entry, or an entry of more than seven days; the empty text is not.
  abbrev pub is_bad : ℕ → String → Bool
  is_bad now text = if text == "" then false else elim (h.parse text) [
    | none ↦ true
    | some entry ↦ is_expired now (millis (7 * 24 * 60 * 60 * 1000)) entry.timestamp
  ]

  -- What is left of the text under a key.
  abbrev pub left_of : ℕ → String → Option String → Option String
  left_of now k none = none
  left_of now k (some text) =
      if starts_with k cache_prefix && is_bad now text then none else some text

  left_of-left_of :
      (now : ℕ) (k : String) (t : Option String) → left_of now k (left_of now k t) ≡ left_of now k t
  left_of-left_of now k none = refl
  left_of-left_of now k (some text) = ground arith

  lookup-clean_entry :
      (now : ℕ) (j k : String) (s : Storage)
      → lookup j (clean_entry h now k s)
        ≡ (if k == j then left_of now j (lookup j s) else lookup j s)
  unfolding clean_entry
  lookup-clean_entry now j k s = ground (arith, lookup-erase k j s)

  lookup-clean_keys :
      (now : ℕ) (j : String) (ks : List String) (s : Storage)
      → lookup j (clean_keys h now ks s)
        ≡ (if includes j ks then left_of now j (lookup j s) else lookup j s)
  unfolding clean_keys
  lookup-clean_keys now j [] s = refl
  lookup-clean_keys now j (k ∷ ks) s = ground (
    arith,
    lookup-clean_keys now j ks (clean_entry h now k s),
    lookup-clean_entry now j k s,
    left_of-left_of now j (lookup j s),
  )

  -- A start of the program removes exactly the texts under the cache's prefix that are no entries or
  -- are entries of more than seven days, whatever time to live they have. Texts without a
  -- time and empty texts stay.
  pub lookup-clean_expired_entries :
      (now : ℕ) (j : String) (s : Storage)
      → lookup j (construct h now s).storage ≡ left_of now j (lookup j s)
  unfolding construct clean_expired_entries
  lookup-clean_expired_entries now j s =
      ground (arith, lookup-clean_keys now j (keys s) s, lookup-absent j s)
