-- ===== src/Cache/Stamps.antt =====
-- `handleStorageError` of cacheUtils.ts: the keys of the entries that it finds.
use text.Mathlib.Text.{starts_with}
use net_test_toy.Cache.{Host, Stamp, cache_prefix, collect_stamps, insert_stamp, sort_stamps}
use net_test_toy.Base.{
  All, All-append, All-mono, Bool-cases, List, Option, String, [], arith, drop, false, inl, inr,
  map, none, refl, some, suc, take, true, zero, ℕ, ◌++◌, ◌==◌, ◌||◌, ◌∙◌, ◌∷◌, ◌≡◌, ◌⊎◌,
}
use net_test_toy.Base.Texts.{Distinct, includes}
use net_test_toy.Base.Dict.{erase, keys, lookup, lookup-erase}
use net_test_toy.Storage.{Storage, truthy}

abbrev pub stamp_keys : List Stamp → List String
stamp_keys = map (λ a. a.key)

pub stamp_keys-append :
    (j : String) (as' bs : List Stamp)
    → includes j (stamp_keys (as' ++ bs))
      ≡ (includes j (stamp_keys as') || includes j (stamp_keys bs))
stamp_keys-append j [] bs = refl
stamp_keys-append j (a ∷ as') bs = ground (arith, stamp_keys-append j as' bs)

includes-insert_stamp :
    (j : String) (a : Stamp) (bs : List Stamp)
    → includes j (stamp_keys (insert_stamp a bs)) ≡ (j == a.key || includes j (stamp_keys bs))
includes-insert_stamp j a [] = refl
includes-insert_stamp j a (b ∷ bs) = ground (arith, includes-insert_stamp j a bs)

insert_stamp-Distinct :
    (a : Stamp) (bs : List Stamp)
    → includes a.key (stamp_keys bs) ≡ false
    → Distinct (stamp_keys bs)
    → Distinct (stamp_keys (insert_stamp a bs))
insert_stamp-Distinct a [] h d = (refl, tt)
insert_stamp-Distinct a (b ∷ bs) h d =
    ground (arith, includes-insert_stamp b.key a bs, insert_stamp-Distinct a bs)

pub includes-sort_stamps :
    (j : String) (bs : List Stamp)
    → includes j (stamp_keys (sort_stamps bs)) ≡ includes j (stamp_keys bs)
includes-sort_stamps j [] = refl
includes-sort_stamps j (b ∷ bs) =
    ground (arith, includes-insert_stamp j b (sort_stamps bs), includes-sort_stamps j bs)

pub sort_stamps-Distinct :
    (bs : List Stamp) → Distinct (stamp_keys bs) → Distinct (stamp_keys (sort_stamps bs))
sort_stamps-Distinct [] d = tt
sort_stamps-Distinct (b ∷ bs) (h, d) =
    insert_stamp-Distinct b (sort_stamps bs) (includes-sort_stamps b.key bs ∙ h)
      (sort_stamps-Distinct bs d)

includes-drop :
    (n : ℕ) (j : String) (bs : List Stamp)
    → includes j (stamp_keys (drop n bs)) ≡ true
    → includes j (stamp_keys bs) ≡ true
includes-drop zero j bs h = h
includes-drop (suc n) j [] h = h
includes-drop (suc n) j (b ∷ bs) h = ground (arith, includes-drop n j bs h)

-- A key of what is dropped is not one of what is taken.
pub drop-take_keys :
    (n : ℕ) (j : String) (bs : List Stamp)
    → Distinct (stamp_keys bs)
    → includes j (stamp_keys (drop n bs)) ≡ true
    → includes j (stamp_keys (take n bs)) ≡ false
drop-take_keys zero j bs d h = refl
drop-take_keys (suc n) j [] d h = refl
drop-take_keys (suc n) j (b ∷ bs) (e, d) h =
    ground (arith, e, includes-drop n j bs h, drop-take_keys n j bs d h)

option-cases {ℓ} : {A : Type ℓ} (o : Option A) → (o ≡ none) ⊎ ((a : A) × (o ≡ some a))
option-cases none = inl refl
option-cases (some a) = inr (a, refl)

abbrev IsNew : List String → Stamp → Type 0
IsNew ks a = includes a.key ks ≡ false

IsNew-tail : (k : String) (ks : List String) (a : Stamp) → IsNew (k ∷ ks) a → IsNew ks a
IsNew-tail k ks a h = ground (arith, h)

not-found :
    (k : String) (ks : List String) (found : List Stamp)
    → All (IsNew (k ∷ ks)) found
    → includes k (stamp_keys found) ≡ false
not-found k ks [] n = refl
not-found k ks (a ∷ found) (e, n) = ground (arith, e, not-found k ks found n)

pushed-IsNew :
    (a : Stamp) (ks : List String) (found : List Stamp)
    → All (IsNew (a.key ∷ ks)) found
    → includes a.key ks ≡ false
    → All (IsNew ks) (found ++ a ∷ [])
pushed-IsNew a ks found n f =
    All-append (IsNew ks) found (a ∷ []) (All-mono found (IsNew-tail a.key ks) n) (f, tt)

pushed-Distinct :
    (a : Stamp) (found : List Stamp)
    → includes a.key (stamp_keys found) ≡ false
    → Distinct (stamp_keys found)
    → Distinct (stamp_keys (found ++ a ∷ []))
pushed-Distinct a [] h d = (refl, tt)
pushed-Distinct a (b ∷ bs) h (e, d) =
    ground
      (arith, h, e, stamp_keys-append b.key bs (a ∷ []), pushed-Distinct a bs (ground (arith, h)) d)

module _ {D : Type 0} (h : Host D) where
  -- What `collect_stamps` does at a key
  step-cases :
      (k : String) (ks : List String) (found : List Stamp) (s : Storage)
      → (collect_stamps h (k ∷ ks) found s ≡ collect_stamps h ks found s)
        ⊎ ((collect_stamps h (k ∷ ks) found s ≡ collect_stamps h ks found (erase k s))
            ⊎ ((t : Option ℕ) × (collect_stamps h (k ∷ ks) found s
                  ≡ collect_stamps h ks (found ++ record { key = k; timestamp = t } ∷ []) s)))
  unfolding collect_stamps
  step-cases k ks found s = elim (Bool-cases (starts_with k cache_prefix)) [
    | inr e ↦ inl (rw e refl)
    | inl e ↦ elim (option-cases (truthy (lookup k s))) [
      | inl n ↦ inl (ground (arith, e, n))
      | inr (text, t) ↦ elim (option-cases (h.parse text)) [
        | inl n ↦ inr (inl (ground (arith, e, t, n)))
        | inr (entry, q) ↦ inr (inr (entry.timestamp, ground (arith, e, t, q)))
      ]
    ]
  ]

  includes-collect_stamps :
      (j : String) (ks : List String) (found : List Stamp) (s : Storage)
      → includes j (stamp_keys (collect_stamps h ks found s).0) ≡ true
      → (includes j (stamp_keys found) || includes j ks) ≡ true
  unfolding collect_stamps
  includes-collect_stamps j [] found s i = ground (arith, i)
  includes-collect_stamps j (k ∷ ks) found s i =
      grind (arith, includes-collect_stamps j ks, stamp_keys-append j found)

  collect_stamps-Distinct :
      (ks : List String) (found : List Stamp) (s : Storage)
      → All (IsNew ks) found
      → Distinct (stamp_keys found)
      → Distinct ks
      → Distinct (stamp_keys (collect_stamps h ks found s).0)
  unfolding collect_stamps
  collect_stamps-Distinct [] found s n d e = d
  collect_stamps-Distinct (k ∷ ks) found s n d (f, e) = elim (step-cases k ks found s) [
    | inl q ↦ rw q (collect_stamps-Distinct ks found s (All-mono found (IsNew-tail k ks) n) d e)
    | inr (inl q) ↦
        rw q (collect_stamps-Distinct ks found (erase k s) (All-mono found (IsNew-tail k ks) n) d e)
    | inr (inr (t, q)) ↦
        let a : Stamp = record { key = k; timestamp = t } in
        rw q (
          collect_stamps-Distinct ks (found ++ a ∷ []) s (pushed-IsNew a ks found n f)
            (pushed-Distinct a found (not-found k ks found n) d) e)
  ]

  pub stamps-Distinct :
      (s : Storage) → Distinct (keys s) → Distinct (stamp_keys (collect_stamps h (keys s) [] s).0)
  stamps-Distinct s d = collect_stamps-Distinct (keys s) [] s tt tt d

  lookup-collected :
      (j : String) (ks : List String) (found : List Stamp) (s : Storage)
      → All (IsNew ks) found
      → Distinct ks
      → includes j (stamp_keys (collect_stamps h ks found s).0) ≡ true
      → lookup j (collect_stamps h ks found s).1 ≡ lookup j s
  unfolding collect_stamps
  lookup-collected j [] found s n e i = refl
  lookup-collected j (k ∷ ks) found s n (f, e) i = elim (step-cases k ks found s) [
    | inl q ↦
        rw q (lookup-collected j ks found s (All-mono found (IsNew-tail k ks) n) e (rw q at i))
    | inr (inl q) ↦
        let i' = rw q at i in
        rw q (
          lookup-collected j ks found (erase k s) (All-mono found (IsNew-tail k ks) n) e i'
          ∙ ground (
            arith,
            lookup-erase k j s,
            includes-collect_stamps j ks found (erase k s) i',
            not-found k ks found n,
            f,
          ))
    | inr (inr (t, q)) ↦
        let a : Stamp = record { key = k; timestamp = t } in
        rw q (lookup-collected j ks (found ++ a ∷ []) s (pushed-IsNew a ks found n f) e (rw q at i))
  ]

  -- An entry that is found keeps its text.
  pub lookup-collect_stamps_found :
      (j : String) (s : Storage)
      → Distinct (keys s)
      → includes j (stamp_keys (collect_stamps h (keys s) [] s).0) ≡ true
      → lookup j (collect_stamps h (keys s) [] s).1 ≡ lookup j s
  lookup-collect_stamps_found j s d i = lookup-collected j (keys s) [] s tt d i
