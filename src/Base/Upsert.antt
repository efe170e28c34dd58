-- ===== src/Base/Upsert.antt =====
-- `findIndex` by an id, then a write to that item or a push: the way the slices store an item.
use net_test_toy.Base.Tests.{◌==◌, if◌then◌else◌}
use net_test_toy.Base.Lists.{any, find, update_first}
use net_test_toy.Base.Texts.{includes, Distinct, includes-append, push-Distinct}
use Prim.Native.String.{String}
use mathlib.Core.Bool.{Bool, true, false}
use mathlib.Core.List.{List, [], ◌∷◌, ◌++◌, map}
use mathlib.Core.Option.{none, some}
use mathlib.Core.Path.{◌≡◌, refl}
use native.Mathlib.Omega.{arith}

module _ {ℓ} {A : Type ℓ} (key : A → String) where
  abbrev pub has_key : String → A → Bool
  has_key j x = key x == j

  abbrev pub key_list : List A → List String
  key_list = map key

  abbrev pub upsert : A → List A → List A
  upsert x xs =
      if any (has_key (key x)) xs then update_first (has_key (key x)) (λ _. x) xs else xs ++ x ∷ []

  pub find-push :
      (j : String) (x : A) (xs : List A)
      → find (has_key j) (xs ++ x ∷ []) ≡ (
          if any (has_key j) xs then find (has_key j) xs else (if key x == j then some x else none))
  find-push j x [] = refl
  find-push j x (y ∷ xs) = ground (arith, find-push j x xs)

  find-absent : (j : String) (xs : List A) → any (has_key j) xs ≡ false → find (has_key j) xs ≡ none
  find-absent j [] h = refl
  find-absent j (x ∷ xs) h = ground (arith, find-absent j xs)

  find-write :
      (x : A) (j : String) (xs : List A)
      → any (has_key (key x)) xs ≡ true
      → find (has_key j) (update_first (has_key (key x)) (λ _. x) xs)
        ≡ (if key x == j then some x else find (has_key j) xs)
  find-write x j [] h = cc
  find-write x j (y ∷ xs) h = ground (arith, find-write x j xs)

  -- An upsert is found under its id, and every other id is as before.
  pub find-upsert :
      (x : A) (j : String) (xs : List A)
      → find (has_key j) (upsert x xs) ≡ (if key x == j then some x else find (has_key j) xs)
  find-upsert x j xs = ground (arith, find-push j x xs, find-absent j xs, find-write x j xs)

  pub any-key_list : (j : String) (xs : List A) → any (has_key j) xs ≡ includes j (key_list xs)
  any-key_list j [] = refl
  any-key_list j (x ∷ xs) = ground (arith, any-key_list j xs)

  key_list-write :
      (x : A) (xs : List A) → key_list (update_first (has_key (key x)) (λ _. x) xs) ≡ key_list xs
  key_list-write x [] = refl
  key_list-write x (y ∷ xs) = ground (arith, key_list-write x xs)

  pub key_list-push : (x : A) (xs : List A) → key_list (xs ++ x ∷ []) ≡ key_list xs ++ key x ∷ []
  key_list-push x [] = refl
  key_list-push x (y ∷ xs) = ground (arith, key_list-push x xs)

  pub upsert-Distinct :
      (x : A) (xs : List A) → Distinct (key_list xs) → Distinct (key_list (upsert x xs))
  upsert-Distinct x xs d = ground (
    arith,
    key_list-write x xs,
    key_list-push x xs,
    any-key_list (key x) xs,
    push-Distinct (key x) (key_list xs),
  )

  -- A push of an id that is there already leaves two items with it.
  not-Distinct-push :
      (j : String) (ks : List String) → includes j ks ≡ true → Distinct (ks ++ j ∷ []) → ⊥
  not-Distinct-push j [] h d = cc
  not-Distinct-push j (k ∷ ks) h d =
      ground (arith, includes-append k ks (j ∷ []), not-Distinct-push j ks, d.0)

  includes-upsert : (x : A) (xs : List A) → includes (key x) (key_list (upsert x xs)) ≡ true
  includes-upsert x xs = ground (
    arith,
    key_list-write x xs,
    key_list-push x xs,
    any-key_list (key x) xs,
    includes-append (key x) (key_list xs) (key x ∷ []),
  )

  pub push_after_upsert :
      (x y : A) (xs : List A) → key y ≡ key x → Distinct (key_list (upsert x xs ++ y ∷ [])) → ⊥
  push_after_upsert x y xs e d =
      not-Distinct-push (key x) (key_list (upsert x xs)) (includes-upsert x xs)
        (ground (arith, key_list-push y (upsert x xs)))
