-- ===== src/Base/Buffer.antt =====
-- Lists that keep their newest items, at the front, up to a limit.
use mathlib.Core.Path.{◌≡◌, refl, ap, sym, ◌∙◌}
use Prim.Native.Nat.{ℕ, zero, suc, ◌≤◌}
use mathlib.Core.List.{List, [], ◌∷◌}
use mathlib.Core.Logic.{inl, inr}
use native.Mathlib.Omega.{arith}
use net_test_toy.Base.{Bool-cases, if◌then◌else◌, length, length-take, ltb, take}

module _ {ℓ} {A : Type ℓ} where
  -- `if (xs.length > n) xs = xs.slice(0, n)`
  abbrev pub cut : ℕ → List A → List A
  cut n xs = if ltb n (length xs) then take n xs else xs

  pub take-all : (n : ℕ) (xs : List A) → length xs ≤ n → take n xs ≡ xs
  take-all zero [] h = refl
  take-all (suc n) [] h = refl
  take-all zero (x ∷ xs) h = ground arith
  take-all (suc n) (x ∷ xs) h = ground (arith, take-all n xs (omega arith))

  pub cut-take : (n : ℕ) (xs : List A) → cut n xs ≡ take n xs
  cut-take n xs = elim (Bool-cases (ltb n (length xs))) [
    | inl e ↦ ground (arith, e)
    | inr e ↦ ground (arith, e, take-all n xs)
  ]

  take-take : (n : ℕ) (xs : List A) → take n (take (suc n) xs) ≡ take n xs
  take-take zero xs = ground arith
  take-take (suc n) [] = refl
  take-take (suc n) (x ∷ xs) = ground (arith, take-take n xs)

  take-cons :
      (n : ℕ) (x : A) (ys zs : List A) → take n ys ≡ take n zs → take n (x ∷ ys) ≡ take n (x ∷ zs)
  take-cons zero x ys zs h = refl
  take-cons (suc n) x ys zs h =
      ap (λ ws. x ∷ ws) (sym (take-take n ys) ∙ ap (take n) h ∙ take-take n zs)

  abbrev pub newest_first : List A → List A → List A
  newest_first [] ys = ys
  newest_first (x ∷ xs) ys = newest_first xs (x ∷ ys)

  pub take-newest_first :
      (n : ℕ) (xs ys zs : List A)
      → take n ys ≡ take n zs
      → take n (newest_first xs ys) ≡ take n (newest_first xs zs)
  take-newest_first n [] ys zs h = h
  take-newest_first n (x ∷ xs) ys zs h =
      take-newest_first n xs (x ∷ ys) (x ∷ zs) (take-cons n x ys zs h)

  pub take-take-same : (n : ℕ) (xs : List A) → take n (take n xs) ≡ take n xs
  take-take-same zero xs = refl
  take-take-same (suc n) [] = refl
  take-take-same (suc n) (x ∷ xs) = ap (λ zs. x ∷ zs) (take-take-same n xs)

  -- Items that arrive one after the other at a list that keeps `n` of them
  abbrev pub push_all : ℕ → List A → List A → List A
  push_all n [] ys = ys
  push_all n (x ∷ xs) ys = push_all n xs (cut n (x ∷ ys))

  pub push_all-take :
      (n : ℕ) (xs ys : List A) → length ys ≤ n → push_all n xs ys ≡ take n (newest_first xs ys)
  push_all-take n [] ys h = sym (take-all n ys h)
  push_all-take n (x ∷ xs) ys h =
      push_all-take n xs (cut n (x ∷ ys)) (rw cut-take (omega (arith, length-take n (x ∷ ys))))
      ∙ rw (cut-take n (x ∷ ys))
          (take-newest_first n xs (take n (x ∷ ys)) (x ∷ ys) (take-take-same n (x ∷ ys)))

  pub length-cut : (n : ℕ) (xs : List A) → length (cut n xs) ≤ n
  length-cut n xs = rw cut-take (omega (arith, length-take n xs))
