-- ===== src/Base/Texts.antt =====
-- Lists of texts as the code uses them for sets of identifiers.
use net_test_toy.Base.Tests.{Bool-cases, ltb, if◌then◌else◌, ◌==◌}
use net_test_toy.Base.Lists.{filter}
use Prim.Native.Char.{Char}
use Prim.Native.String.{String, ◌++◌ as ◌<>◌}
use Prim.Native.String as S
use text.Mathlib.TextLemmas.{cons-append, nil-append}
use Prim.Native.Nat.{ℕ, zero, suc, ◌/◌, ◌%◌}
use mathlib.Core.Path.{◌≡◌, refl}
use mathlib.Core.Bool.{Bool, true, false, not, ◌&&◌, ◌||◌}
use mathlib.Core.Logic.{inl, inr}
use mathlib.Core.List.{List, [], ◌∷◌, ◌++◌}
use native.Mathlib.Omega.{arith}

-- `xs.includes(s)`, and `xs.has(s)` of a Set
abbrev pub includes : String → List String → Bool
includes s [] = false
includes s (x ∷ xs) = s == x || includes s xs

-- `xs.filter(x => x !== s)`, and `xs.delete(s)` of a Set
abbrev pub without : String → List String → List String
without s = filter (λ x. not (x == s))

-- No text occurs twice.
abbrev pub Distinct : List String → Type 0
Distinct [] = Unit
Distinct (x ∷ xs) = (includes x xs ≡ false) × Distinct xs

abbrev pub Subset : List String → List String → Type 0
Subset xs ys = (s : String) → includes s xs ≡ true → includes s ys ≡ true

pub includes-append :
    (s : String) (xs ys : List String) → includes s (xs ++ ys) ≡ (includes s xs || includes s ys)
includes-append s [] ys = refl
includes-append s (x ∷ xs) ys = ground (arith, includes-append s xs ys)

pub includes-without :
    (s t : String) (xs : List String) → includes s (without t xs) ≡ (not (s == t) && includes s xs)
includes-without s t [] = ground arith
includes-without s t (x ∷ xs) = ground (arith, includes-without s t xs)

pub without-Distinct : (t : String) (xs : List String) → Distinct xs → Distinct (without t xs)
without-Distinct t [] d = tt
without-Distinct t (x ∷ xs) d = ground (arith, includes-without x t xs, without-Distinct t xs d.1)

pub push-Distinct :
    (s : String) (xs : List String) → includes s xs ≡ false → Distinct xs → Distinct (xs ++ s ∷ [])
push-Distinct s [] h d = (refl, tt)
push-Distinct s (x ∷ xs) h d =
    ground (arith, includes-append x xs (s ∷ []), push-Distinct s xs (ground arith) d.1)

digit : ℕ → String
digit zero = "0"
digit (suc zero) = "1"
digit (suc (suc zero)) = "2"
digit (suc (suc (suc zero))) = "3"
digit (suc (suc (suc (suc zero)))) = "4"
digit (suc (suc (suc (suc (suc zero))))) = "5"
digit (suc (suc (suc (suc (suc (suc zero)))))) = "6"
digit (suc (suc (suc (suc (suc (suc (suc zero))))))) = "7"
digit (suc (suc (suc (suc (suc (suc (suc (suc zero)))))))) = "8"
digit _ = "9"

decimal_from : ℕ → ℕ → String → String
decimal_from zero n acc = acc
decimal_from (suc fuel) n acc =
    let rest = decimal_from fuel (n / 10) (digit (n % 10) <> acc) in
    if ltb n 10 then digit n <> acc else rest

-- A number in a template text. The fuel is above the number of digits.
unfoldable pub decimal : ℕ → String
unfolding digit decimal_from
decimal n = decimal_from (suc n) n ""

decimal_large : decimal 1700000000123 ≡ "1700000000123"
unfolding decimal
decimal_large = refl

abbrev pub every : (Char → Bool) → String → Bool
every p S.[] = true
every p (S.◌∷◌ c s) = p c && every p s

every-append :
    (p : Char → Bool) (s t : String) → every p s ≡ true → every p t ≡ true → every p (s <> t) ≡ true
every-append p S.[] t h k = rw nil-append k
every-append p (S.◌∷◌ c s) t h k = rw cons-append (ground (arith, every-append p s t))

every-digit : (p : Char → Bool) → every p "0123456789" ≡ true → (n : ℕ) → every p (digit n) ≡ true
unfolding digit
every-digit p h zero = ground arith
every-digit p h (suc zero) = ground arith
every-digit p h (suc (suc zero)) = ground arith
every-digit p h (suc (suc (suc zero))) = ground arith
every-digit p h (suc (suc (suc (suc zero)))) = ground arith
every-digit p h (suc (suc (suc (suc (suc zero))))) = ground arith
every-digit p h (suc (suc (suc (suc (suc (suc zero)))))) = ground arith
every-digit p h (suc (suc (suc (suc (suc (suc (suc zero))))))) = ground arith
every-digit p h (suc (suc (suc (suc (suc (suc (suc (suc zero)))))))) = ground arith
every-digit p h (suc (suc (suc (suc (suc (suc (suc (suc (suc n))))))))) = ground arith

every-decimal_from :
    (p : Char → Bool)
    → every p "0123456789" ≡ true
    → (fuel n : ℕ) (acc : String) → every p acc ≡ true
    → every p (decimal_from fuel n acc) ≡ true
unfolding decimal_from
every-decimal_from p h zero n acc k = k
every-decimal_from p h (suc fuel) n acc k = elim (Bool-cases (ltb n 10)) [
  | inl small ↦ rw small (every-append p (digit n) acc (every-digit p h n) k)
  | inr large ↦ rw large (
      every-decimal_from p h fuel (n / 10) (digit (n % 10) <> acc)
        (every-append p (digit (n % 10)) acc (every-digit p h (n % 10)) k))
]

-- A decimal text has digits only.
pub every-decimal :
    (p : Char → Bool) → every p "0123456789" ≡ true → (n : ℕ) → every p (decimal n) ≡ true
unfolding decimal
every-decimal p h n = every-decimal_from p h (suc n) n "" refl

abbrev pub last_text : List String → String → String
last_text [] s = s
last_text (x ∷ xs) s = last_text xs x
