-- ===== src/TopologyApi/Segments.antt =====
-- A path by its segments: what a server's router sees of a URL's path.
use Prim.Native.Char.{code, Char}
use text.Mathlib.TextLemmas.{cons-append, nil-append}
use net_test_toy.Base.{
  Bool, Bool-cases, List, String, [], ap, arith, false, if◌then◌else◌, inl, inr, leb, not, refl,
  sym, true, ℕ, ◌&&◌, ◌<>◌, ◌==◌, ◌||◌, ◌∷◌, ◌≡◌,
}
use net_test_toy.Base.Texts.{decimal, every, every-decimal}

slash : Char → Bool
slash c = leb (code c) 47 && leb 47 (code c)

push : Char → List String → List String
push c [] = String.◌∷◌ c String.[] ∷ []
push c (w ∷ ws) = String.◌∷◌ c w ∷ ws

unfoldable pub segments : String → List String
unfolding slash push
segments String.[] = "" ∷ []
segments (String.◌∷◌ c s) = let rest = segments s in if slash c then "" ∷ rest else push c rest

-- A text without a slash
unfoldable pub plain : String → Bool
unfolding slash
plain s = every (λ c. not (slash c)) s

-- A letter, a digit, or one of `-`, `.`, `_` and `~`: what a URL keeps as it is
unreserved : Char → Bool
unreserved c =
    leb 48 (code c) && leb (code c) 57
    || leb 65 (code c) && leb (code c) 90
    || leb 97 (code c) && leb (code c) 122
    || leb 45 (code c) && leb (code c) 46
    || leb 95 (code c) && leb (code c) 95
    || leb 126 (code c) && leb (code c) 126

-- A name that stands for itself in a URL: `.` and `..` are steps, and all other characters end the
-- path, part it, or are encoded.
unfoldable pub is_name : String → Bool
unfolding unreserved
is_name s = every unreserved s && not (s == ".") && not (s == "..")

unreserved-plain : (s : String) → every unreserved s ≡ true → plain s ≡ true
unfolding unreserved plain slash
unreserved-plain String.[] h = refl
unreserved-plain (String.◌∷◌ c s) h = ground (arith, h, unreserved-plain s)

pub is_name-plain : (s : String) → is_name s ≡ true → plain s ≡ true
unfolding is_name
is_name-plain s h = unreserved-plain s (ground (arith, h))

pub plain-decimal : (n : ℕ) → plain (decimal n) ≡ true
unfolding plain slash
plain-decimal n = every-decimal _ refl n

pub segments-plain : (a : String) → plain a ≡ true → segments a ≡ a ∷ []
unfolding segments plain
segments-plain String.[] h = refl
segments-plain (String.◌∷◌ c s) h = ground (arith, segments-plain s)

unfoldable pub glue : String → List String → List String
glue w [] = w ∷ []
glue w (y ∷ ys) = (w <> y) ∷ ys

unfoldable pub join : List String → List String → List String
unfolding glue
join [] ys = ys
join (w ∷ []) ys = glue w ys
join (w ∷ v ∷ ws) ys = w ∷ join (v ∷ ws) ys

glue-push : (c : Char) (ws : List String) → glue "" (push c ws) ≡ push c ws
unfolding glue push
glue-push c [] = ap (λ v. v ∷ []) (nil-append _)
glue-push c (w ∷ ws) = ap (λ v. v ∷ ws) (nil-append _)

-- What `segments` does at a character
step : Bool → Char → List String → List String
unfolding push
step true c ws = "" ∷ ws
step false c ws = push c ws

segments-step : (c : Char) (s : String) → segments (String.◌∷◌ c s) ≡ step (slash c) c (segments s)
unfolding segments step
segments-step c s = elim (Bool-cases (slash c)) [ inl e ↦ rw e refl | inr e ↦ rw e refl ]

glue-step : (b : Bool) (c : Char) (ws : List String) → glue "" (step b c ws) ≡ step b c ws
unfolding glue step
glue-step true c ws = ap (λ v. v ∷ ws) (nil-append "")
glue-step false c ws = glue-push c ws

glue-segments : (s : String) → glue "" (segments s) ≡ segments s
unfolding segments glue
glue-segments String.[] = ap (λ v. v ∷ []) (nil-append "")
glue-segments (String.◌∷◌ c s) = rw segments-step (glue-step (slash c) c (segments s))

join-step :
    (b : Bool) (c : Char) (w : String) (ws vs : List String)
    → join (step b c (w ∷ ws)) vs ≡ step b c (join (w ∷ ws) vs)
unfolding join glue step push
join-step true c w [] vs = refl
join-step true c w (v ∷ ws) vs = refl
join-step false c w (v ∷ ws) vs = refl
join-step false c w [] [] = refl
join-step false c w [] (y ∷ ys) = ap (λ v. v ∷ ys) (cons-append c w y)

-- There is a first segment.
step-cases :
    (b : Bool) (c : Char) (vs : List String)
    → (w : String) × (ws : List String) × (step b c vs ≡ w ∷ ws)
unfolding step push
step-cases true c vs = ("", vs, refl)
step-cases false c [] = (_, [], refl)
step-cases false c (v ∷ vs) = (_, vs, refl)

join-segments :
    (b : Bool) (c : Char) (a : String) (vs : List String)
    → join (step b c (segments a)) vs ≡ step b c (join (segments a) vs)
unfolding segments
join-segments b c String.[] vs = join-step b c "" [] vs
join-segments b c (String.◌∷◌ d a) vs =
    let (w, ws, e) = step-cases (slash d) d (segments a) in
    rw (segments-step d a, e) (join-step b c w ws vs)

pub segments-append : (a s : String) → segments (a <> s) ≡ join (segments a) (segments s)
unfolding segments join
segments-append String.[] s = simp (nil-append, glue-segments)
segments-append (String.◌∷◌ c a) s =
    rw (cons-append, segments-step c (a <> s), segments-append a s)
      (sym (rw segments-step (join-segments (slash c) c a (segments s))))
