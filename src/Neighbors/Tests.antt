-- ===== src/Neighbors/Tests.antt =====
-- Neighbours at concrete inputs. The comparison puts one address in front of all others.
use net_test_toy.Neighbors.{
  Locale, Neighbor, Sign, fetch_neighbors, initial_state, negative, positive, reduce, zero_sign,
}
use net_test_toy.Http.{returned}
use net_test_toy.Neighbors.Fetch.{IsLocale, Ordered, count, fetch_neighbors_lem, no_address}
use net_test_toy.Base.{
  Bool, List, String, [], arith, if◌then◌else◌, ltb, not, ℕ, ◌&&◌, ◌==◌, ◌∷◌, ◌≡◌,
}

abbrev rank : String → ℕ
rank t = if t == "10.0.0.1" then 0 else 1

abbrev compare : String → String → Sign
compare a b =
    if ltb (rank a) (rank b)
    then negative
    else if ltb (rank b) (rank a)
    then positive
    else zero_sign

abbrev locale : Locale
locale = record { compare = compare; compare_numeric = compare }

locale-IsLocale : IsLocale locale
locale-IsLocale = record { compare = λ a b. ground arith; compare_numeric = λ a b. ground arith }

abbrev neighbor : String → Neighbor ℕ
neighbor ip = record { neighbor_ip = ip; backend = "frr"; client_name = "r1"; others = 0 }

abbrev answer : List (Neighbor ℕ)
answer = neighbor "0.0.0.0" ∷ neighbor "10.0.0.2" ∷ neighbor "10.0.0.1" ∷ []

fetch_neighbors_lem_example :
    (let stored : List (Neighbor ℕ) =
        (reduce initial_state (fetch_neighbors locale 7 ("r1" ∷ []) (returned answer))).neighbors in
      ((p : Neighbor ℕ → Bool)
        → count p stored ≡ count (λ n. not (no_address n.neighbor_ip) && p n) answer)
      × Ordered locale stored)
fetch_neighbors_lem_example =
    fetch_neighbors_lem locale 7 "r1" [] answer initial_state locale-IsLocale
