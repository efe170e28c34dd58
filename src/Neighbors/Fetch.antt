-- ===== src/Neighbors/Fetch.antt =====
-- What the fetch of neighborSlice.ts leaves in the store.
use net_test_toy.Neighbors.{
  Locale, Neighbor, NeighborState, Sign, compare_neighbors, fetch_neighbors, filter_valid_neighbors,
  is_after, is_zero_address, negative, placed, positive, reduce, sort_neighbors, zero_sign,
}
use net_test_toy.Http.{Outcome, returned, thrown}
use net_test_toy.Base.{
  All, Bool, Bool-cases, List, String, [], arith, false, filter, inl, inr, length, not, refl, true,
  ℕ, ◌&&◌, ◌==◌, ◌||◌, ◌∙◌, ◌∷◌, ◌≡◌, ◌⊎◌,
}

abbrev opposite : Sign → Sign
opposite negative = positive
opposite zero_sign = zero_sign
opposite positive = negative

-- A comparison the other way round has the opposite sign.
pub record IsLocale (l : Locale) : Type 0 where
  pub compare : (a b : String) → l.compare b a ≡ opposite (l.compare a b)
  pub compare_numeric : (a b : String) → l.compare_numeric b a ≡ opposite (l.compare_numeric a b)

-- The addresses of no neighbour: zero in IPv4, and three spellings of it in IPv6
abbrev pub no_address : String → Bool
no_address ip =
    ip == "0.0.0.0"
    || ip == "::"
    || ip == "0:0:0:0:0:0:0:0"
    || ip == "00:00:00:00:00:00:00:00:00:00:00:00:00:00:00:00"

is_zero_address-no_address : (ip : String) → is_zero_address ip ≡ no_address ip
unfolding is_zero_address
is_zero_address-no_address ip = ground arith

module _ {P : Type 0} where
  -- No neighbour has a zero address.
  abbrev pub IsClean : List (Neighbor P) → Type 0
  IsClean = All (λ n. is_zero_address n.neighbor_ip ≡ false)

  filter_valid-IsClean : (ns : List (Neighbor P)) → IsClean (filter_valid_neighbors ns)
  unfolding filter_valid_neighbors
  filter_valid-IsClean [] = tt
  filter_valid-IsClean (n ∷ ns) = ground (arith, filter_valid-IsClean ns)

  placed-IsClean :
      (l : Locale) (n : Neighbor P) (ms : List (Neighbor P))
      → is_zero_address n.neighbor_ip ≡ false
      → IsClean ms
      → IsClean (placed l n ms)
  unfolding placed
  placed-IsClean l n [] e h = (e, tt)
  placed-IsClean l n (m ∷ ms) e h = ground (arith, e, h, placed-IsClean l n ms e h.1)

  sort_neighbors-IsClean :
      (l : Locale) (ns : List (Neighbor P)) → IsClean ns → IsClean (sort_neighbors l ns)
  unfolding sort_neighbors
  sort_neighbors-IsClean l [] h = tt
  sort_neighbors-IsClean l (n ∷ ns) h =
      placed-IsClean l n (sort_neighbors l ns) h.0 (sort_neighbors-IsClean l ns h.1)

  -- However a fetch settles, the store has no neighbour with a zero address if it had none before.
  pub fetch_neighbors-IsClean :
      (l : Locale) (now : ℕ) (targets : List String) (answer : Outcome (List (Neighbor P)))
      (s : NeighborState P)
      → IsClean s.neighbors
      → IsClean (reduce s (fetch_neighbors l now targets answer)).neighbors
  unfolding fetch_neighbors reduce
  fetch_neighbors-IsClean l now [] answer s h = tt
  fetch_neighbors-IsClean l now (t ∷ ts) (thrown f) s h = h
  fetch_neighbors-IsClean l now (t ∷ ts) (returned ns) s h =
      sort_neighbors-IsClean l (filter_valid_neighbors ns) (filter_valid-IsClean ns)

  -- How many neighbours pass a test
  abbrev pub count : (Neighbor P → Bool) → List (Neighbor P) → ℕ
  count p ns = length (filter p ns)

  count-placed :
      (l : Locale) (p : Neighbor P → Bool) (n : Neighbor P) (ms : List (Neighbor P))
      → count p (placed l n ms) ≡ count p (n ∷ ms)
  unfolding placed
  count-placed l p n [] = refl
  count-placed l p n (m ∷ ms) = ground (arith, count-placed l p n ms)

  count-cons :
      (p : Neighbor P → Bool) (n : Neighbor P) (ms ns : List (Neighbor P))
      → count p ms ≡ count p ns
      → count p (n ∷ ms) ≡ count p (n ∷ ns)
  count-cons p n ms ns h = ground (arith, h)

  count-sort_neighbors :
      (l : Locale) (p : Neighbor P → Bool) (ns : List (Neighbor P))
      → count p (sort_neighbors l ns) ≡ count p ns
  unfolding sort_neighbors
  count-sort_neighbors l p [] = refl
  count-sort_neighbors l p (n ∷ ns) =
      count-placed l p n (sort_neighbors l ns)
      ∙ count-cons p n (sort_neighbors l ns) ns (count-sort_neighbors l p ns)

  count-filter_valid :
      (p : Neighbor P → Bool) (ns : List (Neighbor P))
      → count p (filter_valid_neighbors ns) ≡ count (λ n. not (no_address n.neighbor_ip) && p n) ns
  unfolding filter_valid_neighbors
  count-filter_valid p [] = refl
  count-filter_valid p (n ∷ ns) =
      ground (arith, count-filter_valid p ns, is_zero_address-no_address n.neighbor_ip)

  -- `a` may stand in front of `b`: by the clients' names, then by the backends, then by the addresses
  abbrev pub in_order : Locale → Neighbor P → Neighbor P → Bool
  in_order l a b = elim (l.compare a.client_name b.client_name) [
    | negative ↦ true
    | positive ↦ false
    | zero_sign ↦ elim (l.compare a.backend b.backend) [
      | negative ↦ true
      | positive ↦ false
      | zero_sign ↦ elim (l.compare_numeric a.neighbor_ip b.neighbor_ip) [
        | negative ↦ true
        | zero_sign ↦ true
        | positive ↦ false
      ]
    ]
  ]

  is_after-in_order :
      (l : Locale) (a b : Neighbor P) → is_after (compare_neighbors l a b) ≡ not (in_order l a b)
  unfolding compare_neighbors
  is_after-in_order l a b = ground arith

  in_order-total :
      (l : Locale) (a b : Neighbor P) → IsLocale l → in_order l a b ≡ false → in_order l b a ≡ true
  in_order-total l a b c h = ground (
    arith,
    h,
    c.compare a.client_name b.client_name,
    c.compare a.backend b.backend,
    c.compare_numeric a.neighbor_ip b.neighbor_ip,
  )

  abbrev pub Leads : Locale → Neighbor P → List (Neighbor P) → Type 0
  Leads l n [] = Unit
  Leads l n (m ∷ ms) = in_order l n m ≡ true

  -- Each neighbour may stand in front of the next.
  abbrev pub Ordered : Locale → List (Neighbor P) → Type 0
  Ordered l [] = Unit
  Ordered l (n ∷ ns) = Leads l n ns × Ordered l ns

  placed-cases :
      (l : Locale) (n m : Neighbor P) (ms : List (Neighbor P))
      → ((in_order l n m ≡ true) × (placed l n (m ∷ ms) ≡ n ∷ m ∷ ms))
        ⊎ ((in_order l n m ≡ false) × (placed l n (m ∷ ms) ≡ m ∷ placed l n ms))
  unfolding placed
  placed-cases l n m ms = elim (Bool-cases (in_order l n m)) [
    | inl e ↦ inl (e, ground (arith, e, is_after-in_order l n m))
    | inr e ↦ inr (e, ground (arith, e, is_after-in_order l n m))
  ]

  placed-Leads :
      (l : Locale) (k n : Neighbor P) (ms : List (Neighbor P))
      → in_order l k n ≡ true
      → Leads l k ms
      → Leads l k (placed l n ms)
  unfolding placed
  placed-Leads l k n [] h g = h
  placed-Leads l k n (m ∷ ms) h g = elim (placed-cases l n m ms) [
    | inl (o, e) ↦ rw e h
    | inr (o, e) ↦ rw e g
  ]

  placed-Ordered :
      (l : Locale) (n : Neighbor P) (ms : List (Neighbor P))
      → IsLocale l
      → Ordered l ms
      → Ordered l (placed l n ms)
  unfolding placed
  placed-Ordered l n [] c h = (tt, tt)
  placed-Ordered l n (m ∷ ms) c (g, h) = elim (placed-cases l n m ms) [
    | inl (o, e) ↦ rw e (o, (g, h))
    | inr (o, e) ↦
        rw e (placed-Leads l m n ms (in_order-total l n m c o) g, placed-Ordered l n ms c h)
  ]

  sort_neighbors-Ordered :
      (l : Locale) (ns : List (Neighbor P)) → IsLocale l → Ordered l (sort_neighbors l ns)
  unfolding sort_neighbors
  sort_neighbors-Ordered l [] c = tt
  sort_neighbors-Ordered l (n ∷ ns) c =
      placed-Ordered l n (sort_neighbors l ns) c (sort_neighbors-Ordered l ns c)

  -- After a fetch that returns, the store has the neighbours of the targets, each as often as they
  -- have it, without those whose address is 0.0.0.0 or one of three texts for zero in IPv6; and each
  -- may stand in front of the next by the clients' names, then the backends, then the addresses,
  -- where the comparison of texts the other way round has the opposite sign.
  pub fetch_neighbors_lem :
      (l : Locale) (now : ℕ) (t : String) (ts : List String) (ns : List (Neighbor P))
      (s : NeighborState P)
      → IsLocale l
      → let stored : List (Neighbor P) =
          (reduce s (fetch_neighbors l now (t ∷ ts) (returned ns))).neighbors in
        ((p : Neighbor P → Bool)
          → count p stored ≡ count (λ n. not (no_address n.neighbor_ip) && p n) ns)
        × Ordered l stored
  unfolding fetch_neighbors reduce
  fetch_neighbors_lem l now t ts ns s c = (
    λ p. count-sort_neighbors l p (filter_valid_neighbors ns) ∙ count-filter_valid p ns,
    sort_neighbors-Ordered l (filter_valid_neighbors ns) c,
  )
