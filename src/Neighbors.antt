-- ===== src/Neighbors.antt =====
-- store/slices/neighborSlice.ts and services/neighbors/neighborService.ts: the neighbours of the
-- daemons. The other fields of a neighbour have the type `P`.
pub mod Fetch
mod Tests
use net_test_toy.Http.{Outcome, error, fetch, other, returned, thrown}
use net_test_toy.Base.{
  Bool, List, Option, String, [], false, filter, if◌then◌else◌, none, not, some, true, ℕ, ◌==◌,
  ◌||◌, ◌∷◌,
}
use net_test_toy.Base.Texts.{includes}
use net_test_toy.Storage.{or_else}

pub record Neighbor (P : Type 0) : Type 0 where
  pub neighbor_ip : String
  pub backend : String
  pub client_name : String
  pub others : P

pub record NeighborState (P : Type 0) : Type 0 where
  pub neighbors : List (Neighbor P)
  pub loading : Bool
  pub error_text : Option String
  pub last_fetch : Option ℕ

-- What the thunks settle with; a fetch has the raw neighbours that the targets have.
pub data NeighborAction (P : Type 0) : Type 0 where
  clear_neighbors clear_error fetch_pending delete_pending : NeighborAction P
  -- with the time `Date.now()`
  fetch_fulfilled : ℕ → List (Neighbor P) → NeighborAction P
  delete_fulfilled : String → NeighborAction P
  fetch_rejected delete_rejected : Option String → NeighborAction P

-- The sign of `localeCompare`
pub data Sign : Type 0 where
  negative zero_sign positive : Sign

-- `localeCompare`, and the one that reads the digits in a text as numbers
pub record Locale : Type 0 where
  pub compare : String → String → Sign
  pub compare_numeric : String → String → Sign

pub is_zero_address : String → Bool
is_zero_address ip =
    (ip == "0.0.0.0")
    || includes ip
        ("::" ∷ "0:0:0:0:0:0:0:0" ∷ "00:00:00:00:00:00:00:00:00:00:00:00:00:00:00:00" ∷ [])

abbrev is_after : Sign → Bool
is_after negative = false
is_after zero_sign = false
is_after positive = true

-- `if (compare !== 0) return compare`
abbrev or_then : Sign → Sign → Sign
or_then negative s = negative
or_then zero_sign s = s
or_then positive s = positive

module _ {P : Type 0} where
  pub initial_state : NeighborState P
  initial_state = record { neighbors = []; loading = false; error_text = none; last_fetch = none }

  pub filter_valid_neighbors : List (Neighbor P) → List (Neighbor P)
  filter_valid_neighbors = filter (λ n. not (is_zero_address n.neighbor_ip))

  pub compare_neighbors : Locale → Neighbor P → Neighbor P → Sign
  compare_neighbors l a b =
      or_then (l.compare a.client_name b.client_name)
        (or_then (l.compare a.backend b.backend) (l.compare_numeric a.neighbor_ip b.neighbor_ip))

  -- A neighbour goes in front of the first one that it is not to come after.
  placed : Locale → Neighbor P → List (Neighbor P) → List (Neighbor P)
  placed l n [] = n ∷ []
  placed l n (m ∷ ms) =
      let rest = placed l n ms in
      if is_after (compare_neighbors l n m) then m ∷ rest else n ∷ m ∷ ms

  -- `[...neighbors].sort(…)`, which is stable
  pub sort_neighbors : Locale → List (Neighbor P) → List (Neighbor P)
  unfolding placed
  sort_neighbors l [] = []
  sort_neighbors l (n ∷ ns) = placed l n (sort_neighbors l ns)

  -- `answer` has the neighbours of the targets, which are given by their names, or what is thrown.
  pub fetch_neighbors : Locale → ℕ → List String → Outcome (List (Neighbor P)) → NeighborAction P
  fetch_neighbors l now [] answer = fetch_fulfilled now []
  fetch_neighbors l now (t ∷ ts) (returned ns) =
      fetch_fulfilled now (sort_neighbors l (filter_valid_neighbors ns))
  fetch_neighbors l now (t ∷ ts) (thrown f) =
      fetch_rejected (some (elim f [ error name m ↦ m | other shown ↦ shown ]))

  pub reduce : NeighborState P → NeighborAction P → NeighborState P
  reduce s clear_neighbors = record s { neighbors = []; error_text = none }
  reduce s clear_error = record s { error_text = none }
  reduce s fetch_pending = record s { loading = true; error_text = none }
  reduce s (fetch_fulfilled now ns) = record s {
    loading = false;
    neighbors = ns;
    last_fetch = some now;
    error_text = none;
  }
  reduce s (fetch_rejected m) = record s {
    loading = false;
    error_text = some (or_else m "Failed to fetch neighbors");
  }
  reduce s delete_pending = record s { loading = true }
  reduce s (delete_fulfilled ip) = record s {
    loading = false;
    neighbors = filter (λ n. not (n.neighbor_ip == ip)) s.neighbors;
  }
  reduce s (delete_rejected m) = record s {
    loading = false;
    error_text = some (or_else m "Failed to delete neighbor");
  }
