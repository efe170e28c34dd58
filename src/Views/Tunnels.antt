-- ===== src/Views/Tunnels.antt =====
-- store/slices/greTunnelsSlice.ts: the tunnels of the hosts, and the hosts that are shown. A tunnel
-- has the type `P`.
use net_test_toy.Base.{
  Bool, Bool-cases, List, Option, String, [], arith, false, if◌then◌else◌, inl, inr, none, not,
  some, true, ℕ, ◌&&◌, ◌++◌, ◌==◌, ◌∷◌, ◌≡◌,
}
use net_test_toy.Base.Texts.{Distinct, includes, includes-append, push-Distinct}
use net_test_toy.Base.Dict.{Dict}
use net_test_toy.Storage.{or_else}

pub record GreTunnelsState (P : Type 0) : Type 0 where
  pub tunnels_by_host : Dict (List P)
  pub selected_host_ids : List String
  pub is_loading : Bool
  pub is_creating : Bool
  pub error : Option String
  pub mutation_error : Option String
  pub last_fetch : Option ℕ

pub data TunnelAction (P : Type 0) : Type 0 where
  set_selected_host_ids : List String → TunnelAction P
  toggle_selected_host_id : String → TunnelAction P
  clear_error clear_mutation_error : TunnelAction P
  fetch_pending create_pending create_fulfilled : TunnelAction P
  -- with the time `Date.now()`
  fetch_fulfilled : ℕ → Dict (List P) → TunnelAction P
  fetch_rejected create_rejected : Option String → TunnelAction P

-- `splice(index, 1)` at the index of `t`
pub remove_first : String → List String → List String
remove_first t [] = []
remove_first t (x ∷ xs) = let rest = remove_first t xs in if x == t then xs else x ∷ rest

pub toggled : String → List String → List String
toggled t ts = if includes t ts then remove_first t ts else ts ++ t ∷ []

module _ {P : Type 0} where
  pub initial_state : GreTunnelsState P
  initial_state = record {
    tunnels_by_host = [];
    selected_host_ids = [];
    is_loading = false;
    is_creating = false;
    error = none;
    mutation_error = none;
    last_fetch = none;
  }

  pub reduce : GreTunnelsState P → TunnelAction P → GreTunnelsState P
  reduce s (set_selected_host_ids ts) = record s { selected_host_ids = ts }
  reduce s (toggle_selected_host_id t) = record s {
    selected_host_ids = toggled t s.selected_host_ids;
  }
  reduce s clear_error = record s { error = none }
  reduce s clear_mutation_error = record s { mutation_error = none }
  reduce s fetch_pending = record s { is_loading = true; error = none }
  reduce s (fetch_fulfilled now tunnels) = record s {
    is_loading = false;
    tunnels_by_host = tunnels;
    last_fetch = some now;
  }
  reduce s (fetch_rejected m) = record s {
    is_loading = false;
    error = some (or_else m "Failed to fetch GRE tunnels");
  }
  reduce s create_pending = record s { is_creating = true; mutation_error = none }
  reduce s create_fulfilled = record s { is_creating = false }
  reduce s (create_rejected m) = record s {
    is_creating = false;
    mutation_error = some (or_else m "Failed to create GRE tunnel");
  }

includes-remove_first :
    (s t : String) (ts : List String)
    → Distinct ts
    → includes s (remove_first t ts) ≡ (not (s == t) && includes s ts)
unfolding remove_first
includes-remove_first s t [] d = ground arith
includes-remove_first s t (x ∷ xs) (a, d) = ground (arith, a, includes-remove_first s t xs d)

remove_first-Distinct : (t : String) (ts : List String) → Distinct ts → Distinct (remove_first t ts)
unfolding remove_first
remove_first-Distinct t [] d = tt
remove_first-Distinct t (x ∷ xs) (a, d) =
    ground (arith, a, d, includes-remove_first x t xs d, remove_first-Distinct t xs d)

-- A host that is toggled is shown when it was not, and the other hosts are shown as before.
includes-toggled :
    (s t : String) (ts : List String)
    → Distinct ts
    → includes s (toggled t ts) ≡ (if s == t then not (includes t ts) else includes s ts)
unfolding toggled
includes-toggled s t ts d =
    ground (arith, includes-remove_first s t ts d, includes-append s ts (t ∷ []))

-- No host is shown twice after a toggle.
toggled-Distinct : (t : String) (ts : List String) → Distinct ts → Distinct (toggled t ts)
unfolding toggled
toggled-Distinct t ts d = elim (Bool-cases (includes t ts)) [
  | inl e ↦ rw e (remove_first-Distinct t ts d)
  | inr e ↦ rw e (push-Distinct t ts e d)
]
