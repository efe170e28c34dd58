-- ===== src/Topology/Settle.antt =====
-- How the answer of the service reaches the state of topologySlice.ts.
use net_test_toy.Topology.{TopologyState, failure, reduce, run, settle, success, update_topology}
use net_test_toy.Base.{Option, String, [], none, refl, some, ◌∷◌, ◌≡◌}

-- The message of `new Error(e)`.
abbrev pub message : Option String → String
message none = ""
message (some m) = m

module _ {P : Type 0} (force_directed : P) where
  -- An update that succeeds keeps the message of an earlier failure in view.
  pub update_topology_keeps_error :
      (m : Option String) (x : P) (s : TopologyState P)
      → let t =
          run force_directed
            (update_topology (settle (failure m)) ∷ update_topology (settle (success x)) ∷ [])
            s in
        (t.current_topology ≡ some x) × (t.errors.topology ≡ some (message m))
  unfolding run reduce settle
  update_topology_keeps_error none x s = (refl, refl)
  update_topology_keeps_error (some m) x s = (refl, refl)
