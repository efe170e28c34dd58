-- ===== src/Topology.antt =====
-- store/slices/topologySlice.ts: the reducer, and the thunks up to what they settle with.
mod Types
pub mod Busy
pub mod Simulations
pub mod Lists
pub mod Settle
mod Tests
pub use Types.*
use net_test_toy.Base.{
  Bool, List, Option, String, [], false, if◌then◌else◌, none, some, true, update_first, ◌++◌, ◌==◌,
  ◌∷◌,
}
use net_test_toy.Base.Texts.{includes, without}
use net_test_toy.Base.Dict.{Dict, insert}
use net_test_toy.Base.Upsert.{has_key, upsert}

-- `if (!result.success) throw new Error(result.error); return result.data`: the message of
-- `new Error(undefined)` is the empty text.
pub settle {ℓ} : {A : Type ℓ} → MutationResult A → Stage A
settle (success a) = fulfilled a
settle (failure none) = rejected (some "")
settle (failure (some e)) = rejected (some e)

-- the same, but with the argument of the thunk as the result
pub settle_as {ℓ κ} : {A : Type ℓ} {B : Type κ} → B → MutationResult A → Stage B
settle_as b (success a) = fulfilled b
settle_as b (failure none) = rejected (some "")
settle_as b (failure (some e)) = rejected (some e)

-- The loop of `fetchMultiClientTopologies`: a client that fails or has no topology is left out.
-- The writes come in the order in which the answers arrive.
pub collect_topologies : {P : Type 0} → List (String × Option P) → Dict P → Dict P
collect_topologies [] results = results
collect_topologies ((url, none) ∷ answers) results = collect_topologies answers results
collect_topologies ((url, some t) ∷ answers) results =
    collect_topologies answers (insert url t results)

abbrev no_loading : Loading
no_loading = record {
  topology = false;
  discovery = false;
  validation = false;
  visualization = false;
  simulation = false;
  exporting = false;
}

abbrev no_errors : Errors
no_errors = record {
  topology = none;
  discovery = none;
  validation = none;
  visualization = none;
  simulation = none;
}

abbrev pub same_discovery : {P : Type 0} → Discovery P → String
same_discovery d = d.id

abbrev pub same_validation : {P : Type 0} → Validation P → String
same_validation v = v.id

abbrev pub same_simulation : {P : Type 0} → Simulation P → String
same_simulation s = s.id

-- `if (state.active?.id === payload.id) state.active = payload`
refresh_active {ℓ} : {A : Type ℓ} → (A → String) → A → Option A → Option A
refresh_active key x none = none
refresh_active key x (some a) = if key a == key x then some x else some a

-- `if (state.active?.id === id) state.active = null`
drop_active {ℓ} : {A : Type ℓ} → (A → String) → String → Option A → Option A
drop_active key id none = none
drop_active key id (some a) = if key a == id then none else some a

module _ {P : Type 0} where
  -- the start of a thunk: its flag goes up and its error goes
  topology_pending : TopologyState P → TopologyState P
  topology_pending s =
      let l = s.loading in
      let e = s.errors in
      record s { loading = record l { topology = true }; errors = record e { topology = none } }

  discovery_pending : TopologyState P → TopologyState P
  discovery_pending s =
      let l = s.loading in
      let e = s.errors in
      record s { loading = record l { discovery = true }; errors = record e { discovery = none } }

  validation_pending : TopologyState P → TopologyState P
  validation_pending s =
      let l = s.loading in
      let e = s.errors in
      record s { loading = record l { validation = true }; errors = record e { validation = none } }

  visualization_pending : TopologyState P → TopologyState P
  visualization_pending s =
      let l = s.loading in
      let e = s.errors in
      record s {
        loading = record l { visualization = true };
        errors = record e { visualization = none };
      }

  simulation_pending : TopologyState P → TopologyState P
  simulation_pending s =
      let l = s.loading in
      let e = s.errors in
      record s { loading = record l { simulation = true }; errors = record e { simulation = none } }

  -- the end of a thunk that has failed
  topology_rejected : Option String → TopologyState P → TopologyState P
  topology_rejected m s =
      let l = s.loading in
      let e = s.errors in
      record s { loading = record l { topology = false }; errors = record e { topology = m } }

  discovery_rejected : Option String → TopologyState P → TopologyState P
  discovery_rejected m s =
      let l = s.loading in
      let e = s.errors in
      record s { loading = record l { discovery = false }; errors = record e { discovery = m } }

  validation_rejected : Option String → TopologyState P → TopologyState P
  validation_rejected m s =
      let l = s.loading in
      let e = s.errors in
      record s { loading = record l { validation = false }; errors = record e { validation = m } }

  visualization_rejected : Option String → TopologyState P → TopologyState P
  visualization_rejected m s =
      let l = s.loading in
      let e = s.errors in
      record s {
        loading = record l { visualization = false };
        errors = record e { visualization = m };
      }

  simulation_rejected : Option String → TopologyState P → TopologyState P
  simulation_rejected m s =
      let l = s.loading in
      let e = s.errors in
      record s { loading = record l { simulation = false }; errors = record e { simulation = m } }

  set_exporting : Bool → TopologyState P → TopologyState P
  set_exporting b s = let l = s.loading in record s { loading = record l { exporting = b } }

  update_error : Option String → TopologyState P → TopologyState P
  update_error m s = let e = s.errors in record s { errors = record e { topology = m } }

  got_topology : Option P → TopologyState P → TopologyState P
  got_topology t s =
      let l = s.loading in
      record s { loading = record l { topology = false }; current_topology = t }

  got_discovery : Discovery P → TopologyState P → TopologyState P
  got_discovery d s =
      let l = s.loading in
      record s {
        loading = record l { discovery = false };
        active_discovery = some d;
        discoveries = s.discoveries ++ d ∷ [];
      }

  got_validation : Validation P → TopologyState P → TopologyState P
  got_validation v s =
      let l = s.loading in
      record s {
        loading = record l { validation = false };
        last_validation = some v;
        validations = s.validations ++ v ∷ [];
      }

  got_visualization : P → TopologyState P → TopologyState P
  got_visualization v s =
      let l = s.loading in
      record s { loading = record l { visualization = false }; visualization = some v }

  got_simulation : Simulation P → TopologyState P → TopologyState P
  got_simulation x s =
      let l = s.loading in
      record s {
        loading = record l { simulation = false };
        active_simulation = some x;
        simulations = s.simulations ++ x ∷ [];
      }

  stopped_simulation : String → TopologyState P → TopologyState P
  unfolding drop_active
  stopped_simulation id s = record s {
    simulations =
        update_first (has_key same_simulation id) (λ x. record x { status = stopped })
          s.simulations;
    active_simulation = drop_active same_simulation id s.active_simulation;
  }

  discovery_updated : Discovery P → TopologyState P → TopologyState P
  unfolding refresh_active
  discovery_updated d s = record s {
    discoveries = upsert same_discovery d s.discoveries;
    active_discovery = refresh_active same_discovery d s.active_discovery;
  }

  validation_updated : Validation P → TopologyState P → TopologyState P
  validation_updated v s = record s {
    validations = upsert same_validation v s.validations;
    last_validation = some v;
  }

  simulation_updated : Simulation P → TopologyState P → TopologyState P
  unfolding refresh_active
  simulation_updated x s = record s {
    simulations = upsert same_simulation x s.simulations;
    active_simulation = refresh_active same_simulation x s.active_simulation;
  }

  topology_data_cleared : TopologyState P → TopologyState P
  topology_data_cleared s = record s {
    current_topology = none;
    discoveries = [];
    validations = [];
    visualization = none;
    stats = none;
    diff = none;
  }

-- `force_directed` is the layout of the initial state.
module _ {P : Type 0} (force_directed : P) where
  abbrev pub initial_state : TopologyState P
  initial_state = record {
    current_topology = none;
    discoveries = [];
    active_discovery = none;
    validations = [];
    last_validation = none;
    visualization = none;
    layout = force_directed;
    snapshots = [];
    simulations = [];
    active_simulation = none;
    stats = none;
    diff = none;
    selected_nodes = [];
    selected_edges = [];
    view_filter = none;
    loading = no_loading;
    errors = no_errors;
    ws_connected = false;
    ws_auto_reconnect = true;
    client_topologies = [];
    client_discoveries = [];
  }

  -- the slice's reducer; a stage with no case leaves the state
  pub reduce : Action P → TopologyState P → TopologyState P
  unfolding topology_pending discovery_pending validation_pending visualization_pending
      simulation_pending topology_rejected discovery_rejected validation_rejected
      visualization_rejected simulation_rejected set_exporting update_error got_topology
      got_discovery got_validation got_visualization got_simulation stopped_simulation
      discovery_updated validation_updated simulation_updated topology_data_cleared
  reduce (set_selected_nodes ids) s = record s { selected_nodes = ids }
  reduce (add_selected_node id) s =
      if includes id s.selected_nodes
      then s
      else record s { selected_nodes = s.selected_nodes ++ id ∷ [] }
  reduce (remove_selected_node id) s = record s { selected_nodes = without id s.selected_nodes }
  reduce (set_selected_edges ids) s = record s { selected_edges = ids }
  reduce (add_selected_edge id) s =
      if includes id s.selected_edges
      then s
      else record s { selected_edges = s.selected_edges ++ id ∷ [] }
  reduce (remove_selected_edge id) s = record s { selected_edges = without id s.selected_edges }
  reduce (set_filter f) s = record s { view_filter = f }
  reduce (set_layout l) s = record s { layout = l }
  reduce (set_ws_connected b) s = record s { ws_connected = b }
  reduce (set_ws_auto_reconnect b) s = record s { ws_auto_reconnect = b }
  reduce clear_errors s = record s { errors = no_errors }
  reduce clear_topology_data s = topology_data_cleared s
  reduce reset_state s = initial_state
  reduce (handle_topology_update t) s = record s { current_topology = some t }
  reduce (handle_discovery_update d) s = discovery_updated d s
  reduce (handle_validation_update v) s = validation_updated v s
  reduce (handle_simulation_update x) s = simulation_updated x s
  reduce (fetch_topology pending) s = topology_pending s
  reduce (fetch_topology (fulfilled t)) s = got_topology t s
  reduce (fetch_topology (rejected m)) s = topology_rejected m s
  reduce (create_topology pending) s = topology_pending s
  reduce (create_topology (fulfilled t)) s = got_topology (some t) s
  reduce (create_topology (rejected m)) s = topology_rejected m s
  reduce (update_topology (fulfilled t)) s = record s { current_topology = some t }
  reduce (update_topology (rejected m)) s = update_error m s
  reduce (delete_topology (fulfilled id)) s = record s { current_topology = none }
  reduce (run_discovery pending) s = discovery_pending s
  reduce (run_discovery (fulfilled d)) s = got_discovery d s
  reduce (run_discovery (rejected m)) s = discovery_rejected m s
  reduce (get_discovery_history (fulfilled ds)) s = record s { discoveries = ds }
  reduce (validate_topology pending) s = validation_pending s
  reduce (validate_topology (fulfilled v)) s = got_validation v s
  reduce (validate_topology (rejected m)) s = validation_rejected m s
  reduce (get_validation_history (fulfilled vs)) s = record s { validations = vs }
  reduce (generate_visualization pending) s = visualization_pending s
  reduce (generate_visualization (fulfilled v)) s = got_visualization v s
  reduce (generate_visualization (rejected m)) s = visualization_rejected m s
  reduce (create_snapshot (fulfilled x)) s = record s { snapshots = s.snapshots ++ x ∷ [] }
  reduce (get_snapshots (fulfilled xs)) s = record s { snapshots = xs }
  reduce (restore_snapshot (fulfilled t)) s = record s { current_topology = some t }
  reduce (compare_topologies (fulfilled d)) s = record s { diff = some d }
  reduce (start_simulation pending) s = simulation_pending s
  reduce (start_simulation (fulfilled x)) s = got_simulation x s
  reduce (start_simulation (rejected m)) s = simulation_rejected m s
  reduce (stop_simulation (fulfilled id)) s = stopped_simulation id s
  reduce (export_topology pending) s = set_exporting true s
  reduce (export_topology (fulfilled _)) s = set_exporting false s
  reduce (export_topology (rejected _)) s = set_exporting false s
  reduce (import_topology (fulfilled t)) s = record s { current_topology = some t }
  reduce (fetch_multi_client_topologies (fulfilled ts)) s = record s { client_topologies = ts }
  reduce _ s = s

  pub run : List (Action P) → TopologyState P → TopologyState P
  run [] s = s
  run (a ∷ as') s = run as' (reduce a s)
