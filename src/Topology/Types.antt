-- ===== src/Topology/Types.antt =====
-- store/slices/topologySlice.ts: the state of the topology pages and the actions on it.
-- `P` stands for the values of the service that the slice stores and never reads.
use net_test_toy.Base.{Bool, List, Option, String}
use net_test_toy.Base.Dict.{Dict}

pub record Discovery (P : Type 0) : Type 0 where
  pub id : String
  pub body : P

pub record Validation (P : Type 0) : Type 0 where
  pub id : String
  pub body : P

pub data SimulationStatus : Type 0 where
  running stopped paused : SimulationStatus

pub record Simulation (P : Type 0) : Type 0 where
  pub id : String
  pub status : SimulationStatus
  pub body : P

pub record Loading : Type 0 where
  pub topology : Bool
  pub discovery : Bool
  pub validation : Bool
  pub visualization : Bool
  pub simulation : Bool
  pub exporting : Bool

pub record Errors : Type 0 where
  pub topology : Option String
  pub discovery : Option String
  pub validation : Option String
  pub visualization : Option String
  pub simulation : Option String

pub record TopologyState (P : Type 0) : Type 0 where
  pub current_topology : Option P
  pub discoveries : List (Discovery P)
  pub active_discovery : Option (Discovery P)
  pub validations : List (Validation P)
  pub last_validation : Option (Validation P)
  pub visualization : Option P
  pub layout : P
  pub snapshots : List P
  pub simulations : List (Simulation P)
  pub active_simulation : Option (Simulation P)
  pub stats : Option P
  pub diff : Option P
  pub selected_nodes : List String
  pub selected_edges : List String
  pub view_filter : Option P
  pub loading : Loading
  pub errors : Errors
  pub ws_connected : Bool
  pub ws_auto_reconnect : Bool
  pub client_topologies : Dict P
  pub client_discoveries : Dict (List (Discovery P))

-- What a service call gives back: a `TopologyMutationResult`, whose success carries data.
pub data MutationResult {ℓ} (A : Type ℓ) : Type ℓ where
  success : A → MutationResult A
  failure : Option String → MutationResult A

-- The stages of an asynchronous thunk that the slice hears of; a rejection has its message.
pub data Stage {ℓ} (A : Type ℓ) : Type ℓ where
  pending : Stage A
  fulfilled : A → Stage A
  rejected : Option String → Stage A

pub data Action (P : Type 0) : Type 0 where
  set_selected_nodes : List String → Action P
  add_selected_node : String → Action P
  remove_selected_node : String → Action P
  set_selected_edges : List String → Action P
  add_selected_edge : String → Action P
  remove_selected_edge : String → Action P
  set_filter : Option P → Action P
  set_layout : P → Action P
  set_ws_connected : Bool → Action P
  set_ws_auto_reconnect : Bool → Action P
  clear_errors : Action P
  clear_topology_data : Action P
  reset_state : Action P
  handle_topology_update : P → Action P
  handle_discovery_update : Discovery P → Action P
  handle_validation_update : Validation P → Action P
  handle_simulation_update : Simulation P → Action P
  fetch_topology : Stage (Option P) → Action P
  create_topology : Stage P → Action P
  update_topology : Stage P → Action P
  delete_topology : Stage String → Action P
  run_discovery : Stage (Discovery P) → Action P
  get_discovery_history : Stage (List (Discovery P)) → Action P
  validate_topology : Stage (Validation P) → Action P
  get_validation_history : Stage (List (Validation P)) → Action P
  generate_visualization : Stage P → Action P
  create_snapshot : Stage P → Action P
  get_snapshots : Stage (List P) → Action P
  restore_snapshot : Stage P → Action P
  compare_topologies : Stage P → Action P
  start_simulation : Stage (Simulation P) → Action P
  stop_simulation : Stage String → Action P
  export_topology : Stage P → Action P
  import_topology : Stage P → Action P
  fetch_multi_client_topologies : Stage (Dict P) → Action P
