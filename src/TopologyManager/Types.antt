-- ===== src/TopologyManager/Types.antt =====
-- store/topologyManagerSlice.ts: the state and the actions.
use net_test_toy.Http.Types.{Json}
use net_test_toy.TopologyApi.{MutationResult}
use net_test_toy.Base.{Bool, Option, String}

-- `active_topology` and `topology_details` are `null` where there are none.
pub record ManagerState : Type 0 where
  pub topologies : Json
  pub active_topology : Json
  pub selected_topology : Option String
  pub topology_details : Json
  pub is_loading : Bool
  pub is_loading_details : Bool
  pub is_activating : Bool
  pub error_text : Option String
  pub details_error : Option String
  pub success_message : Option String
  pub current_host_url : String

-- The payloads of the thunks
pub record Fetched : Type 0 where
  pub topologies : Json
  pub active_topology : Json

pub record Details : Type 0 where
  pub name : String
  pub details : Json

pub record Created : Type 0 where
  pub lists : Fetched
  pub created_name : String

pub record Activated : Type 0 where
  pub lists : Fetched
  pub activated_name : String
  pub activation_result : MutationResult
  pub details : Json

pub record Deleted : Type 0 where
  pub lists : Fetched
  pub deleted_name : String

pub data Stage (A : Type 0) : Type 0 where
  pending : Stage A
  fulfilled : A → Stage A
  rejected : Option String → Stage A

pub data Action : Type 0 where
  host_url_set : String → Action
  topology_selected : Option String → Action
  clear_error clear_success_message reset_topology_state : Action
  topologies_action : Stage Fetched → Action
  details_action : Stage Details → Action
  create_action : Stage Created → Action
  activate_action : Stage Activated → Action
  delete_action : Stage Deleted → Action
