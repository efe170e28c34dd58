-- ===== src/Bmp/Types.antt =====
-- store/slices/bmpSlice.ts: the state of the BGP monitoring pages and the actions on it.
-- `P` stands for the values of the service that the slice stores and never reads.
pub use net_test_toy.Thunk.{Stage, fulfilled, pending, rejected}
use net_test_toy.Base.{Bool, List, Option, String, ℕ}
use net_test_toy.Base.Dict.{Dict}

pub record Peer (P : Type 0) : Type 0 where
  pub id : String
  pub body : P

pub data RouteType : Type 0 where
  advertised received : RouteType

pub record Route (P : Type 0) : Type 0 where
  pub route_type : RouteType
  pub body : P

pub record PeerRoutes (P : Type 0) : Type 0 where
  pub advertised : List (Route P)
  pub received : List (Route P)

pub record Rule (P : Type 0) : Type 0 where
  pub id : String
  pub body : P

pub record ServerConfig : Type 0 where
  pub enabled : Bool
  pub listen_address : String
  pub listen_port : ℕ
  pub max_connections : ℕ
  pub buffer_size : ℕ

-- `Partial<BMPServerConfig>`
pub record ConfigUpdates : Type 0 where
  pub enabled : Option Bool
  pub listen_address : Option String
  pub listen_port : Option ℕ
  pub max_connections : Option ℕ
  pub buffer_size : Option ℕ

pub data ServerStatus : Type 0 where
  running stopped unknown : ServerStatus

pub record BmpData (P : Type 0) : Type 0 where
  pub peers : List (Peer P)
  pub routes : Dict (PeerRoutes P)
  pub rules : List (Rule P)
  pub stats : P
  pub messages : List P

pub record Loading : Type 0 where
  pub peers : Bool
  pub routes : Bool
  pub flow_spec : Bool
  pub messages : Bool
  pub stats : Bool
  pub config : Bool

pub record Errors : Type 0 where
  pub peers : Option String
  pub routes : Option String
  pub flow_spec : Option String
  pub messages : Option String
  pub stats : Option String
  pub config : Option String

pub record BmpState (P : Type 0) : Type 0 where
  pub peers : List (Peer P)
  pub routes : Dict (PeerRoutes P)
  pub flow_spec_rules : List (Rule P)
  pub messages : List P
  pub stats : Option P
  pub server_config : Option ServerConfig
  pub server_status : ServerStatus
  pub client_data : Dict (BmpData P)
  pub selected_peer : Option String
  pub view_filter : P
  pub loading : Loading
  pub errors : Errors
  pub ws_connected : Bool
  pub ws_url : Option String
  pub poll_interval : ℕ
  pub last_update : Option String

-- What `fetchBMPRoutes` settles with: a list for the peer that was asked for, else the whole map.
pub data RoutesPayload (P : Type 0) : Type 0 where
  of_peer : String → List (Route P) → RoutesPayload P
  all_routes : Dict (PeerRoutes P) → RoutesPayload P

-- What the calls on several clients give, in order: data, or an error.
pub data ClientAnswer (P : Type 0) : Type 0 where
  client_data : BmpData P → ClientAnswer P
  client_error : String → ClientAnswer P

pub data Action (P : Type 0) : Type 0 where
  set_peers : String → List (Peer P) → Action P
  add_message : String → P → Action P
  update_peer : String → Peer P → Action P
  set_selected_peer : Option String → Action P
  set_filter : P → Action P
  set_web_socket_connected : Bool → Option String → Action P
  set_poll_interval : ℕ → Action P
  clear_errors : Action P
  reset_state : Action P
  fetch_data : Stage (BmpData P) → Action P
  fetch_peers : Stage (List (Peer P)) → Action P
  fetch_routes : Stage (RoutesPayload P) → Action P
  fetch_flow_spec_rules : Stage (List (Rule P)) → Action P
  fetch_stats : Stage P → Action P
  fetch_messages : Stage (List P) → Action P
  fetch_server_config : Stage ServerConfig → Action P
  start_server : Stage P → Action P
  stop_server : Stage P → Action P
  update_server_config : ConfigUpdates → Stage P → Action P
  clear_data : Stage P → Action P
  delete_flow_spec_rule : Stage String → Action P
  add_flow_spec_rule : Stage (Rule P) → Action P
  fetch_multi_client_data : Stage (Dict (ClientAnswer P)) → Action P
