-- ===== src/Connections/Types.antt =====
-- store/connectionSlice.ts: the clients that the program polls, and which of them are selected.
use net_test_toy.Base.{Bool, List, Option, String, false, map, true, ℕ, ◌==◌}

pub data DaemonType : Type 0 where
  gobgp frr exabgp bmp netflow : DaemonType

pub record DaemonConfig : Type 0 where
  pub daemon_type : DaemonType
  pub name : Option String
  pub enabled : Bool
  pub port : Option ℕ

pub data ClientStatus : Type 0 where
  connected disconnected error : ClientStatus

-- `is_local` is the truth of the optional `isLocal`.
pub record UnifiedClient : Type 0 where
  pub id : String
  pub name : String
  pub base_url : String
  pub daemons : List DaemonConfig
  pub poll_interval : ℕ
  pub enabled : Bool
  pub status : ClientStatus
  pub last_poll : Option String
  pub error_text : Option String
  pub is_local : Bool
  pub daemon_name : Option String

pub record ConnectionState : Type 0 where
  pub clients : List UnifiedClient
  pub selected_client_ids : List String
  pub global_poll_interval : ℕ

-- The payload of `addClient`: a client without `id` and `status`.
pub record NewClient : Type 0 where
  pub name : String
  pub base_url : String
  pub daemons : List DaemonConfig
  pub poll_interval : ℕ
  pub enabled : Bool
  pub last_poll : Option String
  pub error_text : Option String
  pub is_local : Bool
  pub daemon_name : Option String

-- `Partial<UnifiedClient>`: `none` is a field that the update does not have.
pub record ClientUpdates : Type 0 where
  pub id : Option String
  pub name : Option String
  pub base_url : Option String
  pub daemons : Option (List DaemonConfig)
  pub poll_interval : Option ℕ
  pub enabled : Option Bool
  pub status : Option ClientStatus
  pub last_poll : Option (Option String)
  pub error_text : Option (Option String)
  pub is_local : Option Bool
  pub daemon_name : Option (Option String)

-- A daemon as the lab manager lists it.
pub record LocalDaemon : Type 0 where
  pub name : String
  pub daemon_type : String
  pub ip_address : String
  pub api_port : String
  pub status : String

-- The state, and what was last written under the key `route-herald-connections`.
pub record Store : Type 0 where
  pub state : ConnectionState
  pub saved : Option ConnectionState

abbrev pub is_daemon_type : DaemonType → DaemonType → Bool
is_daemon_type gobgp gobgp = true
is_daemon_type frr frr = true
is_daemon_type exabgp exabgp = true
is_daemon_type bmp bmp = true
is_daemon_type netflow netflow = true
is_daemon_type _ _ = false

-- `c => c.id === id`
abbrev pub has_id : String → UnifiedClient → Bool
has_id id c = c.id == id

abbrev pub client_ids : List UnifiedClient → List String
client_ids = map (λ c. c.id)

-- The actions of the slice, with their payloads and the time where the reducer reads it.
pub data Action : Type 0 where
  add : ℕ → NewClient → Action
  update : String → ClientUpdates → Action
  drop_client : String → Action
  toggle_enabled : String → Action
  toggle_daemon_of : String → DaemonType → Action
  set_status : String → String → ClientStatus → Option String → Action
  select : List String → Action
  toggle_selected : String → Action
  set_global_interval : ℕ → Action
  set_interval : String → ℕ → Action
  sync_local : List LocalDaemon → Action
