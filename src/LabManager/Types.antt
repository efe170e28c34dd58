-- ===== src/LabManager/Types.antt =====
-- store/labManagerSlice.ts: the managed hosts, what they run, and the actions on them.
-- `P` stands for the daemons and containers of a host, which the slice only stores.
use net_test_toy.Base.{Bool, List, Option, String, ℕ}
use net_test_toy.Base.Dict.{Dict}
use net_test_toy.Storage.{Storage}

pub data HostStatus : Type 0 where
  connected disconnected failed : HostStatus

pub record ManagedHost : Type 0 where
  pub id : String
  pub name : String
  pub url : String
  pub enabled : Bool
  pub status : HostStatus
  pub error : Option String

-- `Omit<ManagedHost, 'id' | 'status'>`
pub record NewHost : Type 0 where
  pub name : String
  pub url : String
  pub enabled : Bool
  pub error : Option String

pub record LabManagerState (P : Type 0) : Type 0 where
  pub managed_hosts : List ManagedHost
  pub daemons : Dict (List P)
  pub hosts : Dict (List P)
  pub selected_host_id : Option String
  pub is_loading : Bool
  pub error : Option String
  pub is_creating : Bool
  pub is_updating : Bool
  pub is_deleting : Bool
  pub mutation_error : Option String

-- The slice's state and the storage area that its reducers write.
pub record Lab (P : Type 0) : Type 0 where
  pub state : LabManagerState P
  pub storage : Storage

-- What `getLabData` gives: the daemons and the containers of a host, or the message of its error.
pub data LabAnswer (P : Type 0) : Type 0 where
  answered : List P → List P → LabAnswer P
  thrown : String → LabAnswer P

pub record HostResult (P : Type 0) : Type 0 where
  pub host_id : String
  pub daemons : List P
  pub hosts : List P
  pub is_connected : Bool
  pub error : Option String

pub data Stage (A : Type 0) : Type 0 where
  pending : Stage A
  fulfilled : A → Stage A
  rejected : Option String → Stage A

-- The thunks that change a lab.
pub data Mutation : Type 0 where
  create_daemon update_daemon delete_daemon create_lab_host delete_lab_host : Mutation
  associate_network restore_lab : Mutation

pub data Action (P : Type 0) : Type 0 where
  -- with the time `Date.now()`
  add_managed_host : ℕ → NewHost → Action P
  update_managed_host : ManagedHost → Action P
  remove_managed_host : String → Action P
  toggle_managed_host : String → Action P
  set_selected_host_id : String → Action P
  clear_lab_data : Action P
  fetch_lab_data : Stage (List (HostResult P)) → Action P
  fetch_single_host_data : Stage (HostResult P) → Action P
  mutate : Mutation → Stage Unit → Action P

-- JSON on the list of the hosts, and whether the storage has room for a text under a key.
pub record HostFile : Type 0 where
  pub stringify : List ManagedHost → String
  pub parse : String → Option (List ManagedHost)
  pub room : Storage → String → String → Bool
