-- ===== src/NetFlow/Types.antt =====
-- store/slices/netflowSlice.ts, services/netflow/types.ts: the state and the actions. Values that
-- the slice stores and never reads have the type `P`.
use net_test_toy.Thunk.{Stage}
use net_test_toy.Base.{Bool, List, Option, String, ℕ}
use net_test_toy.Base.Dict.{Dict}

pub data NetFlowVersion : Type 0 where
  v5 v9 ipfix : NetFlowVersion

pub record CollectorConfig : Type 0 where
  pub enabled : Bool
  pub listen_address : String
  pub listen_port : ℕ
  pub netflow_version : NetFlowVersion
  pub template_refresh_interval : Option ℕ
  pub max_flows_per_second : Option ℕ
  pub buffer_size : Option ℕ
  pub storage_retention_days : Option ℕ

-- `Partial<NetFlowCollectorConfig>`: `none` is a field that the update does not have.
pub record ConfigUpdates : Type 0 where
  pub enabled : Option Bool
  pub listen_address : Option String
  pub listen_port : Option ℕ
  pub netflow_version : Option NetFlowVersion
  pub template_refresh_interval : Option (Option ℕ)
  pub max_flows_per_second : Option (Option ℕ)
  pub buffer_size : Option (Option ℕ)
  pub storage_retention_days : Option (Option ℕ)

-- An exporter, or an alert: `content` has the fields that are not read.
pub record Exporter (P : Type 0) : Type 0 where
  pub id : String
  pub content : P

pub record Alert (P : Type 0) : Type 0 where
  pub id : String
  pub last_triggered : Option String
  pub trigger_count : ℕ
  pub content : P

pub record NetFlowData (P : Type 0) : Type 0 where
  pub records : List P
  pub stats : P
  pub exporters : List (Exporter P)
  pub alerts : List (Alert P)
  pub config : CollectorConfig

pub data CollectorStatus : Type 0 where
  running stopped unknown : CollectorStatus

pub record Loading : Type 0 where
  pub records : Bool
  pub stats : Bool
  pub exporters : Bool
  pub alerts : Bool
  pub analysis : Bool
  pub time_series : Bool
  pub config : Bool

pub record Errors : Type 0 where
  pub records : Option String
  pub stats : Option String
  pub exporters : Option String
  pub alerts : Option String
  pub analysis : Option String
  pub time_series : Option String
  pub config : Option String

pub record NetFlowState (P : Type 0) : Type 0 where
  pub records : List P
  pub stats : Option P
  pub exporters : List (Exporter P)
  pub alerts : List (Alert P)
  pub analysis : Option P
  pub time_series : List P
  pub collector_config : Option CollectorConfig
  pub collector_status : CollectorStatus
  pub client_data : Dict (NetFlowData P)
  pub selected_exporter : Option String
  pub view_filter : P
  pub aggregation : Option P
  pub loading : Loading
  pub errors : Errors
  pub ws_connected : Bool
  pub ws_url : Option String
  pub streaming_enabled : Bool
  pub stream_buffer : List P
  pub max_buffer_size : ℕ
  pub poll_interval : ℕ
  pub last_update : Option String

-- What the calls on several clients give, in order: data, or an error.
pub data ClientAnswer (P : Type 0) : Type 0 where
  client_data : NetFlowData P → ClientAnswer P
  client_error : String → ClientAnswer P

-- The result of a call that changes an alert
pub record AlertResult (A : Type 0) : Type 0 where
  pub success : Bool
  pub payload : Option A
  pub error_text : Option String

pub data Action (P : Type 0) : Type 0 where
  set_records : String → List P → Action P
  add_record : String → P → Action P
  update_exporter : String → Exporter P → Action P
  set_selected_exporter : Option String → Action P
  set_filter : P → Action P
  set_aggregation : Option P → Action P
  set_web_socket_connected : Bool → Option String → Action P
  set_streaming_enabled : Bool → Action P
  clear_stream_buffer : Action P
  set_max_buffer_size : ℕ → Action P
  set_poll_interval : ℕ → Action P
  clear_errors : Action P
  reset_state : Action P
  fetch_data : Stage (NetFlowData P) → Action P
  fetch_records : Stage (List P) → Action P
  fetch_stats : Stage P → Action P
  fetch_exporters : Stage (List (Exporter P)) → Action P
  fetch_alerts : Stage (List (Alert P)) → Action P
  fetch_analysis : Stage P → Action P
  fetch_time_series : Stage (List P) → Action P
  fetch_collector_config : Stage CollectorConfig → Action P
  start_collector : Stage P → Action P
  stop_collector : Stage P → Action P
  update_collector_config : ConfigUpdates → Stage P → Action P
  clear_data : Stage P → Action P
  create_alert : Stage (Alert P) → Action P
  update_alert : Stage (Alert P) → Action P
  delete_alert : Stage String → Action P
  test_alert : Stage String → Action P
  export_data : Stage P → Action P
  fetch_multi_client_data : Stage (Dict (ClientAnswer P)) → Action P
  fetch_aggregated_analysis : Stage P → Action P
