-- ===== src/NetFlow.antt =====
-- store/slices/netflowSlice.ts: the reducer.
use mathlib.Core.Option
mod Types
mod Stages
pub mod Busy
pub mod Content
mod Tests
pub use Types.*
unfoldable pub use Stages.*
use net_test_toy.Thunk.{fulfilled, pending, rejected}
use net_test_toy.Base.{
  List, Option, String, [], false, filter, if◌then◌else◌, map, none, not, some, true, update_first,
  ◌*◌, ◌++◌, ◌==◌, ◌∷◌,
}
use net_test_toy.Storage.{truthy}
use net_test_toy.Base.Upsert.{has_key, upsert}
use net_test_toy.Base.Buffer.{cut}

module _ {P : Type 0} where
  -- Only the last 10000 records are kept, and of the streamed ones as many as the buffer holds.
  record_added : String → P → NetFlowState P → NetFlowState P
  record_added now r s = record s {
    stream_buffer =
        if s.streaming_enabled
        then cut s.max_buffer_size (r ∷ s.stream_buffer)
        else s.stream_buffer;
    records = cut 10000 (r ∷ s.records);
    last_update = some now;
  }

  data_cleared : NetFlowState P → NetFlowState P
  data_cleared s = record s {
    records = [];
    stats = none;
    exporters = [];
    alerts = [];
    analysis = none;
    time_series = [];
    stream_buffer = [];
    last_update = none;
  }

  collector_stopped : NetFlowState P → NetFlowState P
  collector_stopped s = record s {
    collector_status = stopped;
    ws_connected = false;
    streaming_enabled = false;
  }

  -- `no_filter` stands for `{}`.
  pub initial_state : P → NetFlowState P
  initial_state no_filter = record {
    records = [];
    stats = none;
    exporters = [];
    alerts = [];
    analysis = none;
    time_series = [];
    collector_config = none;
    collector_status = unknown;
    client_data = [];
    selected_exporter = none;
    view_filter = no_filter;
    aggregation = none;
    loading = no_loading;
    errors = no_errors;
    ws_connected = false;
    ws_url = none;
    streaming_enabled = false;
    stream_buffer = [];
    max_buffer_size = 1000;
    poll_interval = 5000;
    last_update = none;
  }

  pub reduce : P → Action P → NetFlowState P → NetFlowState P
  unfolding record_added data_cleared collector_stopped initial_state data_fetched data_rejected
      set_loading_four records_stage stats_stage exporters_stage alerts_stage analysis_stage
      time_series_stage config_stage merge_config store_answers
  reduce z (set_records now rs) s = record s { records = rs; last_update = some now }
  reduce z (add_record now r) s = record_added now r s
  reduce z (update_exporter now e) s = record s {
    exporters = upsert exporter_id e s.exporters;
    last_update = some now;
  }
  reduce z (set_selected_exporter e) s = record s { selected_exporter = e }
  reduce z (set_filter f) s = record s { view_filter = f }
  reduce z (set_aggregation a) s = record s { aggregation = a }
  reduce z (set_web_socket_connected b url) s = record s {
    ws_connected = b;
    ws_url = elim (truthy url) [ none ↦ s.ws_url | some u ↦ some u ];
  }
  reduce z (set_streaming_enabled b) s = record s {
    streaming_enabled = b;
    stream_buffer = if b then s.stream_buffer else [];
  }
  reduce z clear_stream_buffer s = record s { stream_buffer = [] }
  reduce z (set_max_buffer_size n) s = record s { max_buffer_size = n }
  reduce z (set_poll_interval n) s = record s { poll_interval = n }
  reduce z clear_errors s = record s { errors = no_errors }
  reduce z reset_state s = initial_state z
  reduce z (fetch_data pending) s = set_loading_four true s
  reduce z (fetch_data (fulfilled now d)) s = data_fetched now d s
  reduce z (fetch_data (rejected m)) s = data_rejected m s
  reduce z (fetch_records t) s = records_stage t s
  reduce z (fetch_stats t) s = stats_stage t s
  reduce z (fetch_exporters t) s = exporters_stage t s
  reduce z (fetch_alerts t) s = alerts_stage t s
  reduce z (fetch_analysis t) s = analysis_stage t s
  reduce z (fetch_time_series t) s = time_series_stage t s
  reduce z (fetch_collector_config t) s = config_stage t s
  reduce z (start_collector (fulfilled now r)) s = record s { collector_status = running }
  reduce z (stop_collector (fulfilled now r)) s = collector_stopped s
  reduce z (update_collector_config u (fulfilled now r)) s = record s {
    collector_config = Option.map (merge_config u) s.collector_config;
  }
  reduce z (clear_data (fulfilled now r)) s = data_cleared s
  reduce z (create_alert (fulfilled now a)) s = record s { alerts = s.alerts ++ a ∷ [] }
  reduce z (update_alert (fulfilled now a)) s = record s {
    alerts = update_first (has_key alert_id a.id) (λ b. a) s.alerts;
  }
  reduce z (delete_alert (fulfilled now id)) s = record s {
    alerts = filter (λ a. not (a.id == id)) s.alerts;
  }
  reduce z (test_alert (fulfilled now id)) s = record s {
    alerts = update_first (has_key alert_id id) (tested now) s.alerts;
  }
  reduce z (fetch_multi_client_data (fulfilled now answers)) s = record s {
    client_data = store_answers answers s.client_data;
    last_update = some now;
  }
  reduce z (fetch_aggregated_analysis (fulfilled now v)) s = record s {
    analysis = some v;
    last_update = some now;
  }
  reduce z _ s = s

  pub run : P → List (Action P) → NetFlowState P → NetFlowState P
  run z [] s = s
  run z (a ∷ as') s = run z as' (reduce z a s)
