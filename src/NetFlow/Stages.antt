-- ===== src/NetFlow/Stages.antt =====
-- store/slices/netflowSlice.ts: the thunks that fetch, and what they settle with.
use net_test_toy.NetFlow.Types.{
  Alert, AlertResult, ClientAnswer, CollectorConfig, ConfigUpdates, Errors, Exporter, Loading,
  NetFlowData, NetFlowState, client_data, client_error,
}
use net_test_toy.Thunk.{Stage, fulfilled, pending, rejected}
use net_test_toy.Base.{
  Bool, List, Option, String, [], false, if◌then◌else◌, none, some, suc, true, ◌∷◌,
}
use net_test_toy.Base.Dict.{Dict, insert}
use net_test_toy.Storage.{or_else}

abbrev pub no_errors : Errors
no_errors = record {
  records = none;
  stats = none;
  exporters = none;
  alerts = none;
  analysis = none;
  time_series = none;
  config = none;
}

abbrev pub no_loading : Loading
no_loading = record {
  records = false;
  stats = false;
  exporters = false;
  alerts = false;
  analysis = false;
  time_series = false;
  config = false;
}

abbrev pub exporter_id : {P : Type 0} → Exporter P → String
exporter_id e = e.id

abbrev pub alert_id : {P : Type 0} → Alert P → String
alert_id a = a.id

abbrev given {ℓ} : {A : Type ℓ} → Option A → A → A
given none a = a
given (some b) a = b

-- `{ ...state.collectorConfig, ...config }`
unfoldable pub merge_config : ConfigUpdates → CollectorConfig → CollectorConfig
merge_config u c = record {
  enabled = given u.enabled c.enabled;
  listen_address = given u.listen_address c.listen_address;
  listen_port = given u.listen_port c.listen_port;
  netflow_version = given u.netflow_version c.netflow_version;
  template_refresh_interval = given u.template_refresh_interval c.template_refresh_interval;
  max_flows_per_second = given u.max_flows_per_second c.max_flows_per_second;
  buffer_size = given u.buffer_size c.buffer_size;
  storage_retention_days = given u.storage_retention_days c.storage_retention_days;
}

-- `if (result.success && result.data) return result.data; throw new Error(result.error || fallback)`
unfoldable pub settle_alert : {A : Type 0} → String → String → AlertResult A → Stage A
settle_alert fallback now r = elim (if r.success then r.payload else none) [
  | some a ↦ fulfilled now a
  | none ↦ rejected (some (or_else r.error_text fallback))
]

-- The same for a call that gives back the id of its alert
unfoldable pub settle_id : {A : Type 0} → String → String → String → AlertResult A → Stage String
settle_id fallback now id r =
    if r.success then fulfilled now id else rejected (some (or_else r.error_text fallback))

-- The loop over the answers of several clients: an error leaves what is known of the client.
unfoldable pub store_answers :
    {P : Type 0} → Dict (ClientAnswer P) → Dict (NetFlowData P) → Dict (NetFlowData P)
store_answers [] known = known
store_answers ((url, client_data d) ∷ rest) known = store_answers rest (insert url d known)
store_answers ((url, client_error e) ∷ rest) known = store_answers rest known

-- `last_triggered` and `trigger_count++` of the alert with the id
abbrev pub tested : {P : Type 0} → String → Alert P → Alert P
tested now a = record a { last_triggered = some now; trigger_count = suc a.trigger_count }

module _ {P : Type 0} where
  unfoldable pub set_loading_four : Bool → NetFlowState P → NetFlowState P
  set_loading_four b s =
      let l = s.loading in
      record s { loading = record l { records = b; stats = b; exporters = b; alerts = b } }

  unfoldable pub data_fetched : String → NetFlowData P → NetFlowState P → NetFlowState P
  unfolding set_loading_four
  data_fetched now d s =
      let t = set_loading_four false s in
      record t {
        records = d.records;
        stats = some d.stats;
        exporters = d.exporters;
        alerts = d.alerts;
        collector_config = some d.config;
        last_update = some now;
        errors = no_errors;
      }

  unfoldable pub data_rejected : Option String → NetFlowState P → NetFlowState P
  unfolding set_loading_four
  data_rejected m s =
      let t = set_loading_four false s in
      let e = some (or_else m "Failed to fetch NetFlow data") in
      let es = s.errors in
      record t { errors = record es { records = e; stats = e; exporters = e; alerts = e } }

  unfoldable pub records_stage : Stage (List P) → NetFlowState P → NetFlowState P
  records_stage pending s =
      let l = s.loading in
      let e = s.errors in
      record s { loading = record l { records = true }; errors = record e { records = none } }
  records_stage (fulfilled now v) s =
      let l = s.loading in
      record s { records = v; loading = record l { records = false }; last_update = some now }
  records_stage (rejected m) s =
      let l = s.loading in
      let e = s.errors in
      record s {
        loading = record l { records = false };
        errors = record e { records = some (or_else m "Failed to fetch NetFlow records") };
      }

  unfoldable pub stats_stage : Stage P → NetFlowState P → NetFlowState P
  stats_stage pending s =
      let l = s.loading in
      let e = s.errors in
      record s { loading = record l { stats = true }; errors = record e { stats = none } }
  stats_stage (fulfilled now v) s =
      let l = s.loading in
      record s { stats = some v; loading = record l { stats = false }; last_update = some now }
  stats_stage (rejected m) s =
      let l = s.loading in
      let e = s.errors in
      record s {
        loading = record l { stats = false };
        errors = record e { stats = some (or_else m "Failed to fetch NetFlow stats") };
      }

  unfoldable pub exporters_stage : Stage (List (Exporter P)) → NetFlowState P → NetFlowState P
  exporters_stage pending s =
      let l = s.loading in
      let e = s.errors in
      record s { loading = record l { exporters = true }; errors = record e { exporters = none } }
  exporters_stage (fulfilled now v) s =
      let l = s.loading in
      record s { exporters = v; loading = record l { exporters = false }; last_update = some now }
  exporters_stage (rejected m) s =
      let l = s.loading in
      let e = s.errors in
      record s {
        loading = record l { exporters = false };
        errors = record e { exporters = some (or_else m "Failed to fetch NetFlow exporters") };
      }

  unfoldable pub alerts_stage : Stage (List (Alert P)) → NetFlowState P → NetFlowState P
  alerts_stage pending s =
      let l = s.loading in
      let e = s.errors in
      record s { loading = record l { alerts = true }; errors = record e { alerts = none } }
  alerts_stage (fulfilled now v) s =
      let l = s.loading in
      record s { alerts = v; loading = record l { alerts = false }; last_update = some now }
  alerts_stage (rejected m) s =
      let l = s.loading in
      let e = s.errors in
      record s {
        loading = record l { alerts = false };
        errors = record e { alerts = some (or_else m "Failed to fetch NetFlow alerts") };
      }

  unfoldable pub analysis_stage : Stage P → NetFlowState P → NetFlowState P
  analysis_stage pending s =
      let l = s.loading in
      let e = s.errors in
      record s { loading = record l { analysis = true }; errors = record e { analysis = none } }
  analysis_stage (fulfilled now v) s =
      let l = s.loading in
      record s {
        analysis = some v;
        loading = record l { analysis = false };
        last_update = some now;
      }
  analysis_stage (rejected m) s =
      let l = s.loading in
      let e = s.errors in
      record s {
        loading = record l { analysis = false };
        errors = record e { analysis = some (or_else m "Failed to fetch NetFlow analysis") };
      }

  unfoldable pub time_series_stage : Stage (List P) → NetFlowState P → NetFlowState P
  time_series_stage pending s =
      let l = s.loading in
      let e = s.errors in
      record s {
        loading = record l { time_series = true };
        errors = record e { time_series = none };
      }
  time_series_stage (fulfilled now v) s =
      let l = s.loading in
      record s {
        time_series = v;
        loading = record l { time_series = false };
        last_update = some now;
      }
  time_series_stage (rejected m) s =
      let l = s.loading in
      let e = s.errors in
      record s {
        loading = record l { time_series = false };
        errors = record e { time_series = some (or_else m "Failed to fetch time series data") };
      }

  unfoldable pub config_stage : Stage CollectorConfig → NetFlowState P → NetFlowState P
  config_stage pending s =
      let l = s.loading in
      let e = s.errors in
      record s { loading = record l { config = true }; errors = record e { config = none } }
  config_stage (fulfilled now v) s =
      let l = s.loading in
      record s { collector_config = some v; loading = record l { config = false } }
  config_stage (rejected m) s =
      let l = s.loading in
      let e = s.errors in
      record s {
        loading = record l { config = false };
        errors = record e { config = some (or_else m "Failed to fetch collector config") };
      }
