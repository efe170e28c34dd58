-- ===== src/Bmp.antt =====
-- store/slices/bmpSlice.ts: the reducer.
use mathlib.Core.Option
mod Types
pub mod Busy
pub mod Content
mod Tests
pub use Types.*
use net_test_toy.Base.{
  Bool, List, Option, String, [], false, filter, map, none, not, some, true, ◌++◌, ◌==◌, ◌∷◌,
}
use net_test_toy.Base.Dict.{Dict, insert}
use net_test_toy.Storage.{or_else, truthy}
use net_test_toy.Base.Upsert.{upsert}
use net_test_toy.Base.Buffer.{cut}

abbrev no_errors : Errors
no_errors = record {
  peers = none;
  routes = none;
  flow_spec = none;
  messages = none;
  stats = none;
  config = none;
}

abbrev no_loading : Loading
no_loading = record {
  peers = false;
  routes = false;
  flow_spec = false;
  messages = false;
  stats = false;
  config = false;
}

abbrev pub peer_id : {P : Type 0} → Peer P → String
peer_id p = p.id

-- `r => r.route_type === 'advertised'`
abbrev pub is_advertised : {P : Type 0} → Route P → Bool
is_advertised r = elim r.route_type [ advertised ↦ true | received ↦ false ]

abbrev pub is_received : {P : Type 0} → Route P → Bool
is_received r = elim r.route_type [ advertised ↦ false | received ↦ true ]

abbrev pub split_routes : {P : Type 0} → List (Route P) → PeerRoutes P
split_routes rs = record { advertised = filter is_advertised rs; received = filter is_received rs }

abbrev given {ℓ} : {A : Type ℓ} → Option A → A → A
given none a = a
given (some b) a = b

-- `{ ...state.serverConfig, ...config }`
merge_config : ConfigUpdates → ServerConfig → ServerConfig
merge_config u c = record {
  enabled = given u.enabled c.enabled;
  listen_address = given u.listen_address c.listen_address;
  listen_port = given u.listen_port c.listen_port;
  max_connections = given u.max_connections c.max_connections;
  buffer_size = given u.buffer_size c.buffer_size;
}

-- the loop over the answers of several clients: an error leaves what is known of the client
pub store_answers : {P : Type 0} → Dict (ClientAnswer P) → Dict (BmpData P) → Dict (BmpData P)
store_answers [] known = known
store_answers ((url, client_data d) ∷ rest) known = store_answers rest (insert url d known)
store_answers ((url, client_error e) ∷ rest) known = store_answers rest known

module _ {P : Type 0} where
  set_loading_four : Bool → BmpState P → BmpState P
  set_loading_four b s =
      let l = s.loading in
      record s { loading = record l { peers = b; routes = b; flow_spec = b; stats = b } }

  data_fetched : String → BmpData P → BmpState P → BmpState P
  unfolding set_loading_four
  data_fetched now d s =
      let t = set_loading_four false s in
      record t {
        peers = d.peers;
        routes = d.routes;
        flow_spec_rules = d.rules;
        stats = some d.stats;
        messages = d.messages;
        last_update = some now;
        errors = no_errors;
      }

  data_rejected : Option String → BmpState P → BmpState P
  unfolding set_loading_four
  data_rejected m s =
      let t = set_loading_four false s in
      let e = some (or_else m "Failed to fetch BMP data") in
      let es = s.errors in
      record t { errors = record es { peers = e; routes = e; flow_spec = e; stats = e } }

  -- the start of a thunk: its flag goes up and its error goes
  peers_pending : BmpState P → BmpState P
  peers_pending s =
      let l = s.loading in
      let e = s.errors in
      record s { loading = record l { peers = true }; errors = record e { peers = none } }

  routes_pending : BmpState P → BmpState P
  routes_pending s =
      let l = s.loading in
      let e = s.errors in
      record s { loading = record l { routes = true }; errors = record e { routes = none } }

  flow_spec_pending : BmpState P → BmpState P
  flow_spec_pending s =
      let l = s.loading in
      let e = s.errors in
      record s { loading = record l { flow_spec = true }; errors = record e { flow_spec = none } }

  stats_pending : BmpState P → BmpState P
  stats_pending s =
      let l = s.loading in
      let e = s.errors in
      record s { loading = record l { stats = true }; errors = record e { stats = none } }

  messages_pending : BmpState P → BmpState P
  messages_pending s =
      let l = s.loading in
      let e = s.errors in
      record s { loading = record l { messages = true }; errors = record e { messages = none } }

  config_pending : BmpState P → BmpState P
  config_pending s =
      let l = s.loading in
      let e = s.errors in
      record s { loading = record l { config = true }; errors = record e { config = none } }

  -- the end of a thunk that has failed
  peers_rejected : Option String → BmpState P → BmpState P
  peers_rejected m s =
      let l = s.loading in
      let e = s.errors in
      record s {
        loading = record l { peers = false };
        errors = record e { peers = some (or_else m "Failed to fetch BMP peers") };
      }

  routes_rejected : Option String → BmpState P → BmpState P
  routes_rejected m s =
      let l = s.loading in
      let e = s.errors in
      record s {
        loading = record l { routes = false };
        errors = record e { routes = some (or_else m "Failed to fetch BMP routes") };
      }

  flow_spec_rejected : Option String → BmpState P → BmpState P
  flow_spec_rejected m s =
      let l = s.loading in
      let e = s.errors in
      record s {
        loading = record l { flow_spec = false };
        errors = record e { flow_spec = some (or_else m "Failed to fetch FlowSpec rules") };
      }

  stats_rejected : Option String → BmpState P → BmpState P
  stats_rejected m s =
      let l = s.loading in
      let e = s.errors in
      record s {
        loading = record l { stats = false };
        errors = record e { stats = some (or_else m "Failed to fetch BMP stats") };
      }

  messages_rejected : Option String → BmpState P → BmpState P
  messages_rejected m s =
      let l = s.loading in
      let e = s.errors in
      record s {
        loading = record l { messages = false };
        errors = record e { messages = some (or_else m "Failed to fetch BMP messages") };
      }

  config_rejected : Option String → BmpState P → BmpState P
  config_rejected m s =
      let l = s.loading in
      let e = s.errors in
      record s {
        loading = record l { config = false };
        errors = record e { config = some (or_else m "Failed to fetch server config") };
      }

  peers_fetched : String → List (Peer P) → BmpState P → BmpState P
  peers_fetched now ps s =
      let l = s.loading in
      record s { peers = ps; loading = record l { peers = false }; last_update = some now }

  routes_fetched : String → RoutesPayload P → BmpState P → BmpState P
  routes_fetched now (of_peer p rs) s =
      let l = s.loading in
      record s {
        routes = insert p (split_routes rs) s.routes;
        loading = record l { routes = false };
        last_update = some now;
      }
  routes_fetched now (all_routes m) s =
      let l = s.loading in
      record s { routes = m; loading = record l { routes = false }; last_update = some now }

  rules_fetched : String → List (Rule P) → BmpState P → BmpState P
  rules_fetched now rs s =
      let l = s.loading in
      record s {
        flow_spec_rules = rs;
        loading = record l { flow_spec = false };
        last_update = some now;
      }

  stats_fetched : String → P → BmpState P → BmpState P
  stats_fetched now x s =
      let l = s.loading in
      record s { stats = some x; loading = record l { stats = false }; last_update = some now }

  messages_fetched : String → List P → BmpState P → BmpState P
  messages_fetched now ms s =
      let l = s.loading in
      record s { messages = ms; loading = record l { messages = false }; last_update = some now }

  config_fetched : ServerConfig → BmpState P → BmpState P
  config_fetched c s =
      let l = s.loading in
      record s { server_config = some c; loading = record l { config = false } }

  -- Only the last 1000 messages are kept.
  message_added : String → P → BmpState P → BmpState P
  message_added now m s = record s { messages = cut 1000 (m ∷ s.messages); last_update = some now }

  data_cleared : BmpState P → BmpState P
  data_cleared s = record s {
    peers = [];
    routes = [];
    flow_spec_rules = [];
    messages = [];
    stats = none;
    last_update = none;
  }

-- `no_filter` is the filter of the initial state.
module _ {P : Type 0} (no_filter : P) where
  abbrev pub initial_state : BmpState P
  initial_state = record {
    peers = [];
    routes = [];
    flow_spec_rules = [];
    messages = [];
    stats = none;
    server_config = none;
    server_status = unknown;
    client_data = [];
    selected_peer = none;
    view_filter = no_filter;
    loading = no_loading;
    errors = no_errors;
    ws_connected = false;
    ws_url = none;
    poll_interval = 15000;
    last_update = none;
  }

  -- the slice's reducer; a stage with no case leaves the state
  pub reduce : Action P → BmpState P → BmpState P
  unfolding merge_config store_answers set_loading_four data_fetched data_rejected peers_pending
      routes_pending flow_spec_pending stats_pending messages_pending config_pending peers_rejected
      routes_rejected flow_spec_rejected stats_rejected messages_rejected config_rejected
      peers_fetched routes_fetched rules_fetched stats_fetched messages_fetched config_fetched
      message_added data_cleared
  reduce (set_peers now ps) s = record s { peers = ps; last_update = some now }
  reduce (add_message now m) s = message_added now m s
  reduce (update_peer now p) s = record s {
    peers = upsert peer_id p s.peers;
    last_update = some now;
  }
  reduce (set_selected_peer p) s = record s { selected_peer = p }
  reduce (set_filter f) s = record s { view_filter = f }
  reduce (set_web_socket_connected on url) s = record s {
    ws_connected = on;
    ws_url = elim (truthy url) [ none ↦ s.ws_url | some u ↦ some u ];
  }
  reduce (set_poll_interval n) s = record s { poll_interval = n }
  reduce clear_errors s = record s { errors = no_errors }
  reduce reset_state s = initial_state
  reduce (fetch_data pending) s = set_loading_four true s
  reduce (fetch_data (fulfilled now d)) s = data_fetched now d s
  reduce (fetch_data (rejected m)) s = data_rejected m s
  reduce (fetch_peers pending) s = peers_pending s
  reduce (fetch_peers (fulfilled now ps)) s = peers_fetched now ps s
  reduce (fetch_peers (rejected m)) s = peers_rejected m s
  reduce (fetch_routes pending) s = routes_pending s
  reduce (fetch_routes (fulfilled now r)) s = routes_fetched now r s
  reduce (fetch_routes (rejected m)) s = routes_rejected m s
  reduce (fetch_flow_spec_rules pending) s = flow_spec_pending s
  reduce (fetch_flow_spec_rules (fulfilled now rs)) s = rules_fetched now rs s
  reduce (fetch_flow_spec_rules (rejected m)) s = flow_spec_rejected m s
  reduce (fetch_stats pending) s = stats_pending s
  reduce (fetch_stats (fulfilled now x)) s = stats_fetched now x s
  reduce (fetch_stats (rejected m)) s = stats_rejected m s
  reduce (fetch_messages pending) s = messages_pending s
  reduce (fetch_messages (fulfilled now ms)) s = messages_fetched now ms s
  reduce (fetch_messages (rejected m)) s = messages_rejected m s
  reduce (fetch_server_config pending) s = config_pending s
  reduce (fetch_server_config (fulfilled now c)) s = config_fetched c s
  reduce (fetch_server_config (rejected m)) s = config_rejected m s
  reduce (start_server (fulfilled now _)) s = record s { server_status = running }
  reduce (stop_server (fulfilled now _)) s = record s {
    server_status = stopped;
    ws_connected = false;
  }
  reduce (update_server_config u (fulfilled now _)) s = record s {
    server_config = Option.map (merge_config u) s.server_config;
  }
  reduce (clear_data (fulfilled now _)) s = data_cleared s
  reduce (delete_flow_spec_rule (fulfilled now id)) s = record s {
    flow_spec_rules = filter (λ r. not (r.id == id)) s.flow_spec_rules;
  }
  reduce (add_flow_spec_rule (fulfilled now r)) s = record s {
    flow_spec_rules = s.flow_spec_rules ++ r ∷ [];
  }
  reduce (fetch_multi_client_data (fulfilled now answers)) s = record s {
    client_data = store_answers answers s.client_data;
    last_update = some now;
  }
  reduce _ s = s

  pub run : List (Action P) → BmpState P → BmpState P
  run [] s = s
  run (a ∷ as') s = run as' (reduce a s)
