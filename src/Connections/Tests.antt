-- ===== src/Connections/Tests.antt =====
-- Tests of the connections, and their theorems at concrete inputs.
use text.Mathlib.TextEquality.{eq_iff}
use net_test_toy.Connections.{
  ConnectionState, LocalDaemon, Store, UnifiedClient, client_ids, connected, daemon_client_id,
  discovered, drop_client, ensure_selected, error, has_id, local_ids, reduce, remove_gone,
  sync_daemon, sync_daemons, synced, toggle_enabled,
}
use net_test_toy.Connections.Valid.{IsValid}
use net_test_toy.Connections.Sync.{expected, find-synced}
use net_test_toy.Connections.Run.{
  HasSelected, IsSaved, reduce-IsSaved, reduce-IsValid, some_selected,
}
use net_test_toy.Base.{
  Bool, String, [], arith, false, find, none, refl, some, text_dec, true, ◌∷◌, ◌≡◌, ◌⊎◌,
}

abbrev roomy : ConnectionState → Bool
roomy s = true

abbrev remote : UnifiedClient
remote = record {
  id = "client-1";
  name = "edge";
  base_url = "http://10.0.0.1:5000";
  daemons = [];
  poll_interval = 5;
  enabled = true;
  status = connected;
  last_poll = none;
  error_text = none;
  is_local = false;
  daemon_name = none;
}

abbrev container : UnifiedClient
container = record {
  id = "local-r1";
  name = "r1 (Local)";
  base_url = "http://192.168.70.9:5000";
  daemons = [];
  poll_interval = 5;
  enabled = false;
  status = error;
  last_poll = none;
  error_text = none;
  is_local = true;
  daemon_name = some "r1";
}

abbrev two_clients : ConnectionState
two_clients = record {
  clients = remote ∷ container ∷ [];
  selected_client_ids = "local-r1" ∷ [];
  global_poll_interval = 5;
}

abbrev two_saved : Store
two_saved = record { state = two_clients; saved = some two_clients }

abbrev router : String → String → LocalDaemon
router name ip = record {
  name = name;
  daemon_type = "frr";
  ip_address = ip;
  api_port = "80";
  status = "running";
}

two_clients-IsValid : IsValid two_clients
two_clients-IsValid = record {
  distinct = ground (arith, eq_iff "client-1" "local-r1");
  known = λ i h. ground arith;
  above = omega arith;
  below = omega arith;
}

synced_r2 :
    client_ids (synced (router "r2" "localhost" ∷ []) two_clients).clients
    ≡ "client-1" ∷ "local-r2" ∷ []
unfolding synced sync_daemons sync_daemon remove_gone ensure_selected local_ids daemon_client_id
    text_dec discovered
synced_r2 = refl

reduce-IsValid_example : IsValid (reduce roomy (drop_client "local-r1") two_saved).state
reduce-IsValid_example =
    reduce-IsValid roomy (drop_client "local-r1") two_saved tt two_clients-IsValid

some_selected_example :
    ((reduce roomy (drop_client "local-r1") two_saved).state.clients ≡ [])
    ⊎ ((id : String) × HasSelected id (reduce roomy (drop_client "local-r1") two_saved).state)
some_selected_example =
    some_selected roomy (drop_client "local-r1") two_saved refl two_clients-IsValid

reduce-IsSaved_example : IsSaved (reduce roomy (toggle_enabled "client-1") two_saved)
reduce-IsSaved_example =
    reduce-IsSaved roomy (λ s. refl) (toggle_enabled "client-1") two_saved refl refl

find-synced_example :
    find (has_id "local-r1") (synced (router "r1" "localhost" ∷ []) two_clients).clients
    ≡ expected (router "r1" "localhost" ∷ []) "local-r1" (some container)
unfolding text_dec
find-synced_example =
    find-synced (router "r1" "localhost" ∷ []) two_clients "local-r1" two_clients-IsValid.distinct
