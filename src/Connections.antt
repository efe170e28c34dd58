-- ===== src/Connections.antt =====
-- store/connectionSlice.ts: the reducers over the clients and their selection.
-- A reducer takes the store's state together with the copy that `localStorage` holds.
use Prim.Native.Nat.{min, max}
mod Types
pub mod Ids
pub mod Valid
pub mod Sync
pub mod Run
pub mod Load
mod Tests
pub use Types.*
use net_test_toy.Base.{
  Bool, List, Option, String, [], any, filter, find, if◌then◌else◌, none, not, some, true,
  update_first, ℕ, ◌++◌, ◌<>◌, ◌==◌, ◌∷◌,
}
use net_test_toy.Base.Texts.{decimal, includes, without}

-- `Math.max(1, Math.min(60, n))`
pub clamp_interval : ℕ → ℕ
clamp_interval n = max 1 (min 60 n)

abbrev given {ℓ} : {A : Type ℓ} → Option A → A → A
given none a = a
given (some b) a = b

-- `Object.assign(client, updates)`
pub assign : ClientUpdates → UnifiedClient → UnifiedClient
assign u c = record {
  id = given u.id c.id;
  name = given u.name c.name;
  base_url = given u.base_url c.base_url;
  daemons = given u.daemons c.daemons;
  poll_interval = given u.poll_interval c.poll_interval;
  enabled = given u.enabled c.enabled;
  status = given u.status c.status;
  last_poll = given u.last_poll c.last_poll;
  error_text = given u.error_text c.error_text;
  is_local = given u.is_local c.is_local;
  daemon_name = given u.daemon_name c.daemon_name;
}

toggle_daemon_config : DaemonConfig → DaemonConfig
toggle_daemon_config d = record d { enabled = not d.enabled }

-- Selects the first client if none is selected.
pub ensure_selected : ConnectionState → ConnectionState
ensure_selected s = elim s.selected_client_ids [
  | [] ↦ elim s.clients [ [] ↦ s | c ∷ _ ↦ record s { selected_client_ids = c.id ∷ [] } ]
  | _ ∷ _ ↦ s
]

local_id : String → String
local_id name = "local-" <> name

pub daemon_client_id : LocalDaemon → String
unfolding local_id
daemon_client_id d = local_id d.name

pub daemon_base_url : LocalDaemon → String
daemon_base_url d = "http://" <> (d.ip_address <> (":" <> d.api_port))

config_of : DaemonType → Bool → DaemonConfig
config_of t on = record { daemon_type = t; name = none; enabled = on; port = none }

pub enabled_daemons : LocalDaemon → List DaemonConfig
unfolding config_of
enabled_daemons d =
    config_of gobgp (d.daemon_type == "gobgp")
    ∷ config_of frr (d.daemon_type == "frr")
    ∷ config_of exabgp (d.daemon_type == "exabgp")
    ∷ []

-- A known client keeps its status, its interval, and whether it is enabled.
pub refreshed : LocalDaemon → UnifiedClient → UnifiedClient
refreshed d c = record c {
  name = d.name <> " (Local)";
  base_url = daemon_base_url d;
  daemons = enabled_daemons d;
}

pub discovered : LocalDaemon → UnifiedClient
discovered d = record {
  id = daemon_client_id d;
  name = d.name <> " (Local)";
  base_url = daemon_base_url d;
  daemons = enabled_daemons d;
  poll_interval = 5;
  enabled = true;
  status = disconnected;
  last_poll = none;
  error_text = none;
  is_local = true;
  daemon_name = some d.name;
}

-- one round of `localDaemons.forEach`, on the clients
pub sync_daemon : LocalDaemon → List UnifiedClient → List UnifiedClient
sync_daemon d cs =
    if any (has_id (daemon_client_id d)) cs
    then update_first (has_id (daemon_client_id d)) (refreshed d) cs
    else cs ++ discovered d ∷ []

-- the loop, on the clients and on the Set of the local ids not met yet
pub sync_daemons :
    List LocalDaemon → List UnifiedClient → List String → List UnifiedClient × List String
sync_daemons [] cs gone = (cs, gone)
sync_daemons (d ∷ ds) cs gone =
    sync_daemons ds (sync_daemon d cs) (without (daemon_client_id d) gone)

-- The two filters that take a client away, and its id from the selection.
abbrev pub without_client : String → ConnectionState → ConnectionState
without_client id s = record s {
  clients = filter (λ c. not (has_id id c)) s.clients;
  selected_client_ids = without id s.selected_client_ids;
}

-- `existingLocalClientIds.forEach`
pub remove_gone : List String → ConnectionState → ConnectionState
remove_gone [] s = s
remove_gone (id ∷ ids) s = remove_gone ids (without_client id s)

pub local_ids : List UnifiedClient → List String
local_ids cs = client_ids (filter (λ c. c.is_local) cs)

pub synced : List LocalDaemon → ConnectionState → ConnectionState
synced ds s =
    let (cs, gone) = sync_daemons ds s.clients (local_ids s.clients) in
    ensure_selected (remove_gone gone (record s { clients = cs }))

abbrev pub new_client : ℕ → NewClient → UnifiedClient
new_client now p = record {
  id = "client-" <> decimal now;
  name = p.name;
  base_url = p.base_url;
  daemons = p.daemons;
  poll_interval = p.poll_interval;
  enabled = p.enabled;
  status = disconnected;
  last_poll = p.last_poll;
  error_text = p.error_text;
  is_local = p.is_local;
  daemon_name = p.daemon_name;
}

-- `room` says whether `setItem` has room for a state; where it has none, nothing is written.
module _ (room : ConnectionState → Bool) where
  pub save_to_storage : Store → Store
  save_to_storage w = if room w.state then record w { saved = some w.state } else w

  pub commit : ConnectionState → Store → Store
  unfolding save_to_storage
  commit s w = save_to_storage (record w { state = s })

  pub add_client : ℕ → NewClient → Store → Store
  add_client now p w =
      let s = w.state in commit (record s { clients = s.clients ++ new_client now p ∷ [] }) w

  -- `find`, and if a client is found, the change and the write
  pub change_client : String → (UnifiedClient → UnifiedClient) → Store → Store
  change_client id f w =
      let s = w.state in
      if any (has_id id) s.clients
      then commit (record s { clients = update_first (has_id id) f s.clients }) w
      else w

  pub update_client : String → ClientUpdates → Store → Store
  update_client id updates w = change_client id (assign updates) w

  pub remove_client : String → Store → Store
  remove_client id w = commit (ensure_selected (without_client id w.state)) w

  pub toggle_client_enabled : String → Store → Store
  toggle_client_enabled id w = change_client id (λ c. record c { enabled = not c.enabled }) w

  pub toggle_daemon : String → DaemonType → Store → Store
  unfolding toggle_daemon_config
  toggle_daemon id t w = elim (find (has_id id) w.state.clients) [
    | none ↦ w
    | some c ↦
        if any (λ d. is_daemon_type d.daemon_type t) c.daemons
        then change_client id
            (λ e. record e {
              daemons =
                  update_first (λ d. is_daemon_type d.daemon_type t) toggle_daemon_config e.daemons;
            })
            w
        else w
  ]

  -- The status is not written to the storage. `now` is the time as an ISO text.
  pub set_client_status : String → String → ClientStatus → Option String → Store → Store
  set_client_status now id st e w =
      let s = w.state in
      if any (has_id id) s.clients
      then record w {
        state = record s {
          clients =
              update_first (has_id id)
                (λ c. record c { status = st; error_text = e; last_poll = some now }) s.clients;
        };
      }
      else w

  pub set_selected_clients : List String → Store → Store
  set_selected_clients ids w = let s = w.state in commit (record s { selected_client_ids = ids }) w

  pub toggle_selected_client : String → Store → Store
  toggle_selected_client id w =
      let s = w.state in
      if includes id s.selected_client_ids
      then commit (record s { selected_client_ids = without id s.selected_client_ids }) w
      else commit (record s { selected_client_ids = s.selected_client_ids ++ id ∷ [] }) w

  pub set_global_poll_interval : ℕ → Store → Store
  set_global_poll_interval n w =
      let s = w.state in commit (record s { global_poll_interval = clamp_interval n }) w

  pub set_client_poll_interval : String → ℕ → Store → Store
  set_client_poll_interval id n w =
      change_client id (λ c. record c { poll_interval = clamp_interval n }) w

  pub sync_local_daemons : List LocalDaemon → Store → Store
  sync_local_daemons ds w = commit (synced ds w.state) w

  -- the slice's reducer
  pub reduce : Action → Store → Store
  reduce (add now p) w = add_client now p w
  reduce (update id u) w = update_client id u w
  reduce (drop_client id) w = remove_client id w
  reduce (toggle_enabled id) w = toggle_client_enabled id w
  reduce (toggle_daemon_of id t) w = toggle_daemon id t w
  reduce (set_status now id st e) w = set_client_status now id st e w
  reduce (select ids) w = set_selected_clients ids w
  reduce (toggle_selected id) w = toggle_selected_client id w
  reduce (set_global_interval n) w = set_global_poll_interval n w
  reduce (set_interval id n) w = set_client_poll_interval id n w
  reduce (sync_local ds) w = sync_local_daemons ds w
