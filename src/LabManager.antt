-- ===== src/LabManager.antt =====
-- store/labManagerSlice.ts: the reducer. A storage without room makes `setItem`, the last call of a
-- reducer, throw: then the action changes nothing.
mod Types
pub mod Hosts
mod Tests
pub use Types.*
use net_test_toy.Base.{
  Bool, List, Option, String, [], any, false, filter, find, if◌then◌else◌, map, none, not, some,
  true, update_first, ◌++◌, ◌<>◌, ◌==◌, ◌∷◌,
}
use net_test_toy.Base.Texts.{decimal}
use net_test_toy.Base.Dict.{erase, insert, lookup}
use net_test_toy.Storage.{Storage, or_else, truthy}

-- `STORAGE_KEY`
abbrev pub storage_key : String
storage_key = "managedHosts"

abbrev pub has_id : String → ManagedHost → Bool
has_id id h = h.id == id

pub load_managed_hosts : HostFile → Storage → List ManagedHost
load_managed_hosts f s = elim (truthy (lookup storage_key s)) [
  | none ↦ []
  | some saved ↦ elim (f.parse saved) [ none ↦ [] | some hs ↦ hs ]
]

-- the message for each thunk
failure_of : Mutation → String
failure_of create_daemon = "Failed to create daemon"
failure_of update_daemon = "Failed to update daemon"
failure_of delete_daemon = "Failed to delete daemon"
failure_of create_lab_host = "Failed to create host"
failure_of delete_lab_host = "Failed to delete host"
failure_of associate_network = "Failed to associate network"
failure_of restore_lab = "Failed to restore lab"

status_of : Bool → HostStatus
status_of true = connected
status_of false = failed

-- a disabled host is disconnected
toggled : ManagedHost → ManagedHost
toggled h =
    if h.enabled
    then record h { enabled = false; status = disconnected }
    else record h { enabled = true }

module _ {P : Type 0} where
  pub result_of : ManagedHost → LabAnswer P → HostResult P
  result_of h (answered ds cs) = record {
    host_id = h.id;
    daemons = ds;
    hosts = cs;
    is_connected = true;
    error = none;
  }
  result_of h (thrown m) = record {
    host_id = h.id;
    daemons = [];
    hosts = [];
    is_connected = false;
    error = some m;
  }

  -- `fetchSingleHostData`, on the hosts of the state and the answer of the service
  pub settle_single : String → List ManagedHost → LabAnswer P → Stage (HostResult P)
  unfolding result_of
  settle_single id hs a = elim (find (has_id id) hs) [
    | none ↦ rejected (some "Host not found or not enabled")
    | some h ↦
        if h.enabled
        then fulfilled (result_of h a)
        else rejected (some "Host not found or not enabled")
  ]

  -- `fetchLabData` with `getLabDataFromHosts`: the enabled hosts, by the answer for each address
  pub lab_data : (String → LabAnswer P) → List ManagedHost → List (HostResult P)
  unfolding result_of
  lab_data answer hs = map (λ h. result_of h (answer h.url)) (filter (λ h. h.enabled) hs)

  -- what the answer of one host changes
  pub apply_result : HostResult P → LabManagerState P → LabManagerState P
  unfolding status_of
  apply_result r s = record s {
    daemons = insert r.host_id r.daemons s.daemons;
    hosts = insert r.host_id r.hosts s.hosts;
    managed_hosts =
        update_first (has_id r.host_id)
          (λ h. record h { status = status_of r.is_connected; error = r.error }) s.managed_hosts;
  }

  pub apply_results : List (HostResult P) → LabManagerState P → LabManagerState P
  apply_results [] s = s
  apply_results (r ∷ rs) s = apply_results rs (apply_result r s)

  drop_data : String → LabManagerState P → LabManagerState P
  drop_data id s = record s { daemons = erase id s.daemons; hosts = erase id s.hosts }

  -- the flag of a thunk that changes a lab
  set_mutating : Mutation → Bool → LabManagerState P → LabManagerState P
  set_mutating create_daemon b s = record s { is_creating = b }
  set_mutating create_lab_host b s = record s { is_creating = b }
  set_mutating update_daemon b s = record s { is_updating = b }
  set_mutating associate_network b s = record s { is_updating = b }
  set_mutating restore_lab b s = record s { is_updating = b }
  set_mutating delete_daemon b s = record s { is_deleting = b }
  set_mutating delete_lab_host b s = record s { is_deleting = b }

  mutated : Mutation → Stage Unit → LabManagerState P → LabManagerState P
  unfolding set_mutating failure_of
  mutated m pending s = record (set_mutating m true s) { mutation_error = none }
  mutated m (fulfilled u) s = set_mutating m false s
  mutated m (rejected e) s = record (set_mutating m false s) {
    mutation_error = some (or_else e (failure_of m));
  }

  begun : LabManagerState P → LabManagerState P
  begun s = record s { is_loading = true; error = none }

  failed_with : String → Option String → LabManagerState P → LabManagerState P
  failed_with text e s = record s { is_loading = false; error = some (or_else e text) }

module _ {P : Type 0} (f : HostFile) where
  pub initial_state : Storage → LabManagerState P
  unfolding load_managed_hosts
  initial_state s = record {
    managed_hosts = load_managed_hosts f s;
    daemons = [];
    hosts = [];
    selected_host_id = none;
    is_loading = false;
    error = none;
    is_creating = false;
    is_updating = false;
    is_deleting = false;
    mutation_error = none;
  }

  -- the new state of a reducer that saves the hosts at its end
  commit : LabManagerState P → Lab P → Lab P
  commit s w =
      let text = f.stringify s.managed_hosts in
      if f.room w.storage storage_key text
      then record { state = s; storage = insert storage_key text w.storage }
      else w

  pub reduce : Action P → Lab P → Lab P
  unfolding toggled mutated begun failed_with drop_data
  reduce (add_managed_host now n) w =
      let h : ManagedHost = record {
        id = "host-" <> decimal now;
        name = n.name;
        url = n.url;
        enabled = n.enabled;
        status = disconnected;
        error = n.error;
      } in
      let s = w.state in commit (record s { managed_hosts = s.managed_hosts ++ h ∷ [] }) w
  reduce (update_managed_host h) w =
      let s = w.state in
      if any (has_id h.id) s.managed_hosts
      then commit (record s { managed_hosts = update_first (has_id h.id) (λ _. h) s.managed_hosts })
          w
      else w
  reduce (remove_managed_host id) w =
      let s = w.state in
      let kept = filter (λ h. not (h.id == id)) s.managed_hosts in
      commit (drop_data id (record s { managed_hosts = kept })) w
  reduce (toggle_managed_host id) w =
      let s = w.state in
      elim (find (has_id id) s.managed_hosts) [
        | none ↦ w
        | some h ↦
            let t = record s { managed_hosts = update_first (has_id id) toggled s.managed_hosts } in
            commit (if h.enabled then drop_data id t else t) w
      ]
  reduce (set_selected_host_id id) w =
      let s = w.state in record w { state = record s { selected_host_id = some id } }
  reduce clear_lab_data w =
      let s = w.state in record w { state = record s { daemons = []; hosts = []; error = none } }
  reduce (fetch_lab_data pending) w = record w { state = begun w.state }
  reduce (fetch_lab_data (fulfilled rs)) w =
      let s = w.state in commit (apply_results rs (record s { is_loading = false })) w
  reduce (fetch_lab_data (rejected e)) w = record w {
    state = failed_with "Failed to fetch lab data" e w.state;
  }
  reduce (fetch_single_host_data pending) w = record w { state = begun w.state }
  reduce (fetch_single_host_data (fulfilled r)) w =
      let s = w.state in commit (apply_result r (record s { is_loading = false })) w
  reduce (fetch_single_host_data (rejected e)) w = record w {
    state = failed_with "Failed to fetch host data" e w.state;
  }
  reduce (mutate m t) w = record w { state = mutated m t w.state }
