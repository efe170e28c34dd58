-- ===== src/TopologyManager.antt =====
-- store/topologyManagerSlice.ts: the saved topologies of one host.
use mathlib.Core.Option
use net_test_toy.TopologyApi
mod Types
pub mod Commands
mod Tests
pub use Types.*
use net_test_toy.Http.Types.{
  Fault, Json, Outcome, array, empty, error, field, nil, null, object, other, returned, text,
  thrown,
}
use net_test_toy.Http.Program.{Prog, Server, bind, done, fetch, run, stop}
use net_test_toy.TopologyApi.Lists.{get_topologies, get_topology_details}
use net_test_toy.TopologyApi.Lab.{get_active_topology}
use net_test_toy.TopologyApi.{MutationResult}
use net_test_toy.Base.{Bool, Option, String, false, if◌then◌else◌, none, some, true, ◌<>◌, ◌==◌}
use net_test_toy.Storage.{or_else, truthy}

pub initial_state : ManagerState
initial_state = record {
  topologies = array nil;
  active_topology = null;
  selected_topology = none;
  topology_details = null;
  is_loading = false;
  is_loading_details = false;
  is_activating = false;
  error_text = none;
  details_error = none;
  success_message = none;
  current_host_url = "";
}

-- `result.error || 'Failed to activate topology'` where the activation failed
build_activation_message : String → MutationResult → String
build_activation_message name result =
    if result.success
    then "Topology \"" <> (name <> "\" activated successfully")
    else or_else result.error_text "Failed to activate topology"

-- The two lists, fetched again after each change
refetch : String → Prog Fetched
refetch h = bind (get_topologies (some h)) (λ topologies.
    bind (get_active_topology (some h))
      (λ active. done (record { topologies = topologies; active_topology = active })))

pub fetch_topologies : String → Prog Fetched
unfolding refetch
fetch_topologies h = refetch h

pub fetch_topology_details : String → String → Prog Details
fetch_topology_details h name =
    bind (get_topology_details name (some h))
      (λ details. done (record { name = name; details = details }))

-- `throw new Error(result.error || fallback)` where the change failed
abbrev pub changed : {A : Type 0} → String → MutationResult → Prog A → Prog A
changed fallback result next =
    if result.success then next else stop (error "Error" (or_else result.error_text fallback))

pub create_topology : String → String → String → Prog Created
unfolding refetch
create_topology h name description =
    let content : Json =
      object (field "name" (text name) (field "description" (text description) empty)) in
    bind (TopologyApi.create_topology content (some h)) (λ result.
      changed "Failed to create topology" result
        (bind (refetch h) (λ lists. done (record { lists = lists; created_name = name }))))

pub activate_topology : String → String → Prog Activated
unfolding refetch
activate_topology h name = bind (TopologyApi.activate_topology name (some h)) (λ result.
    changed "Failed to activate topology" result (
      bind (refetch h) (λ lists. bind (get_topology_details name (some h)) (λ details.
        done (record {
          lists = lists;
          activated_name = name;
          activation_result = result;
          details = details;
        })))))

pub delete_topology : String → String → Prog Deleted
unfolding refetch
delete_topology h name = bind (TopologyApi.delete_topology name (some h)) (λ result.
    changed "Failed to delete topology" result
      (bind (refetch h) (λ lists. done (record { lists = lists; deleted_name = name }))))

abbrev same_name : Option String → String → Bool
same_name none s = false
same_name (some t) s = t == s

set_current_host_url : String → ManagerState → ManagerState
set_current_host_url url s = record s {
  current_host_url = url;
  topologies = array nil;
  active_topology = null;
  selected_topology = none;
  topology_details = null;
}

select_topology : Option String → ManagerState → ManagerState
select_topology name s = elim (truthy name) [
  | some n ↦ record s { selected_topology = name }
  | none ↦ record s { selected_topology = name; topology_details = null; details_error = none }
]

topologies_stage : Stage Fetched → ManagerState → ManagerState
topologies_stage pending s = record s { is_loading = true; error_text = none }
topologies_stage (fulfilled p) s = record s {
  is_loading = false;
  topologies = p.topologies;
  active_topology = p.active_topology;
}
topologies_stage (rejected m) s = record s {
  is_loading = false;
  error_text = some (or_else m "Failed to fetch topologies");
}

details_stage : Stage Details → ManagerState → ManagerState
details_stage pending s = record s { is_loading_details = true; details_error = none }
details_stage (fulfilled p) s = record s {
  is_loading_details = false;
  selected_topology = some p.name;
  topology_details = p.details;
}
details_stage (rejected m) s = record s {
  is_loading_details = false;
  details_error = some (or_else m "Failed to fetch topology details");
  topology_details = null;
}

created_stage : Stage Created → ManagerState → ManagerState
created_stage pending s = record s { is_loading = true; error_text = none }
created_stage (fulfilled p) s = record s {
  is_loading = false;
  topologies = p.lists.topologies;
  active_topology = p.lists.active_topology;
  success_message = some ("Topology \"" <> (p.created_name <> "\" created successfully"));
}
created_stage (rejected m) s = record s {
  is_loading = false;
  error_text = some (or_else m "Failed to create topology");
}

activated_stage : Stage Activated → ManagerState → ManagerState
unfolding build_activation_message
activated_stage pending s = record s { is_activating = true; error_text = none }
activated_stage (fulfilled p) s = record s {
  is_activating = false;
  topologies = p.lists.topologies;
  active_topology = p.lists.active_topology;
  topology_details = p.details;
  selected_topology = some p.activated_name;
  success_message = some (build_activation_message p.activated_name p.activation_result);
}
activated_stage (rejected m) s = record s {
  is_activating = false;
  error_text = some (or_else m "Failed to activate topology");
}

-- The lists without a deleted topology
lists_without : Deleted → ManagerState → ManagerState
lists_without p s = record s {
  is_loading = false;
  topologies = p.lists.topologies;
  active_topology = p.lists.active_topology;
  success_message = some ("Topology \"" <> (p.deleted_name <> "\" deleted"));
}

deleted_stage : Stage Deleted → ManagerState → ManagerState
unfolding lists_without
deleted_stage pending s = record s { is_loading = true; error_text = none }
deleted_stage (fulfilled p) s =
    let t = lists_without p s in
    if same_name s.selected_topology p.deleted_name
    then record t { selected_topology = none; topology_details = null }
    else t
deleted_stage (rejected m) s = record s {
  is_loading = false;
  error_text = some (or_else m "Failed to delete topology");
}

pub reduce : Action → ManagerState → ManagerState
unfolding set_current_host_url select_topology topologies_stage details_stage created_stage
    activated_stage deleted_stage initial_state
reduce (host_url_set url) s = set_current_host_url url s
reduce (topology_selected name) s = select_topology name s
reduce clear_error s = record s { error_text = none; details_error = none }
reduce clear_success_message s = record s { success_message = none }
reduce reset_topology_state s = initial_state
reduce (topologies_action t) s = topologies_stage t s
reduce (details_action t) s = details_stage t s
reduce (create_action t) s = created_stage t s
reduce (activate_action t) s = activated_stage t s
reduce (delete_action t) s = deleted_stage t s

-- The calls of the thunks
pub data Command : Type 0 where
  fetch_all : (host_url : String) → Command
  fetch_details activate delete : (host_url name : String) → Command
  create : (host_url name description : String) → Command

-- `error.message` of what a thunk throws
abbrev pub message_of : Fault → Option String
message_of (error name message) = some message
message_of (other shown) = some shown

abbrev pub stage_of : {A : Type 0} → Outcome A → Stage A
stage_of (returned a) = fulfilled a
stage_of (thrown f) = rejected (message_of f)

-- A thunk: pending, the requests, then fulfilled or rejected
abbrev pub dispatch :
    {A W : Type 0} → Server W → (Stage A → Action) → Prog A → ManagerState → W → ManagerState × W
dispatch serve action p s w =
    let (o, w') = run serve p w in (reduce (action (stage_of o)) (reduce (action pending) s), w')

pub execute : {W : Type 0} → Server W → Command → ManagerState → W → ManagerState × W
execute serve (fetch_all h) s w = dispatch serve topologies_action (fetch_topologies h) s w
execute serve (fetch_details h n) s w =
    dispatch serve details_action (fetch_topology_details h n) s w
execute serve (create h n d) s w = dispatch serve create_action (create_topology h n d) s w
execute serve (activate h n) s w = dispatch serve activate_action (activate_topology h n) s w
execute serve (delete h n) s w = dispatch serve delete_action (delete_topology h n) s w
