-- ===== src/TopologyManager/Tests.antt =====
-- Runs of the thunks against a small server.
use net_test_toy.TopologyApi
use net_test_toy.TopologyManager.{
  ManagerState, delete, delete_topology, execute, initial_state, reduce, same_name,
}
use net_test_toy.Http.{Server, array, empty, error, field, nil, null, object, returned, thrown}
use net_test_toy.TopologyManager.Commands.{IsIdle, delete_selection, execute-IsIdle}
use net_test_toy.TopologyApi.{get_active_topology, get_topologies, mutate, request}
use net_test_toy.Base.{false, if◌then◌else◌, refl, some, suc, text_dec, ℕ, ◌==◌, ◌≡◌}

-- A server that holds the names of topologies, deletes what it is asked to and counts the requests.
abbrev server : Server ℕ
server r n = elim (text_dec r.method "DELETE") [
  | yes p ↦ (
    if r.url == "http://h/topologies/locked"
        then thrown (error "Error" "409 Conflict")
        else returned null,
    suc n,
  )
  | no p ↦ (returned (object (field "topologies" (array nil) empty)), suc n)
]

abbrev shown : ManagerState
shown = record initial_state { selected_topology = some "lab"; current_host_url = "http://h" }

execute-IsIdle_example : IsIdle (execute server (delete "http://h" "lab") shown 0).0
unfolding initial_state
execute-IsIdle_example = execute-IsIdle server (delete "http://h" "lab") shown 0 (refl, refl, refl)

delete_selection_example :
    same_name (execute server (delete "http://h" "lab") shown 0).0.selected_topology "lab" ≡ false
unfolding execute reduce delete_topology TopologyApi.delete_topology get_topologies
    get_active_topology mutate request text_dec
delete_selection_example = delete_selection server "http://h" "lab" shown 0 refl
