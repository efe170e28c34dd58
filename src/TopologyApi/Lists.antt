-- ===== src/TopologyApi/Lists.antt =====
-- services/topology/topologyService.ts: saved topologies and templates. `h` is the optional `hostUrl`.
use net_test_toy.Http.Types.{Json, text}
use net_test_toy.Http.Program.{Prog, bind, fetch}
use net_test_toy.TopologyApi.Request.{
  MutationResult, list_of, mutate, mutate_with_data, request, sent_object,
}
use net_test_toy.Base.{Option, String, [], none, some, ◌<>◌, ◌∷◌}

unfoldable pub get_topologies : Option String → Prog Json
get_topologies h = bind (fetch (request "GET" h "/topologies" [] none)) (list_of "topologies")

unfoldable pub get_topology : String → Option String → Prog Json
get_topology name h = fetch (request "GET" h ("/topologies/" <> name) [] none)

pub get_topology_details : String → Option String → Prog Json
get_topology_details name h =
    fetch (request "GET" h ("/topologies/" <> (name <> "/details")) [] none)

pub create_topology : Json → Option String → Prog MutationResult
create_topology new_topology h =
    mutate_with_data (request "POST" h "/topologies" [] (some new_topology))
      "Failed to create topology"

pub update_topology : String → Json → Option String → Prog MutationResult
update_topology name updates h =
    mutate_with_data (request "PUT" h ("/topologies/" <> name) [] (some updates))
      "Failed to update topology"

unfoldable pub delete_topology : String → Option String → Prog MutationResult
delete_topology name h =
    mutate (request "DELETE" h ("/topologies/" <> name) [] none) "Failed to delete topology"

pub activate_topology : String → Option String → Prog MutationResult
activate_topology name h =
    mutate (request "POST" h ("/topologies/" <> (name <> "/activate")) [] none)
      "Failed to activate topology"

pub deactivate_topology : String → Option String → Prog MutationResult
deactivate_topology name h =
    mutate (request "POST" h ("/topologies/" <> (name <> "/deactivate")) [] none)
      "Failed to deactivate topology"

pub stop_topology : String → Option String → Prog MutationResult
stop_topology name h =
    mutate (request "POST" h ("/topologies/" <> (name <> "/stop")) [] none)
      "Failed to stop topology"

pub standup_topology : String → Option String → Prog MutationResult
standup_topology name h =
    mutate (request "POST" h ("/topologies/" <> (name <> "/standup")) [] none)
      "Failed to standup topology"

pub teardown_topology : String → Option String → Prog MutationResult
teardown_topology name h =
    mutate (request "POST" h ("/topologies/" <> (name <> "/teardown")) [] none)
      "Failed to teardown topology"

pub get_templates : Option String → Prog Json
get_templates h = fetch (request "GET" h "/topology-templates" [] none)

pub create_template : Json → Option String → Prog MutationResult
create_template template h =
    mutate_with_data (request "POST" h "/topology-templates" [] (some template))
      "Failed to create template"

pub apply_template : String → String → Option String → Prog MutationResult
apply_template template_id topology_name h =
    mutate_with_data
      (request "POST" h ("/topology-templates/" <> (template_id <> "/apply")) []
        (sent_object (("topology_name", some (text topology_name)) ∷ [])))
      "Failed to apply template"

pub get_topology_stats : String → Option String → Prog Json
get_topology_stats name h = fetch (request "GET" h ("/topologies/" <> (name <> "/stats")) [] none)
