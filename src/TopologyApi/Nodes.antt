-- ===== src/TopologyApi/Nodes.antt =====
-- services/topology/topologyService.ts: the nodes of a topology and the positions. `h` is the optional `hostUrl`.
use net_test_toy.Http.Types.{Json, text}
use net_test_toy.Http.Program.{Prog, fetch}
use net_test_toy.TopologyApi.Request.{
  MutationResult, mutate, mutate_with_data, option_map, request, sent_object,
}
use net_test_toy.Base.{Option, String, [], none, some, ◌<>◌, ◌∷◌}

pub get_node : String → String → Option String → Prog Json
get_node topology_name node_name h =
    fetch (request "GET" h ("/topologies/" <> (topology_name <> ("/nodes/" <> node_name))) [] none)

pub create_node : String → Json → Option String → Prog MutationResult
create_node topology_name node h =
    mutate_with_data
      (request "POST" h ("/topologies/" <> (topology_name <> "/nodes")) [] (some node))
      "Failed to create node"

pub update_node : String → String → Json → Option String → Prog MutationResult
update_node topology_name node_name updates h =
    mutate
      (request "PATCH" h ("/topologies/" <> (topology_name <> ("/nodes/" <> node_name))) []
        (some updates))
      "Failed to update node"

unfoldable pub delete_node : String → String → Option String → Prog MutationResult
delete_node topology_name node_name h =
    mutate
      (request "DELETE" h ("/topologies/" <> (topology_name <> ("/nodes/" <> node_name))) [] none)
      "Failed to delete node"

pub update_node_position : String → String → String → String → Option String → Prog MutationResult
update_node_position topology_name node_name x y h =
    mutate
      (request "PATCH" h
        ("/topologies/" <> (topology_name <> ("/nodes/" <> (node_name <> "/position"))))
        (("x", x) ∷ ("y", y) ∷ []) none)
      "Failed to update node position"

pub add_node_network :
    String → String → String → Option String → Option String → Option String → Prog MutationResult
add_node_network topology_name node_name network_name ipv4_address interface_name h =
    mutate
      (request "POST" h
        ("/topologies/" <> (topology_name <> ("/nodes/" <> (node_name <> "/networks")))) []
        (sent_object (
          ("network_name", some (text network_name))
          ∷ ("ipv4_address", option_map text ipv4_address)
          ∷ ("interface_name", option_map text interface_name)
          ∷ [])))
      "Failed to add node to network"

unfoldable pub remove_node_network : String → String → String → Option String → Prog MutationResult
remove_node_network topology_name node_name network_name h =
    mutate
      (request "DELETE" h
        ("/topologies/"
          <> (topology_name <> ("/nodes/" <> (node_name <> ("/networks/" <> network_name)))))
        [] none)
      "Failed to remove node from network"

pub update_daemon_position : String → String → String → String → Option String → Prog MutationResult
update_daemon_position topology_name daemon_name x y h =
    mutate
      (request "PATCH" h
        ("/topologies/" <> (topology_name <> ("/daemons/" <> (daemon_name <> "/position"))))
        (("x", x) ∷ ("y", y) ∷ []) none)
      "Failed to update daemon position"

pub update_host_position : String → String → String → String → Option String → Prog MutationResult
update_host_position topology_name host_name x y h =
    mutate
      (request "PATCH" h
        ("/topologies/" <> (topology_name <> ("/hosts/" <> (host_name <> "/position"))))
        (("x", x) ∷ ("y", y) ∷ []) none)
      "Failed to update host position"

pub update_network_position :
    String → String → String → String → Option String → Prog MutationResult
update_network_position topology_name network_name x y h =
    mutate
      (request "PATCH" h
        ("/topologies/" <> (topology_name <> ("/networks/" <> (network_name <> "/position"))))
        (("x", x) ∷ ("y", y) ∷ []) none)
      "Failed to update network position"

pub update_external_node_position :
    String → String → String → String → Option String → Prog MutationResult
update_external_node_position topology_name node_name x y h =
    mutate
      (request "PATCH" h
        ("/topologies/" <> (topology_name <> ("/external_nodes/" <> (node_name <> "/position"))))
        (("x", x) ∷ ("y", y) ∷ []) none)
      "Failed to update external node position"
