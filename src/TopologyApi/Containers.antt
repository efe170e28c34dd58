-- ===== src/TopologyApi/Containers.antt =====
-- services/topology/topologyService.ts: networks, daemons, hosts, tunnels and external nodes. `h` is the optional `hostUrl`.
use net_test_toy.Http.Types.{Json, text}
use net_test_toy.Http.Program.{Prog, fetch}
use net_test_toy.TopologyApi.Request.{
  MutationResult, append_key, count, mutate, mutate_with_data, option_map, request, sent_object,
}
use net_test_toy.Base.{Option, String, [], none, some, ℕ, ◌<>◌, ◌∷◌}
use net_test_toy.Base.Texts.{decimal}

pub get_networks : Option String → Prog Json
get_networks h = fetch (request "GET" h "/networks" [] none)

pub create_network : Json → Option String → Prog MutationResult
create_network network h =
    mutate_with_data (request "POST" h "/networks" [] (some network)) "Failed to create network"

unfoldable pub delete_network : String → String → Option String → Prog MutationResult
delete_network topology_name name h =
    mutate
      (request "DELETE" h ("/topologies/" <> (topology_name <> ("/networks/" <> name))) [] none)
      "Failed to delete network"

pub get_daemons : Option String → Prog Json
get_daemons h = fetch (request "GET" h "/daemons" [] none)

pub create_daemon : Json → Option String → Prog MutationResult
create_daemon daemon h =
    mutate_with_data (request "POST" h "/daemons" [] (some daemon)) "Failed to create daemon"

unfoldable pub delete_daemon : String → Option String → Prog MutationResult
delete_daemon name h =
    mutate (request "DELETE" h ("/daemons/" <> name) [] none) "Failed to delete daemon"

pub restart_daemon : String → Option String → Prog MutationResult
restart_daemon name h =
    mutate (request "POST" h ("/daemons/" <> (name <> "/restart")) [] none)
      "Failed to restart daemon"

pub get_hosts : Option String → Prog Json
get_hosts h = fetch (request "GET" h "/hosts" [] none)

pub create_host : Json → Option String → Prog MutationResult
create_host host h =
    mutate_with_data (request "POST" h "/hosts" [] (some host)) "Failed to create host"

unfoldable pub delete_host : String → Option String → Prog MutationResult
delete_host name h = mutate (request "DELETE" h ("/hosts/" <> name) [] none) "Failed to delete host"

pub get_gre_tunnels : Option String → Prog Json
get_gre_tunnels h = fetch (request "GET" h "/gre-tunnels" [] none)

pub create_gre_tunnel :
    String
    → String
    → String
    → String
    → String
    → String
    → ℕ
    → Option ℕ
    → Option String
    → Prog MutationResult
create_gre_tunnel container_name tunnel_name local_ip remote_ip tunnel_ip tunnel_network ttl gre_key
      h =
    mutate
      (request "POST" h ("/containers/" <> (container_name <> "/tunnels"))
        (("tunnel_name", tunnel_name)
          ∷ ("local_ip", local_ip)
          ∷ ("remote_ip", remote_ip)
          ∷ ("tunnel_ip", tunnel_ip)
          ∷ ("tunnel_network", tunnel_network)
          ∷ ("ttl", decimal ttl)
          ∷ append_key gre_key)
        none)
      "Failed to create GRE tunnel"

pub create_topology_gre_tunnels :
    String
    → String
    → String
    → String
    → String
    → String
    → String
    → String
    → String
    → String
    → ℕ
    → Option ℕ
    → Option String
    → Prog MutationResult
create_topology_gre_tunnels topology_name container_a container_b tunnel_name_a tunnel_name_b
      local_ip_a local_ip_b tunnel_ip_a tunnel_ip_b tunnel_network ttl gre_key h =
    mutate
      (request "POST" h ("/topologies/" <> (topology_name <> "/gre-tunnels")) [] (
        sent_object (
          ("container_a", some (text container_a))
          ∷ ("container_b", some (text container_b))
          ∷ ("tunnel_name_a", some (text tunnel_name_a))
          ∷ ("tunnel_name_b", some (text tunnel_name_b))
          ∷ ("local_ip_a", some (text local_ip_a))
          ∷ ("local_ip_b", some (text local_ip_b))
          ∷ ("tunnel_ip_a", some (text tunnel_ip_a))
          ∷ ("tunnel_ip_b", some (text tunnel_ip_b))
          ∷ ("tunnel_network", some (text tunnel_network))
          ∷ ("gre_key", option_map count gre_key)
          ∷ ("ttl", some (count ttl))
          ∷ [])))
      "Failed to create GRE tunnels"

unfoldable pub delete_gre_tunnel : ℕ → Option String → Prog MutationResult
delete_gre_tunnel id h =
    mutate (request "DELETE" h ("/gre-tunnels/" <> (decimal id)) [] none)
      "Failed to delete GRE tunnel"

unfoldable pub delete_gre_tunnel_by_name : String → String → Option String → Prog MutationResult
delete_gre_tunnel_by_name container_name tunnel_name h =
    mutate
      (request "DELETE" h ("/containers/" <> (container_name <> ("/tunnels/" <> tunnel_name))) []
        none)
      "Failed to delete GRE tunnel"

pub test_gre_tunnel : ℕ → Option String → Prog MutationResult
test_gre_tunnel id h =
    mutate_with_data (request "POST" h ("/gre-tunnels/" <> (decimal id <> "/test")) [] none)
      "Failed to test GRE tunnel"

pub create_external_node : String → String → Option String → Prog MutationResult
create_external_node topology_name name h =
    mutate
      (request "POST" h ("/topologies/" <> (topology_name <> "/external_nodes")) []
        (sent_object (("name", some (text name)) ∷ [])))
      "Failed to create external node"

pub create_external_network :
    String → String → String → String → Option String → Prog MutationResult
create_external_network topology_name name subnet gateway h =
    mutate
      (request "POST" h ("/topologies/" <> (topology_name <> "/external_networks")) [] (
        sent_object (
          ("name", some (text name))
          ∷ ("subnet", some (text subnet))
          ∷ ("gateway", some (text gateway))
          ∷ [])))
      "Failed to create external network"

unfoldable pub delete_external_node : String → String → Option String → Prog MutationResult
delete_external_node topology_name node_name h =
    mutate
      (request "DELETE" h ("/topologies/" <> (topology_name <> ("/external_nodes/" <> node_name)))
        [] none)
      "Failed to delete external node"

pub connect_daemon_to_network :
    String → String → String → String → String → Option String → Prog MutationResult
connect_daemon_to_network topology_name daemon_name network_name ipv4 gateway h =
    mutate
      (request "POST" h
        ("/topologies/" <> (topology_name <> ("/daemons/" <> (daemon_name <> "/networks"))))
        (("network_name", network_name) ∷ ("ipv4", ipv4) ∷ ("gateway", gateway) ∷ []) none)
      "Failed to connect daemon to network"

pub connect_host_to_network :
    String → String → String → String → String → Option String → Prog MutationResult
connect_host_to_network topology_name host_name network_name ipv4 gateway h =
    mutate
      (request "POST" h
        ("/topologies/" <> (topology_name <> ("/hosts/" <> (host_name <> "/networks"))))
        (("network_name", network_name) ∷ ("ipv4", ipv4) ∷ ("gateway", gateway) ∷ []) none)
      "Failed to connect host to network"

pub deploy_daemon : String → Option String → Prog MutationResult
deploy_daemon daemon_name h =
    mutate (request "POST" h ("/lab/restore/daemon/" <> daemon_name) [] none)
      "Failed to deploy daemon"

pub deploy_network : String → Option String → Prog MutationResult
deploy_network network_name h =
    mutate (request "POST" h ("/lab/restore/network/" <> network_name) [] none)
      "Failed to deploy network"

pub deploy_host : String → Option String → Prog MutationResult
deploy_host host_name h =
    mutate (request "POST" h ("/lab/restore/host/" <> host_name) [] none) "Failed to deploy host"
