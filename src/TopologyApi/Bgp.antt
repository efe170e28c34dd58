-- ===== src/TopologyApi/Bgp.antt =====
-- services/topology/topologyService.ts: BGP sessions, GRE links, BGP peers, route advertisements and triggers. `h` is the optional `hostUrl`.
use net_test_toy.Http.Types.{Json, number, text}
use net_test_toy.Http.Program.{Prog, bind, fetch}
use net_test_toy.TopologyApi.Request.{
  MutationResult, count, list_of, mutate, mutate_with_data, request, sent_object,
}
use net_test_toy.Base.{Option, String, [], none, some, ℕ, ◌<>◌, ◌∷◌}
use net_test_toy.Base.Texts.{decimal}

pub get_bgp_sessions : String → Option String → Prog Json
get_bgp_sessions topology_name h =
    bind (fetch (request "GET" h ("/topologies/" <> (topology_name <> "/bgp/sessions")) [] none))
      (list_of "sessions")

pub create_bgp_session : String → Json → Option String → Prog MutationResult
create_bgp_session topology_name session h =
    mutate_with_data
      (request "POST" h ("/topologies/" <> (topology_name <> "/bgp/sessions")) [] (some session))
      "Failed to create BGP session"

unfoldable pub delete_bgp_session : String → ℕ → Option String → Prog MutationResult
delete_bgp_session topology_name session_id h =
    mutate
      (request "DELETE" h
        ("/topologies/" <> (topology_name <> ("/bgp/sessions/" <> (decimal session_id)))) [] none)
      "Failed to delete BGP session"

pub delete_bgp_session_by_ips : String → String → String → Option String → Prog MutationResult
delete_bgp_session_by_ips topology_name daemon1_ip daemon2_ip h =
    mutate
      (request "DELETE" h ("/topologies/" <> (topology_name <> "/bgp/sessions/by-ips")) [] (
        sent_object
          (("daemon1_ip", some (text daemon1_ip)) ∷ ("daemon2_ip", some (text daemon2_ip)) ∷ [])))
      "Failed to delete BGP session"

pub update_bgp_session_arc : String → ℕ → String → Option String → Prog MutationResult
update_bgp_session_arc topology_name session_id arc h =
    mutate
      (request "PATCH" h
        ("/topologies/" <> (topology_name <> ("/bgp/sessions/" <> (decimal session_id <> "/arc"))))
        [] (sent_object (("arc", some (number arc)) ∷ [])))
      "Failed to update BGP session arc"

pub update_gre_link_arc : String → ℕ → String → Option String → Prog MutationResult
update_gre_link_arc topology_name link_id arc h =
    mutate
      (request "PATCH" h
        ("/topologies/" <> (topology_name <> ("/gre/links/" <> (decimal link_id <> "/arc")))) []
        (sent_object (("arc", some (number arc)) ∷ [])))
      "Failed to update GRE link arc"

pub get_gre_links : String → Option String → Prog Json
get_gre_links topology_name h =
    bind (fetch (request "GET" h ("/topologies/" <> (topology_name <> "/gre/links")) [] none))
      (list_of "links")

pub create_gre_link : String → Json → Option String → Prog MutationResult
create_gre_link topology_name link h =
    mutate_with_data
      (request "POST" h ("/topologies/" <> (topology_name <> "/gre/links")) [] (some link))
      "Failed to create GRE link"

unfoldable pub delete_gre_link : String → ℕ → Option String → Prog MutationResult
delete_gre_link topology_name link_id h =
    mutate
      (request "DELETE" h
        ("/topologies/" <> (topology_name <> ("/gre/links/" <> (decimal link_id)))) [] none)
      "Failed to delete GRE link"

pub delete_gre_link_by_containers : String → String → String → Option String → Prog MutationResult
delete_gre_link_by_containers topology_name container1 container2 h =
    mutate
      (request "DELETE" h ("/topologies/" <> (topology_name <> "/gre/links/by-containers")) [] (
        sent_object
          (("container1", some (text container1)) ∷ ("container2", some (text container2)) ∷ [])))
      "Failed to delete GRE link"

pub delete_bgp_peer : String → String → String → Option String → Prog MutationResult
delete_bgp_peer topology_name local_daemon peer_daemon h =
    mutate
      (request "DELETE" h ("/topologies/" <> (topology_name <> "/bgp/peers")) [] (
        sent_object (
          ("local_daemon", some (text local_daemon))
          ∷ ("peer_daemon", some (text peer_daemon))
          ∷ [])))
      "Failed to delete BGP peer"

pub create_bgp_peer :
    String → ℕ → String → String → ℕ → String → Option String → Prog MutationResult
create_bgp_peer local_daemon local_asn local_ip peer_ip peer_asn peer_router_id h =
    mutate
      (request "POST" h "/bgp/peers" [] (
        sent_object (
          ("local_daemon", some (text local_daemon))
          ∷ ("local_asn", some (count local_asn))
          ∷ ("local_ip", some (text local_ip))
          ∷ ("peer_ip", some (text peer_ip))
          ∷ ("peer_asn", some (count peer_asn))
          ∷ ("peer_router_id", some (text peer_router_id))
          ∷ [])))
      "Failed to create BGP peer"

pub deploy_bgp_peer :
    String → ℕ → String → String → ℕ → String → Option String → Prog MutationResult
deploy_bgp_peer local_daemon local_asn local_ip peer_ip peer_asn peer_router_id h =
    mutate
      (request "POST" h "/bgp/peers/deploy" [] (
        sent_object (
          ("local_daemon", some (text local_daemon))
          ∷ ("local_asn", some (count local_asn))
          ∷ ("local_ip", some (text local_ip))
          ∷ ("peer_ip", some (text peer_ip))
          ∷ ("peer_asn", some (count peer_asn))
          ∷ ("peer_router_id", some (text peer_router_id))
          ∷ [])))
      "Failed to deploy BGP peer"

pub save_route_advertisement : String → Json → Option String → Prog MutationResult
save_route_advertisement topology_name advertisement h =
    mutate_with_data
      (request "POST" h ("/topologies/" <> (topology_name <> "/route-advertisements")) []
        (some advertisement))
      "Failed to save route advertisement"

pub get_route_advertisements : String → Option String → Prog Json
get_route_advertisements topology_name h =
    bind
      (fetch
        (request "GET" h ("/topologies/" <> (topology_name <> "/route-advertisements")) [] none))
      (list_of "route_advertisements")

unfoldable pub delete_route_advertisement : String → ℕ → Option String → Prog MutationResult
delete_route_advertisement topology_name ad_id h =
    mutate
      (request "DELETE" h
        ("/topologies/" <> (topology_name <> ("/route-advertisements/" <> (decimal ad_id)))) []
        none)
      "Failed to delete route advertisement"

pub save_trigger : String → Json → Option String → Prog MutationResult
save_trigger topology_name trigger h =
    mutate_with_data
      (request "POST" h ("/topologies/" <> (topology_name <> "/triggers")) [] (some trigger))
      "Failed to save trigger"

pub get_triggers : String → Option String → Prog Json
get_triggers topology_name h =
    bind (fetch (request "GET" h ("/topologies/" <> (topology_name <> "/triggers")) [] none))
      (list_of "triggers")

unfoldable pub delete_trigger : String → ℕ → Option String → Prog MutationResult
delete_trigger topology_name trigger_id h =
    mutate
      (request "DELETE" h
        ("/topologies/" <> (topology_name <> ("/triggers/" <> (decimal trigger_id)))) [] none)
      "Failed to delete trigger"
