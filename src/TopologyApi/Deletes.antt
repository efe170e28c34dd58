-- ===== src/TopologyApi/Deletes.antt =====
-- services/topology/topologyService.ts: the methods that name what they delete by the path of a
-- DELETE request alone, against a reading of that path by segments.
use text.Mathlib.TextLemmas.{append-nil, nil-append}
use net_test_toy.TopologyApi.{
  MutationResult, delete_bgp_session, delete_daemon, delete_external_node, delete_gre_link,
  delete_gre_tunnel, delete_gre_tunnel_by_name, delete_host, delete_network, delete_node,
  delete_route_advertisement, delete_topology, delete_trigger, remove_node_network, request,
  sent-mutate,
}
use net_test_toy.Http.Types.{Json, Outcome, Request}
use net_test_toy.Http.Program.{Prog, sent}
use net_test_toy.TopologyApi.Segments.{
  glue, is_name, is_name-plain, join, plain-decimal, segments, segments-append, segments-plain,
}
use net_test_toy.Base.{
  List, Option, String, [], if◌then◌else◌, map, none, not, some, text_dec, true, ℕ, ◌&&◌, ◌<>◌,
  ◌==◌, ◌∷◌, ◌≡◌,
}
use net_test_toy.Base.Texts.{decimal}

-- What is to be deleted. `I` is the type of the numeric ids.
pub data Delete (I : Type 0) : Type 0 where
  topology : (name : String) → Delete I
  network external_node node : (topology_name name : String) → Delete I
  daemon host : (name : String) → Delete I
  gre_tunnel : (id : I) → Delete I
  tunnel : (container_name tunnel_name : String) → Delete I
  node_network : (topology_name node_name network_name : String) → Delete I
  bgp_session gre_link route_advertisement trigger : (topology_name : String) (id : I) → Delete I

abbrev pub perform : Delete ℕ → Option String → Prog MutationResult
perform (topology n) h = delete_topology n h
perform (network t n) h = delete_network t n h
perform (external_node t n) h = delete_external_node t n h
perform (node t n) h = delete_node t n h
perform (daemon n) h = delete_daemon n h
perform (host n) h = delete_host n h
perform (gre_tunnel id) h = delete_gre_tunnel id h
perform (tunnel c t) h = delete_gre_tunnel_by_name c t h
perform (node_network t n m) h = remove_node_network t n m h
perform (bgp_session t id) h = delete_bgp_session t id h
perform (gre_link t id) h = delete_gre_link t id h
perform (route_advertisement t id) h = delete_route_advertisement t id h
perform (trigger t id) h = delete_trigger t id h

-- The same with the ids as they are printed
abbrev pub printed : Delete ℕ → Delete String
printed (topology n) = topology n
printed (network t n) = network t n
printed (external_node t n) = external_node t n
printed (node t n) = node t n
printed (daemon n) = daemon n
printed (host n) = host n
printed (gre_tunnel id) = gre_tunnel (decimal id)
printed (tunnel c t) = tunnel c t
printed (node_network t n m) = node_network t n m
printed (bgp_session t id) = bgp_session t (decimal id)
printed (gre_link t id) = gre_link t (decimal id)
printed (route_advertisement t id) = route_advertisement t (decimal id)
printed (trigger t id) = trigger t (decimal id)

-- Each name stands for itself in a URL.
abbrev pub IsPlain : Delete ℕ → Type 0
IsPlain (topology n) = (is_name n ≡ true)
IsPlain (network t n) = (is_name t ≡ true) × (is_name n ≡ true)
IsPlain (external_node t n) = (is_name t ≡ true) × (is_name n ≡ true)
IsPlain (node t n) = (is_name t ≡ true) × (is_name n ≡ true)
IsPlain (daemon n) = (is_name n ≡ true)
IsPlain (host n) = (is_name n ≡ true)
IsPlain (gre_tunnel id) = Unit
IsPlain (tunnel c t) = (is_name c ≡ true) × (is_name t ≡ true)
IsPlain (node_network t n m) = (is_name t ≡ true) × (is_name n ≡ true) × (is_name m ≡ true)
IsPlain (bgp_session t id) = (is_name t ≡ true)
IsPlain (gre_link t id) = (is_name t ≡ true)
IsPlain (route_advertisement t id) = (is_name t ≡ true)
IsPlain (trigger t id) = (is_name t ≡ true)

-- A path `/root/name`
read_root : String → String → Option (Delete String)
read_root root n =
    if root == "topologies"
    then some (topology n)
    else if root == "daemons"
    then some (daemon n)
    else if root == "hosts"
    then some (host n)
    else if root == "gre-tunnels"
    then some (gre_tunnel n)
    else none

-- A path `/topologies/t/kind/n`
read_part : String → String → String → Option (Delete String)
read_part t kind n =
    if kind == "networks"
    then some (network t n)
    else if kind == "external_nodes"
    then some (external_node t n)
    else if kind == "nodes"
    then some (node t n)
    else if kind == "route-advertisements"
    then some (route_advertisement t n)
    else if kind == "triggers"
    then some (trigger t n)
    else none

read_path : List String → Option (Delete String)
unfolding read_root read_part
read_path (r ∷ root ∷ n ∷ []) = read_root root n
read_path (r ∷ root ∷ t ∷ kind ∷ n ∷ []) =
    if root == "topologies"
    then read_part t kind n
    else if (root == "containers") && (kind == "tunnels")
    then some (tunnel t n)
    else none
read_path (r ∷ root ∷ t ∷ group ∷ kind ∷ n ∷ []) =
    if not (root == "topologies")
    then none
    else if (group == "bgp") && (kind == "sessions")
    then some (bgp_session t n)
    else if (group == "gre") && (kind == "links")
    then some (gre_link t n)
    else none
read_path (r ∷ root ∷ t ∷ nodes ∷ n ∷ networks ∷ m ∷ []) =
    if (root == "topologies") && (nodes == "nodes") && (networks == "networks")
    then some (node_network t n m)
    else none
read_path _ = none

-- What a DELETE request asks for, by its path
pub read_delete : Request → Option (Delete String)
unfolding read_path
read_delete r = if r.method == "DELETE" then read_path (segments r.url) else none

ruleset paths = (sent-mutate, segments-append, nil-append, append-nil)

named : (n : String) → is_name n ≡ true → segments n ≡ n ∷ []
named n h = segments-plain n (is_name-plain n h)

-- Where each name has only characters that a URL keeps as they are (letters, digits, `-`, `.`, `_`
-- and `~`) and is neither `.` nor `..`, each of the methods sends one request to the page's own
-- host, whatever the reply, and the path of that request, split at the slashes, says what the method
-- deletes.
pub read_delete-perform :
    (reply : Request → Outcome Json) (d : Delete ℕ)
    → IsPlain d
    → map read_delete (sent reply (perform d none)) ≡ some (printed d) ∷ []
unfolding read_delete read_path read_root read_part segments join glue request text_dec
    delete_topology delete_network delete_external_node delete_node delete_daemon delete_host
    delete_gre_tunnel delete_gre_tunnel_by_name remove_node_network delete_bgp_session
    delete_gre_link delete_route_advertisement delete_trigger
read_delete-perform reply (topology n) p = simp (paths, named n p)
read_delete-perform reply (network t n) p = simp (paths, named t p.0, named n p.1)
read_delete-perform reply (external_node t n) p = simp (paths, named t p.0, named n p.1)
read_delete-perform reply (node t n) p = simp (paths, named t p.0, named n p.1)
read_delete-perform reply (daemon n) p = simp (paths, named n p)
read_delete-perform reply (host n) p = simp (paths, named n p)
read_delete-perform reply (gre_tunnel id) p =
    simp (paths, segments-plain (decimal id) (plain-decimal id))
read_delete-perform reply (tunnel c t) p = simp (paths, named c p.0, named t p.1)
read_delete-perform reply (node_network t n m) p =
    simp (paths, named t p.0, named n p.1, named m p.2)
read_delete-perform reply (bgp_session t id) p =
    simp (paths, named t p, segments-plain (decimal id) (plain-decimal id))
read_delete-perform reply (gre_link t id) p =
    simp (paths, named t p, segments-plain (decimal id) (plain-decimal id))
read_delete-perform reply (route_advertisement t id) p =
    simp (paths, named t p, segments-plain (decimal id) (plain-decimal id))
read_delete-perform reply (trigger t id) p =
    simp (paths, named t p, segments-plain (decimal id) (plain-decimal id))

-- A name with a slash in it is not encoded: the request that deletes a node `n/networks/m` of a
-- topology is the one that takes the node `n` off the network `m`.
pub delete_node_slash :
    (reply : Request → Outcome Json) (t n m : String) (h : Option String)
    → sent reply (delete_node t (n <> ("/networks/" <> m)) h)
      ≡ sent reply (remove_node_network t n m h)
unfolding delete_node remove_node_network
delete_node_slash reply t n m h = simp sent-mutate
