-- ===== src/TopologyApi/Lab.antt =====
-- services/topology/topologyService.ts: the answers that the service works on, and the calls of
-- several hosts. `h` is the optional `hostUrl`.
pub mod Rooted
use net_test_toy.Http.Types.{
  Fault, Items, Json, Outcome, and_then, array, error, falsy, item, json_or, nil, null, read,
  returned, show_option, text, thrown,
}
use net_test_toy.Http.Program.{Prog, bind, catch, done, fetch, lift}
use net_test_toy.TopologyApi.Request.{list_of, request}
use net_test_toy.TopologyApi.Lists.{get_topologies}
use net_test_toy.Base.{
  List, Option, String, [], if◌then◌else◌, none, not, some, ◌++◌, ◌<>◌, ◌↔◌, ◌∷◌,
}
use net_test_toy.Base.Dict.{Dict, insert, lookup}
use net_test_toy.Storage.{Storage, truthy}

-- `try { … return response.active || null } catch (error) { return null }`
unfoldable pub get_active_topology : Option String → Prog Json
get_active_topology h =
    catch
      (bind (fetch (request "GET" h "/topologies/active" [] none))
        (λ v. bind (lift (read "active" v)) (λ o. done (json_or null o))))
      (λ f. done null)

-- The type of node is a part of the URL as it is.
nodes_path : String → Option String → String
nodes_path topology_name node_type = elim (truthy node_type) [
  | none ↦ "/topologies/" <> (topology_name <> "/nodes")
  | some t ↦ "/topologies/" <> (topology_name <> ("/nodes" <> ("?node_type=" <> t)))
]

pub get_nodes : String → Option String → Option String → Prog Json
unfolding nodes_path
get_nodes topology_name node_type h =
    bind (fetch (request "GET" h (nodes_path topology_name node_type) [] none)) (list_of "nodes")

pub record LayoutNode : Type 0 where
  pub id : String
  pub name : Option Json
  pub node_type : String
  pub content : Json

pub record LayoutLink : Type 0 where
  pub source : String
  pub target : String
  pub link_type : String
  pub label : Option Json

pub record Layout : Type 0 where
  pub nodes : List LayoutNode
  pub links : List LayoutLink

abbrev pub layout_join : Layout → Layout → Layout
layout_join a b = record { nodes = a.nodes ++ b.nodes; links = a.links ++ b.links }

abbrev pub no_layout : Layout
no_layout = record { nodes = []; links = [] }

not_a_list : Fault
not_a_list = error "TypeError" "forEach is not a function"

-- The values of a list that is there. `?.` and `if` pass over a missing one.
each : Option Json → Outcome Items
unfolding not_a_list
each none = returned nil
each (some (array xs)) = returned xs
each (some v) = if falsy v then returned nil else thrown not_a_list

-- `xs?.forEach`, which passes over `null` and `undefined` only
each_given : Option Json → Outcome Items
unfolding not_a_list
each_given none = returned nil
each_given (some null) = returned nil
each_given (some (array xs)) = returned xs
each_given (some _) = thrown not_a_list

-- The results of a callback on each item, joined.
collect : (Json → Outcome Layout) → Items → Outcome Layout
collect step nil = returned no_layout
collect step (item v xs) =
    let rest = collect step xs in
    and_then (step v) (λ a. and_then rest (λ b. returned (layout_join a b)))

-- The three kinds of node, with the prefix of their ids and their type.
pub data NodeKind : Type 0 where
  on_net on_daemon on_host : NodeKind

abbrev pub prefix : NodeKind → String
prefix on_net = "net-"
prefix on_daemon = "daemon-"
prefix on_host = "host-"

abbrev type_name : NodeKind → String
type_name on_net = "network"
type_name on_daemon = "daemon"
type_name on_host = "host"

node_of : NodeKind → Option Json → Json → LayoutNode
node_of kind name v = record {
  id = prefix kind <> show_option name;
  name = name;
  node_type = type_name kind;
  content = v;
}

-- The callback on an interface of a daemon or a host
interface_link : String → Json → Outcome Layout
interface_link source i = and_then (read "network" i) (λ network. and_then (read "ipv4" i) (λ ipv4.
    returned (record {
      nodes = [];
      links =
          record {
            source = source;
            target = prefix on_net <> show_option network;
            link_type = "network";
            label = ipv4;
          }
          ∷ [];
    })))

network_step : Json → Outcome Layout
unfolding node_of
network_step v =
    and_then (read "name" v)
      (λ name. returned (record { nodes = node_of on_net name v ∷ []; links = [] }))

-- The callback on a daemon or a host: its node, and a link for each interface
container_step : NodeKind → Json → Outcome Layout
unfolding node_of interface_link each_given collect
container_step kind v = and_then (read "name" v) (λ name. and_then (read "interfaces" v) (λ o.
    and_then (each_given o) (λ xs.
      and_then (collect (interface_link (prefix kind <> show_option name)) xs) (λ rest.
        returned (layout_join (record { nodes = node_of kind name v ∷ []; links = [] }) rest)))))

peer_step : Json → Outcome Layout
peer_step v = and_then (read "source" v) (λ source. and_then (read "target" v) (λ target.
    and_then (read "source_asn" v) (λ source_asn. and_then (read "target_asn" v) (λ target_asn.
      returned (record {
        nodes = [];
        links =
            record {
              source = prefix on_daemon <> show_option source;
              target = prefix on_daemon <> show_option target;
              link_type = "bgp-peer";
              label =
                  some (
                    text ("AS" <> (show_option source_asn <> (" ↔ AS" <> show_option target_asn))));
            }
            ∷ [];
      })))))

-- `if (response.k) response.k.forEach(step)`
part : String → (Json → Outcome Layout) → Json → Outcome Layout
unfolding each collect
part k step v = and_then (read k v) (λ o. and_then (each o) (collect step))

pub lab_layout : Json → Outcome Layout
unfolding part network_step container_step peer_step
lab_layout v = and_then (part "networks" network_step v) (λ networks.
    and_then (part "daemons" (container_step on_daemon) v) (λ daemons.
      and_then (part "hosts" (container_step on_host) v) (λ hosts.
        and_then (part "bgp_peers" peer_step v) (λ peers.
          returned (layout_join networks (layout_join daemons (layout_join hosts peers)))))))

unfoldable pub get_lab_topology : Option String → Prog Layout
unfolding lab_layout
get_lab_topology h =
    bind (fetch (request "GET" h "/lab/topology" [] none)) (λ v. lift (lab_layout v))

-- The calls of several hosts, one after the other: `Promise.all` starts them in this order, and
-- each writes the entry of its own address.
gather : {A : Type 0} → (String → Prog A) → A → List String → Dict A → Prog (Dict A)
gather get missing [] results = done results
gather get missing (url ∷ urls) results =
    bind (catch (get url) (λ f. done missing)) (λ a. gather get missing urls (insert url a results))

pub get_topologies_from_multiple_hosts : List String → Prog (Dict Json)
unfolding gather
get_topologies_from_multiple_hosts urls =
    gather (λ url. get_topologies (some url)) (array nil) urls []

pub get_lab_topology_from_multiple_hosts : List String → Prog (Dict Layout)
unfolding gather
get_lab_topology_from_multiple_hosts urls =
    gather (λ url. get_lab_topology (some url)) no_layout urls []

-- The hosts that the browser keeps; `parse` is `JSON.parse`.
pub get_managed_hosts : (String → Outcome Json) → Storage → Outcome Json
get_managed_hosts parse m = elim (truthy (lookup "managedHosts" m)) [
  | none ↦ returned (array nil)
  | some saved ↦ parse saved
]

pub save_managed_hosts : (Json → String) → Json → Storage → Storage
save_managed_hosts stringify hosts m = insert "managedHosts" (stringify hosts) m
