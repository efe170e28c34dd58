-- ===== src/TopologyEdits/Graph.antt =====
-- services/topology/topologyMutations.ts: what the edits send, as functions of the topology.
use net_test_toy.Http.{Fault, Outcome, error, returned, thrown}
use net_test_toy.TopologyEdits.Types.{
  Definition, Edge, EdgeUpdates, NewEdge, Node, Strategy, Update, intersection, union,
}
use net_test_toy.Base.{
  Bool, List, Option, String, [], any, false, filter, if◌then◌else◌, map, none, not, some, true,
  ◌&&◌, ◌++◌, ◌<>◌, ◌==◌, ◌||◌, ◌∷◌,
}

pub record Lists (P : Type 0) : Type 0 where
  pub nodes : List (Node P)
  pub edges : List (Edge P)

abbrev pub node_id : {P : Type 0} → Node P → String
node_id n = n.id

-- `topology.nodes.some(n => n.id === id)`
abbrev pub has_node : {P : Type 0} → String → List (Node P) → Bool
has_node id nodes = any (λ n. n.id == id) nodes

missing_node : Fault
missing_node = error "Error" "Source or target node does not exist"

abbrev pub text_or : Option String → String → String
text_or none s = s
text_or (some t) s = t

module _ {P : Type 0} where
  unfoldable pub node_added : String → P → Definition P → Update P
  node_added id content d = record {
    nodes = some (d.nodes ++ record { id = id; content = content } ∷ []);
    edges = none;
  }

  -- `{ ...node, ...updates, id: nodeId }` where the id is the one that is meant
  abbrev pub renewed : String → (P → P) → Node P → Node P
  renewed id updates n = if n.id == id then record { id = id; content = updates n.content } else n

  unfoldable pub node_updated : String → (P → P) → Definition P → Update P
  node_updated id updates d = record {
    nodes = some (map (renewed id updates) d.nodes);
    edges = none;
  }

  abbrev pub touches : String → Edge P → Bool
  touches id e = e.source == id || e.target == id

  unfoldable pub node_removed : String → Definition P → Update P
  node_removed id d = record {
    nodes = some (filter (λ n. not (n.id == id)) d.nodes);
    edges = some (filter (λ e. not (e.source == id) && not (e.target == id)) d.edges);
  }

  unfoldable pub nodes_added : List (Node P) → Definition P → Update P
  nodes_added nodes d = record { nodes = some (d.nodes ++ nodes); edges = none }

  -- Both ends have to be there.
  unfoldable pub edge_added : String → NewEdge P → Definition P → Outcome (Update P)
  unfolding missing_node
  edge_added id e d =
      if has_node e.source d.nodes && has_node e.target d.nodes
      then returned (record {
        nodes = none;
        edges = some (
            d.edges
            ++ record { id = id; source = e.source; target = e.target; content = e.content } ∷ []);
      })
      else thrown missing_node

  abbrev pub changed_edge : String → EdgeUpdates P → Edge P → Edge P
  changed_edge id u e =
      if e.id == id
      then record {
        id = id;
        source = text_or u.source e.source;
        target = text_or u.target e.target;
        content = u.rest e.content;
      }
      else e

  unfoldable pub edge_updated : String → EdgeUpdates P → Definition P → Update P
  edge_updated id u d = record { nodes = none; edges = some (map (changed_edge id u) d.edges) }

  unfoldable pub edge_removed : String → Definition P → Update P
  edge_removed id d = record { nodes = none; edges = some (filter (λ e. not (e.id == id)) d.edges) }

  unfoldable pub edges_added : List (Edge P) → Definition P → Update P
  edges_added edges d = record { nodes = none; edges = some (d.edges ++ edges) }

  -- Nodes and edges that are new, by the id of a node and the text of an edge's ends
  abbrev pub merge_node : Node P → List (Node P) → List (Node P)
  merge_node n nodes = if has_node n.id nodes then nodes else nodes ++ n ∷ []

  abbrev pub merge_nodes : List (Node P) → List (Node P) → List (Node P)
  merge_nodes [] nodes = nodes
  merge_nodes (n ∷ ns) nodes = merge_nodes ns (merge_node n nodes)

  abbrev pub edge_key : Edge P → String
  edge_key e = e.source <> ("-" <> e.target)

  abbrev pub merge_edge : Edge P → List (Edge P) → List (Edge P)
  merge_edge e edges = if any (λ f. edge_key f == edge_key e) edges then edges else edges ++ e ∷ []

  abbrev pub merge_edges : List (Edge P) → List (Edge P) → List (Edge P)
  merge_edges [] edges = edges
  merge_edges (e ∷ es) edges = merge_edges es (merge_edge e edges)

  abbrev pub united : List (Option (Definition P)) → Lists P → Lists P
  united [] m = m
  united (none ∷ ds) m = united ds m
  united (some d ∷ ds) m =
      united ds
        (record { nodes = merge_nodes d.nodes m.nodes; edges = merge_edges d.edges m.edges })

  -- `topologies.every(t => t?.…some(…))`: a topology that is `null` has nothing.
  abbrev pub in_every : (Definition P → Bool) → List (Option (Definition P)) → Bool
  in_every p [] = true
  in_every p (none ∷ ds) = false
  in_every p (some d ∷ ds) = p d && in_every p ds

  abbrev pub same_ends : Edge P → Definition P → Bool
  same_ends e d = any (λ f. f.source == e.source && f.target == e.target) d.edges

  abbrev pub intersected : List (Option (Definition P)) → Lists P
  intersected [] = record { nodes = []; edges = [] }
  intersected (none ∷ ds) = record { nodes = []; edges = [] }
  intersected (some d ∷ ds) = record {
    nodes = filter (λ n. in_every (λ t. has_node n.id t.nodes) (some d ∷ ds)) d.nodes;
    edges = filter (λ e. in_every (same_ends e) (some d ∷ ds)) d.edges;
  }

  unfoldable pub merged : Strategy → List (Option (Definition P)) → Lists P
  merged union ds = united ds (record { nodes = []; edges = [] })
  merged intersection ds = intersected ds
