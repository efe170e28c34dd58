-- ===== src/TopologyEdits/Tests.antt =====
-- Edits and merges at concrete inputs. The other fields of nodes and edges are numbers.
use net_test_toy.TopologyEdits.{
  Definition, Edge, Node, add_edge, edge_added, edges_added, has_node, intersection, merged,
  node_removed,
}
use net_test_toy.Http.{boolean, null, returned, sent}
use net_test_toy.TopologyApi.{get_topology, request}
use net_test_toy.TopologyEdits.Closed.{IsClosed, applied, removes_node, update_of-KeepsClosed}
use net_test_toy.TopologyEdits.Merged.{merged-IsClosed}
use net_test_toy.Base.{String, [], false, map, none, refl, some, text_dec, true, ℕ, ◌∷◌, ◌≡◌}

abbrev node : String → Node ℕ
node id = record { id = id; content = 0 }

abbrev edge : String → String → String → Edge ℕ
edge id a b = record { id = id; source = a; target = b; content = 1 }

abbrev lab : Definition ℕ
lab = record {
  name = "lab";
  nodes = node "r1" ∷ node "r2" ∷ node "r3" ∷ [];
  edges = edge "e1" "r1" "r2" ∷ edge "e2" "r2" "r3" ∷ [];
  content = 0;
}

abbrev site : Definition ℕ
site = record {
  name = "site";
  nodes = node "r2" ∷ node "r3" ∷ node "r4" ∷ [];
  edges = edge "x1" "r2" "r3" ∷ edge "x2" "r3" "r4" ∷ [];
  content = 0;
}

lab-IsClosed : IsClosed lab.nodes lab.edges
unfolding text_dec
lab-IsClosed = ((refl, refl), ((refl, refl), tt))

site-IsClosed : IsClosed site.nodes site.edges
unfolding text_dec
site-IsClosed = ((refl, refl), ((refl, refl), tt))

update_of-KeepsClosed_example :
    IsClosed (applied (node_removed "r1" lab) lab).nodes (applied (node_removed "r1" lab) lab).edges
update_of-KeepsClosed_example = update_of-KeepsClosed (removes_node "r1") lab lab-IsClosed

merged-IsClosed_example :
    IsClosed
      (merged intersection (some lab ∷ some site ∷ [])).nodes
      (merged intersection (some lab ∷ some site ∷ [])).edges
merged-IsClosed_example =
    merged-IsClosed intersection (some lab ∷ some site ∷ []) (lab-IsClosed, (site-IsClosed, tt))

common : map (λ e. e.id) (merged intersection (some lab ∷ some site ∷ [])).edges ≡ "e2" ∷ []
unfolding merged text_dec
common = refl

-- Several edges at once are not looked at: an edge can come without its end.
loose :
    map
      (λ e. has_node e.target lab.nodes)
      (applied (edges_added (edge "e9" "r1" "r9" ∷ []) lab) lab).edges
    ≡ true ∷ true ∷ false ∷ []
unfolding edges_added text_dec
loose = refl

refused :
    sent
      (λ r. returned (boolean true))
      (add_edge
        (λ v. returned lab)
        (λ u. null)
        "lab"
        "e9"
        (record { source = "r1"; target = "r9"; content = 1 })
        none)
    ≡ request "GET" none "/topologies/lab" [] none ∷ []
unfolding add_edge edge_added get_topology text_dec
refused = refl
