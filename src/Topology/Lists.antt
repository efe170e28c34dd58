-- ===== src/Topology/Lists.antt =====
-- The selections of topologySlice.ts and its lists of discoveries and validations.
use net_test_toy.Topology.{
  Action, Discovery, TopologyState, add_selected_edge, add_selected_node, collect_topologies,
  fulfilled, handle_discovery_update, pending, reduce, remove_selected_edge, remove_selected_node,
  run, run_discovery, same_discovery, set_selected_edges, set_selected_nodes,
}
use net_test_toy.Base.{
  Option, String, [], arith, find, if◌then◌else◌, none, refl, some, ◌==◌, ◌∷◌, ◌≡◌,
}
use net_test_toy.Base.Texts.{Distinct, push-Distinct, without-Distinct}
use net_test_toy.Base.Dict.{Dict, insert, keys, lookup, lookup-absent, lookup-insert}
use net_test_toy.Base.Upsert.{find-upsert, has_key, key_list, push_after_upsert, upsert-Distinct}

-- Nothing is selected twice.
pub record IsSelection {P : Type 0} (s : TopologyState P) : Type 0 where
  pub nodes : Distinct s.selected_nodes
  pub edges : Distinct s.selected_edges

-- A selection that is set as a whole holds nothing twice.
abbrev pub SelectsOnce : {P : Type 0} → Action P → Type 0
SelectsOnce (set_selected_nodes ids) = Distinct ids
SelectsOnce (set_selected_edges ids) = Distinct ids
SelectsOnce _ = Unit

module _ {P : Type 0} (force_directed : P) where
  -- No action but a selection of a list with a repetition selects anything twice.
  pub reduce-IsSelection :
      (a : Action P) (s : TopologyState P)
      → SelectsOnce a
      → IsSelection s
      → IsSelection (reduce force_directed a s)
  unfolding reduce
  reduce-IsSelection (add_selected_node id) s o v =
      ground (arith, push-Distinct id s.selected_nodes)
  reduce-IsSelection (add_selected_edge id) s o v =
      ground (arith, push-Distinct id s.selected_edges)
  reduce-IsSelection (remove_selected_node id) s o v = record {
    nodes = without-Distinct id s.selected_nodes v.nodes;
    edges = v.edges;
  }
  reduce-IsSelection (remove_selected_edge id) s o v = record {
    nodes = v.nodes;
    edges = without-Distinct id s.selected_edges v.edges;
  }
  reduce-IsSelection a s o v = ground arith

  -- An update of a discovery is found under its id, and leaves what is found under any other;
  -- ids that were distinct stay so.
  pub handle_discovery_update_lem :
      (d : Discovery P) (j : String) (s : TopologyState P)
      → Distinct (key_list same_discovery s.discoveries)
      → let t = reduce force_directed (handle_discovery_update d) s in
        (find (has_key same_discovery j) t.discoveries
          ≡ (if d.id == j then some d else find (has_key same_discovery j) s.discoveries))
        × Distinct (key_list same_discovery t.discoveries)
  unfolding reduce
  handle_discovery_update_lem d j s u = (
    find-upsert same_discovery d j s.discoveries,
    upsert-Distinct same_discovery d s.discoveries u,
  )

  -- Where the update of a discovery arrives before the answer of the request that runs it, the list
  -- holds two discoveries with one id afterwards.
  pub run_discovery_duplicates :
      (d e : Discovery P) (s : TopologyState P)
      → e.id ≡ d.id
      → ¬ Distinct (
          key_list same_discovery
            (run force_directed
              (run_discovery pending ∷ handle_discovery_update d ∷ run_discovery (fulfilled e) ∷ [])
              s).discoveries)
  unfolding run reduce
  run_discovery_duplicates d e s h = push_after_upsert same_discovery d e s.discoveries h

-- The answers of several clients, each with an address of its own, give each client its topology
-- in whatever order they come.
pub lookup-collect_topologies :
    {P : Type 0} (url : String) (answers : Dict (Option P)) (results : Dict P)
    → Distinct (keys answers)
    → lookup url (collect_topologies answers results) ≡ (elim (lookup url answers) [
      | some (some t) ↦ some t
      | some none ↦ lookup url results
      | none ↦ lookup url results
    ])
unfolding collect_topologies
lookup-collect_topologies url [] results u = refl
lookup-collect_topologies url ((k, none) ∷ answers) results u =
    ground (arith, lookup-collect_topologies url answers results u.1, lookup-absent k answers u.0)
lookup-collect_topologies url ((k, some t) ∷ answers) results u = ground (
  arith,
  lookup-collect_topologies url answers (insert k t results) u.1,
  lookup-insert k url t results,
  lookup-absent k answers u.0,
)
