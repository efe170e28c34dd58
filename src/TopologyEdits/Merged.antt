-- ===== src/TopologyEdits/Merged.antt =====
-- services/topology/topologyMutations.ts: a merge of topologies whose edges have their ends.
use net_test_toy.TopologyEdits.{
  Definition, Edge, Lists, Node, Strategy, edge_key, has_node, in_every, intersected, intersection,
  merge_edges, merge_node, merge_nodes, merged, same_ends, union, united,
}
use net_test_toy.TopologyEdits.Closed.{
  HasEnds, HasEnds-more, IsClosed, has_node-append, has_node-filter,
}
use net_test_toy.Base.{
  All, All-append, All-filter, Bool, Bool-cases, List, Option, String, [], any, arith, inl, inr,
  none, refl, some, true, ◌&&◌, ◌++◌, ◌==◌, ◌||◌, ◌∙◌, ◌∷◌, ◌≡◌,
}

module _ {P : Type 0} where
  has_node-merge_nodes :
      (id : String) (ns ms : List (Node P))
      → has_node id (merge_nodes ns ms) ≡ (has_node id ns || has_node id ms)
  has_node-merge_nodes id [] ms = refl
  has_node-merge_nodes id (n ∷ ns) ms =
      ground (arith, has_node-merge_nodes id ns (merge_node n ms), has_node-append id ms (n ∷ []))

  merge_edges-All :
      (Q : Edge P → Type 0) (es ms : List (Edge P))
      → All Q es
      → All Q ms
      → All Q (merge_edges es ms)
  merge_edges-All Q [] ms h k = k
  merge_edges-All Q (e ∷ es) ms (p, h) k =
      elim (Bool-cases (any (λ f. edge_key f == edge_key e) ms)) [
        | inl known ↦ rw known (merge_edges-All Q es ms h k)
        | inr new ↦
            rw new (merge_edges-All Q es (ms ++ e ∷ []) h (All-append Q ms (e ∷ []) k (p, tt)))
      ]

  -- Each topology that is there has the ends of its edges.
  abbrev pub AllClosed : List (Option (Definition P)) → Type 0
  AllClosed [] = Unit
  AllClosed (none ∷ ds) = AllClosed ds
  AllClosed (some d ∷ ds) = IsClosed d.nodes d.edges × AllClosed ds

  united-IsClosed :
      (ds : List (Option (Definition P))) (m : Lists P)
      → AllClosed ds
      → IsClosed m.nodes m.edges
      → IsClosed (united ds m).nodes (united ds m).edges
  united-IsClosed [] m h k = k
  united-IsClosed (none ∷ ds) m h k = united-IsClosed ds m h k
  united-IsClosed (some d ∷ ds) m (p, h) k =
      let ns : List (Node P) = merge_nodes d.nodes m.nodes in
      united-IsClosed ds (record { nodes = ns; edges = merge_edges d.edges m.edges }) h
        (merge_edges-All (HasEnds ns) d.edges m.edges
          (HasEnds-more d.nodes ns
            (λ id e. ground (arith, e, has_node-merge_nodes id d.nodes m.nodes)) d.edges p)
          (HasEnds-more m.nodes ns
            (λ id e. ground (arith, e, has_node-merge_nodes id d.nodes m.nodes)) m.edges k))

  -- An edge with the ends of one of these has its ends among the nodes too.
  ends_of :
      (nodes : List (Node P)) (es : List (Edge P)) (e : Edge P)
      → IsClosed nodes es
      → any (λ f. f.source == e.source && f.target == e.target) es ≡ true
      → HasEnds nodes e
  ends_of nodes [] e h a = ground arith
  ends_of nodes (f ∷ es) e (p, h) a =
      elim (Bool-cases (f.source == e.source && f.target == e.target)) [
        | inl same ↦ (ground (arith, same, p), ground (arith, same, p))
        | inr differ ↦ ends_of nodes es e h (ground (arith, differ, a))
      ]

  in_every-ends :
      (ds : List (Option (Definition P))) (e : Edge P)
      → AllClosed ds
      → in_every (same_ends e) ds ≡ true
      → (in_every (λ t. has_node e.source t.nodes) ds ≡ true)
        × (in_every (λ t. has_node e.target t.nodes) ds ≡ true)
  in_every-ends [] e h a = (refl, refl)
  in_every-ends (none ∷ ds) e h a = ground arith
  in_every-ends (some d ∷ ds) e (p, h) a =
      let q : HasEnds d.nodes e = ends_of d.nodes d.edges e p (ground (arith, a)) in
      let r = in_every-ends ds e h (ground (arith, a)) in
      (ground (arith, q, r), ground (arith, q, r))

  intersected-IsClosed :
      (ds : List (Option (Definition P)))
      → AllClosed ds
      → IsClosed (intersected ds).nodes (intersected ds).edges
  intersected-IsClosed [] h = tt
  intersected-IsClosed (none ∷ ds) h = tt
  intersected-IsClosed (some d ∷ ds) (p, h) =
      let q : String → Bool = λ id. in_every (λ t. has_node id t.nodes) (some d ∷ ds) in
      All-filter (λ e. in_every (same_ends e) (some d ∷ ds)) d.edges
        (λ e everywhere ends.
          let r = in_every-ends (some d ∷ ds) e (p, h) everywhere in
          (
            has_node-filter q e.source d.nodes ∙ ground (arith, r.0, ends.0),
            has_node-filter q e.target d.nodes ∙ ground (arith, r.1, ends.1),
          ))
        p

  -- A merge of topologies that each have the ends of their edges among their nodes is one that does,
  -- by either strategy.
  pub merged-IsClosed :
      (strategy : Strategy) (ds : List (Option (Definition P)))
      → AllClosed ds
      → IsClosed (merged strategy ds).nodes (merged strategy ds).edges
  unfolding merged
  merged-IsClosed union ds h = united-IsClosed ds (record { nodes = []; edges = [] }) h tt
  merged-IsClosed intersection ds h = intersected-IsClosed ds h
