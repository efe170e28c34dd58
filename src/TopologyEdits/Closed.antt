-- ===== src/TopologyEdits/Closed.antt =====
-- services/topology/topologyMutations.ts: the edges of a topology have their ends among its nodes.
use net_test_toy.TopologyEdits.{
  Definition, Edge, NewEdge, Node, Update, edge_added, edge_removed, has_node, node_added,
  node_removed, node_updated, nodes_added, renewed,
}
use net_test_toy.Http.{Holds, Outcome, returned}
use net_test_toy.Base.{
  All, All-append, All-filter, All-mono, Bool, Bool-cases, List, String, [], arith, filter, inl,
  inr, map, none, not, refl, some, true, ◌&&◌, ◌++◌, ◌==◌, ◌||◌, ◌∙◌, ◌∷◌, ◌≡◌,
}

-- The edits that keep the ends of the edges
pub data Edit (P : Type 0) : Type 0 where
  adds_node : (id : String) (content : P) → Edit P
  updates_node : (id : String) (updates : P → P) → Edit P
  removes_node : (id : String) → Edit P
  adds_nodes : (nodes : List (Node P)) → Edit P
  adds_edge : (id : String) (edge : NewEdge P) → Edit P
  removes_edge : (id : String) → Edit P

module _ {P : Type 0} where
  pub has_node-append :
      (id : String) (ms ns : List (Node P))
      → has_node id (ms ++ ns) ≡ (has_node id ms || has_node id ns)
  has_node-append id [] ns = refl
  has_node-append id (m ∷ ms) ns = ground (arith, has_node-append id ms ns)

  has_node-renewed :
      (id k : String) (f : P → P) (ns : List (Node P))
      → has_node id (map (renewed k f) ns) ≡ has_node id ns
  has_node-renewed id k f [] = refl
  has_node-renewed id k f (n ∷ ns) = ground (arith, has_node-renewed id k f ns)

  -- A filter by the ids keeps the nodes whose id passes.
  pub has_node-filter :
      (q : String → Bool) (id : String) (ns : List (Node P))
      → has_node id (filter (λ n. q n.id) ns) ≡ (q id && has_node id ns)
  has_node-filter q id [] = ground arith
  has_node-filter q id (n ∷ ns) = ground (arith, has_node-filter q id ns)

  abbrev pub HasEnds : List (Node P) → Edge P → Type 0
  HasEnds nodes e = (has_node e.source nodes ≡ true) × (has_node e.target nodes ≡ true)

  -- Each edge has its ends among the nodes.
  abbrev pub IsClosed : List (Node P) → List (Edge P) → Type 0
  IsClosed nodes edges = All (HasEnds nodes) edges

  -- More nodes do no harm.
  pub HasEnds-more :
      (ms ns : List (Node P))
      → ((id : String) → has_node id ms ≡ true → has_node id ns ≡ true)
      → (edges : List (Edge P)) → IsClosed ms edges
      → IsClosed ns edges
  HasEnds-more ms ns f edges h = All-mono edges (λ e p. (f e.source p.0, f e.target p.1)) h

  -- An update that replaces the lists it has
  abbrev pub applied : Update P → Definition P → Definition P
  applied u d = record d {
    nodes = elim u.nodes [ none ↦ d.nodes | some ns ↦ ns ];
    edges = elim u.edges [ none ↦ d.edges | some es ↦ es ];
  }

  abbrev pub update_of : Edit P → Definition P → Outcome (Update P)
  update_of (adds_node id content) d = returned (node_added id content d)
  update_of (updates_node id updates) d = returned (node_updated id updates d)
  update_of (removes_node id) d = returned (node_removed id d)
  update_of (adds_nodes nodes) d = returned (nodes_added nodes d)
  update_of (adds_edge id edge) d = edge_added id edge d
  update_of (removes_edge id) d = returned (edge_removed id d)

  abbrev KeepsClosed : Definition P → Outcome (Update P) → Type 0
  KeepsClosed d = Holds (λ u. IsClosed (applied u d).nodes (applied u d).edges)

  edge_added-KeepsClosed :
      (id : String) (e : NewEdge P) (d : Definition P)
      → IsClosed d.nodes d.edges
      → KeepsClosed d (edge_added id e d)
  unfolding edge_added
  edge_added-KeepsClosed id e d h =
      elim (Bool-cases (has_node e.source d.nodes && has_node e.target d.nodes)) [
        | inl both ↦ rw both (
            All-append (HasEnds d.nodes) d.edges _ h
              ((ground (arith, both), ground (arith, both)), tt))
        | inr missing ↦ rw missing tt
      ]

  node_removed-KeepsClosed :
      (id : String) (d : Definition P)
      → IsClosed d.nodes d.edges
      → KeepsClosed d (returned (node_removed id d))
  unfolding node_removed
  node_removed-KeepsClosed id d h =
      let others : String → Bool = λ k. not (k == id) in
      All-filter (λ e. others e.source && others e.target) d.edges
        (λ e far ends. (
          ground (arith, far, ends, has_node-filter others e.source d.nodes),
          ground (arith, far, ends, has_node-filter others e.target d.nodes),
        ))
        h

  -- An edit leaves a topology whose edges have their ends among its nodes as such a topology, or it
  -- fails: an update of the edges or of several at once is not among these edits.
  pub update_of-KeepsClosed :
      (x : Edit P) (d : Definition P)
      → IsClosed d.nodes d.edges
      → Holds (λ u. IsClosed (applied u d).nodes (applied u d).edges) (update_of x d)
  unfolding node_added node_updated nodes_added edge_removed
  update_of-KeepsClosed (adds_node id content) d h =
      let n : Node P = record { id = id; content = content } in
      HasEnds-more d.nodes (d.nodes ++ n ∷ [])
        (λ k e. ground (arith, e, has_node-append k d.nodes (n ∷ []))) d.edges h
  update_of-KeepsClosed (updates_node id f) d h =
      HasEnds-more d.nodes (map (renewed id f) d.nodes) (λ k e. has_node-renewed k id f d.nodes ∙ e)
        d.edges h
  update_of-KeepsClosed (removes_node id) d h = node_removed-KeepsClosed id d h
  update_of-KeepsClosed (adds_nodes ns) d h =
      HasEnds-more d.nodes (d.nodes ++ ns) (λ k e. ground (arith, e, has_node-append k d.nodes ns))
        d.edges h
  update_of-KeepsClosed (adds_edge id e) d h = edge_added-KeepsClosed id e d h
  update_of-KeepsClosed (removes_edge id) d h =
      All-filter (λ e. not (e.id == id)) d.edges (λ e x p. p) h
