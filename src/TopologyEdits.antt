-- ===== src/TopologyEdits.antt =====
-- services/topology/topologyMutations.ts: the edits of a topology. Each reads it, makes the lists
-- that are to be sent, and sends them.
mod Types
mod Graph
pub mod Closed
pub mod Merged
mod Tests
pub use Types.*
unfoldable pub use Graph.*
use net_test_toy.Http.{
  Fault, Json, Outcome, Prog, and_then, attempt, bind, catch, done, error, falsy, lift, read,
  returned, stop,
}
use net_test_toy.TopologyApi.{
  MutationResult, create_topology, failed, get_topology, update_topology,
}
use net_test_toy.Base.{List, Option, String, [], if◌then◌else◌, none, not, some, ◌*◌, ◌∷◌}

-- `read` is the reading of an answer as a topology, `write` the JSON of an update.
module _ {P : Type 0} (read : Json → Outcome (Definition P)) (write : Update P → Json) where
  not_found : Fault
  not_found = error "Error" "Topology not found"

  -- The steps in the `try` block of an edit
  edited : String → (Definition P → Outcome (Update P)) → Option String → Prog MutationResult
  unfolding not_found
  edited id change h = bind (get_topology id h) (λ v.
      if falsy v
      then stop not_found
      else bind (lift (and_then (read v) change)) (λ u. update_topology id (write u) h))

  -- `catch (error) { return { success: false, … } }`
  edit : String → String → (Definition P → Outcome (Update P)) → Option String → Prog MutationResult
  unfolding edited
  edit fallback id change h = catch (edited id change h) (λ f. done (failed fallback f))

  -- `node_id` is the id that is made of the time and a random number.
  pub add_node : String → String → P → Option String → Prog MutationResult
  unfolding edit
  add_node id node_id content h =
      edit "Failed to add node" id (λ d. returned (node_added node_id content d)) h

  pub update_node : String → String → (P → P) → Option String → Prog MutationResult
  unfolding edit
  update_node id node_id updates h =
      edit "Failed to update node" id (λ d. returned (node_updated node_id updates d)) h

  pub remove_node : String → String → Option String → Prog MutationResult
  unfolding edit
  remove_node id node_id h =
      edit "Failed to remove node" id (λ d. returned (node_removed node_id d)) h

  pub add_multiple_nodes : String → List (Node P) → Option String → Prog MutationResult
  unfolding edit
  add_multiple_nodes id nodes h =
      edit "Failed to add multiple nodes" id (λ d. returned (nodes_added nodes d)) h

  pub add_edge : String → String → NewEdge P → Option String → Prog MutationResult
  unfolding edit
  add_edge id edge_id edge h = edit "Failed to add edge" id (edge_added edge_id edge) h

  pub update_edge : String → String → EdgeUpdates P → Option String → Prog MutationResult
  unfolding edit
  update_edge id edge_id updates h =
      edit "Failed to update edge" id (λ d. returned (edge_updated edge_id updates d)) h

  pub remove_edge : String → String → Option String → Prog MutationResult
  unfolding edit
  remove_edge id edge_id h =
      edit "Failed to remove edge" id (λ d. returned (edge_removed edge_id d)) h

  pub add_multiple_edges : String → List (Edge P) → Option String → Prog MutationResult
  unfolding edit
  add_multiple_edges id edges h =
      edit "Failed to add multiple edges" id (λ d. returned (edges_added edges d)) h

  -- A topology that is `null` stays away.
  read_one : String → Option String → Prog (Option (Definition P))
  read_one id h =
      bind (get_topology id h)
        (λ v. if falsy v then done none else bind (lift (read v)) (λ d. done (some d)))

  -- `Promise.all`: every request is sent, and then the first fault of all counts.
  read_all : List String → Option String → Prog (Outcome (List (Option (Definition P))))
  unfolding read_one
  read_all [] h = done (returned [])
  read_all (id ∷ ids) h =
      let rest = read_all ids h in
      bind (attempt (read_one id h))
        (λ o. bind rest (λ os. done (and_then o (λ d. and_then os (λ ds. returned (d ∷ ds))))))

  pub merge_topologies :
      (Strategy → String → List (Node P) → List (Edge P) → Json)
      → List String
      → String
      → Strategy
      → Option String
      → Prog MutationResult
  unfolding read_all
  merge_topologies write_new ids name strategy h =
      catch
        (bind (bind (read_all ids h) lift) (λ ds.
          let m : Lists P = merged strategy ds in
          create_topology (write_new strategy name m.nodes m.edges) h))
        (λ f. done (failed "Failed to merge topologies" f))
