-- ===== src/TopologyManager/Commands.antt =====
-- The thunks of topologyManagerSlice.ts, run against a server that answers as it likes.
use net_test_toy.TopologyApi
use net_test_toy.TopologyManager.{
  Activated, Command, Created, Deleted, Details, Fetched, ManagerState, activate, activate_topology,
  activated_stage, changed, create, create_topology, created_stage, delete, delete_topology,
  deleted_stage, details_stage, execute, fetch_all, fetch_details, fetch_topologies,
  fetch_topology_details, lists_without, pending, reduce, refetch, same_name, stage_of,
  topologies_stage,
}
use net_test_toy.Http.{
  Ensures, Holds, Outcome, Prog, Request, Server, bind, bind-Ensures, done, error, returned, run,
  run-Ensures, thrown,
}
use net_test_toy.TopologyApi.{MutationResult, request, run-bind-mutate}
use net_test_toy.Base.{Bool-cases, String, [], arith, false, inl, inr, none, refl, some, ◌<>◌, ◌≡◌}
use net_test_toy.Storage.{or_else}

-- No request is shown as running.
abbrev pub IsIdle : ManagerState → Type 0
IsIdle s = (s.is_loading ≡ false) × (s.is_loading_details ≡ false) × (s.is_activating ≡ false)

-- The request for the deletion of a topology
abbrev pub delete_request : String → String → Request
delete_request h n = request "DELETE" (some h) ("/topologies/" <> n) [] none

topologies-IsIdle :
    (o : Outcome Fetched) (s : ManagerState)
    → IsIdle s
    → IsIdle (topologies_stage (stage_of o) (topologies_stage pending s))
unfolding topologies_stage
topologies-IsIdle (returned p) s i = ground arith
topologies-IsIdle (thrown f) s i = ground arith

details-IsIdle :
    (o : Outcome Details) (s : ManagerState)
    → IsIdle s
    → IsIdle (details_stage (stage_of o) (details_stage pending s))
unfolding details_stage
details-IsIdle (returned p) s i = ground arith
details-IsIdle (thrown f) s i = ground arith

created-IsIdle :
    (o : Outcome Created) (s : ManagerState)
    → IsIdle s
    → IsIdle (created_stage (stage_of o) (created_stage pending s))
unfolding created_stage
created-IsIdle (returned p) s i = ground arith
created-IsIdle (thrown f) s i = ground arith

activated-IsIdle :
    (o : Outcome Activated) (s : ManagerState)
    → IsIdle s
    → IsIdle (activated_stage (stage_of o) (activated_stage pending s))
unfolding activated_stage
activated-IsIdle (returned p) s i = ground arith
activated-IsIdle (thrown f) s i = ground arith

deleted-IsIdle :
    (o : Outcome Deleted) (s : ManagerState)
    → IsIdle s
    → IsIdle (deleted_stage (stage_of o) (deleted_stage pending s))
unfolding deleted_stage lists_without
deleted-IsIdle (returned p) s i = ground arith
deleted-IsIdle (thrown f) s i = ground arith

changed-Ensures :
    {A : Type 0} (P : A → Type 0) (fallback : String) (result : MutationResult) (next : Prog A)
    → Ensures P next
    → Ensures P (changed fallback result next)
changed-Ensures P fallback result next h = elim (Bool-cases result.success) [
  | inl e ↦ rw e h
  | inr e ↦ rw e tt
]

abbrev delete_lists : String → String → Prog Deleted
delete_lists h n = bind (refetch h) (λ lists. done (record { lists = lists; deleted_name = n }))

deleted_name-delete_topology :
    (h n : String) → Ensures (λ p. p.deleted_name ≡ n) (delete_topology h n)
unfolding delete_topology
deleted_name-delete_topology h n =
    let P : Deleted → Type 0 = λ p. p.deleted_name ≡ n in
    let fallback : String = "Failed to delete topology" in
    bind-Ensures P (TopologyApi.delete_topology n (some h))
      (λ result. changed fallback result (delete_lists h n))
      (λ result. changed-Ensures P fallback result (delete_lists h n) (
        bind-Ensures P (refetch h) (λ lists. done (record { lists = lists; deleted_name = n }))
          (λ lists. refl {A = String} {a = n})))

deleted-selection :
    (n : String) (o : Outcome Deleted) (s : ManagerState)
    → Holds (λ p. p.deleted_name ≡ n) o
    → (deleted_stage (stage_of o) s).error_text ≡ none
    → same_name (deleted_stage (stage_of o) s).selected_topology n ≡ false
unfolding deleted_stage lists_without
deleted-selection n (returned p) s h e = ground arith
deleted-selection n (thrown f) s h e = ground arith

module _ {W : Type 0} (serve : Server W) where
  -- A call of a thunk ends, whatever the server does: where none was shown as running, none is.
  pub execute-IsIdle :
      (c : Command) (s : ManagerState) (w : W) → IsIdle s → IsIdle (execute serve c s w).0
  unfolding execute reduce
  execute-IsIdle (fetch_all h) s w i = topologies-IsIdle (run serve (fetch_topologies h) w).0 s i
  execute-IsIdle (fetch_details h n) s w i =
      details-IsIdle (run serve (fetch_topology_details h n) w).0 s i
  execute-IsIdle (create h n d) s w i = created-IsIdle (run serve (create_topology h n d) w).0 s i
  execute-IsIdle (activate h n) s w i = activated-IsIdle (run serve (activate_topology h n) w).0 s i
  execute-IsIdle (delete h n) s w i = deleted-IsIdle (run serve (delete_topology h n) w).0 s i

  -- After the deletion of a topology it is not selected, unless an error is shown.
  pub delete_selection :
      (h n : String) (s : ManagerState) (w : W)
      → (execute serve (delete h n) s w).0.error_text ≡ none
      → same_name (execute serve (delete h n) s w).0.selected_topology n ≡ false
  unfolding execute reduce
  delete_selection h n s w e =
      deleted-selection n (run serve (delete_topology h n) w).0 _
        (run-Ensures _ serve (delete_topology h n) w (deleted_name-delete_topology h n)) e

  -- A topology that the server refuses to delete: nothing else is sent, the lists and the selection
  -- stay as they are, and the server's message is shown.
  pub delete_refused :
      (h n name message : String) (s : ManagerState) (w : W)
      → (serve (delete_request h n) w).0 ≡ thrown (error name message)
      → execute serve (delete h n) s w ≡ (
        record s {
          is_loading = false;
          error_text = some (or_else (some message) "Failed to delete topology");
        },
        (serve (delete_request h n) w).1,
      )
  unfolding execute reduce delete_topology TopologyApi.delete_topology
  delete_refused h n name message s w e =
      rw (run-bind-mutate "Failed to delete topology" serve (delete_request h n) _ w, e)
        (ground arith)
