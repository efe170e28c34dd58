-- ===== src/Topology/Tests.antt =====
-- The theorems of the topology slice at concrete inputs.
use net_test_toy.Topology.{
  Discovery, Simulation, TopologyState, collect_topologies, failure, fetch_topology, fulfilled,
  handle_discovery_update, initial_state, pending, reduce, rejected, run, run_discovery, running,
  same_discovery, settle, stop_simulation, stopped, success, update_topology,
}
use net_test_toy.Topology.Busy.{flag, flag_down, on_topology}
use net_test_toy.Topology.Simulations.{
  IsCoherent, find_simulation, reduce-IsCoherent, stop_simulation_lem,
}
use net_test_toy.Topology.Lists.{
  handle_discovery_update_lem, lookup-collect_topologies, run_discovery_duplicates,
}
use net_test_toy.Topology.Settle.{update_topology_keeps_error}
use net_test_toy.Base.{
  [], arith, false, find, if◌then◌else◌, none, refl, some, text_dec, ℕ, ◌==◌, ◌∙◌, ◌∷◌, ◌≡◌,
}
use net_test_toy.Base.Texts.{Distinct}
use net_test_toy.Base.Dict.{lookup}
use net_test_toy.Base.Upsert.{has_key, key_list}

abbrev start : TopologyState ℕ
start = initial_state 0

abbrev running_x : Simulation ℕ
running_x = record { id = "x"; status = running; body = 1 }

abbrev found_d : Discovery ℕ
found_d = record { id = "d"; body = 1 }

abbrev with_x : TopologyState ℕ
with_x = record start { simulations = running_x ∷ []; active_simulation = some running_x }

flag_down_example :
    flag on_topology
      (run 0 (fetch_topology pending ∷ fetch_topology (rejected none) ∷ []) start).loading
    ≡ false
flag_down_example =
    flag_down 0 on_topology (fetch_topology pending ∷ fetch_topology (rejected none) ∷ []) refl

reduce-IsCoherent_example : IsCoherent (reduce 0 (stop_simulation (fulfilled "x")) with_x)
reduce-IsCoherent_example =
    reduce-IsCoherent 0 (stop_simulation (fulfilled "x")) with_x tt
      (λ a e. ground (arith, text_dec "x" "x"))

stop_simulation_lem_example :
    find_simulation "x" (reduce 0 (stop_simulation (fulfilled "x")) with_x).simulations
    ≡ some (record { id = "x"; status = stopped; body = 1 })
stop_simulation_lem_example =
    (stop_simulation_lem 0 "x" with_x running_x (ground (arith, text_dec "x" "x"))).0

handle_discovery_update_lem_example :
    find (has_key same_discovery "d") (reduce 0 (handle_discovery_update found_d) start).discoveries
    ≡ (if "d" == "d" then some found_d else none)
handle_discovery_update_lem_example = (handle_discovery_update_lem 0 found_d "d" start tt).0

run_discovery_duplicates_example : ¬ Distinct (
    key_list same_discovery
      (run 0
        (run_discovery pending
          ∷ handle_discovery_update found_d
          ∷ run_discovery (fulfilled found_d)
          ∷ [])
        start).discoveries)
run_discovery_duplicates_example = run_discovery_duplicates 0 found_d found_d start refl

lookup-collect_topologies_example :
    lookup {V = ℕ} "u" (collect_topologies (("u", some 4) ∷ []) [])
    ≡ (if "u" == "u" then some 4 else none)
lookup-collect_topologies_example =
    lookup-collect_topologies "u" (("u", some 4) ∷ []) [] (refl, tt) ∙ ground arith

update_topology_keeps_error_example :
    (run 0
      (update_topology (settle (failure (some "no"))) ∷ update_topology (settle (success 2)) ∷ [])
      start).errors.topology
    ≡ some "no"
update_topology_keeps_error_example = (update_topology_keeps_error 0 (some "no") 2 start).1
