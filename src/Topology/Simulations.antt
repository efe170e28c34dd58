-- ===== src/Topology/Simulations.antt =====
-- The simulations of topologySlice.ts: the active one is the one in the list.
use net_test_toy.Topology.{
  Action, Simulation, TopologyState, drop_active, fulfilled, got_simulation,
  handle_simulation_update, reduce, refresh_active, same_simulation, simulation_updated,
  start_simulation, stop_simulation, stopped, stopped_simulation,
}
use net_test_toy.Base.{
  List, Option, String, [], any, arith, false, find, refl, some, update_first, ◌∷◌, ◌≡◌, ◌≢◌,
}
use net_test_toy.Base.Upsert.{find-push, find-upsert, has_key}

abbrev pub find_simulation : {P : Type 0} → String → List (Simulation P) → Option (Simulation P)
find_simulation id = find (has_key same_simulation id)

-- The active simulation is what the list holds under its id.
abbrev pub IsCoherent : {P : Type 0} → TopologyState P → Type 0
IsCoherent s =
    (a : Simulation _) → s.active_simulation ≡ some a → find_simulation a.id s.simulations ≡ some a

-- The service gives each simulation that it starts a new id.
abbrev pub IsFresh : {P : Type 0} → Action P → TopologyState P → Type 0
IsFresh (start_simulation (fulfilled x)) s =
    any (has_key same_simulation x.id) s.simulations ≡ false
IsFresh _ s = Unit

module _ {P : Type 0} where
  find-stop :
      (id j : String) (xs : List (Simulation P))
      → id ≢ j
      → find_simulation j
          (update_first (has_key same_simulation id) (λ x. record x { status = stopped }) xs)
        ≡ find_simulation j xs
  find-stop id j [] h = refl
  find-stop id j (x ∷ xs) h = ground (arith, find-stop id j xs h)

  find-stop_self :
      (id : String) (xs : List (Simulation P)) (x : Simulation P)
      → find_simulation id xs ≡ some x
      → find_simulation id
          (update_first (has_key same_simulation id) (λ y. record y { status = stopped }) xs)
        ≡ some (record x { status = stopped })
  find-stop_self id [] x h = cc
  find-stop_self id (y ∷ xs) x h = ground (arith, find-stop_self id xs x)

  updated-IsCoherent :
      (x : Simulation P) (s : TopologyState P) → IsCoherent s → IsCoherent (simulation_updated x s)
  unfolding simulation_updated refresh_active
  updated-IsCoherent x s c a e =
      ground (arith, find-upsert same_simulation x a.id s.simulations, c a)

  stopped-IsCoherent :
      (id : String) (s : TopologyState P) → IsCoherent s → IsCoherent (stopped_simulation id s)
  unfolding stopped_simulation drop_active
  stopped-IsCoherent id s c a e = ground (arith, find-stop id a.id s.simulations, c a)

  started-IsCoherent :
      (x : Simulation P) (s : TopologyState P)
      → any (has_key same_simulation x.id) s.simulations ≡ false
      → IsCoherent s
      → IsCoherent (got_simulation x s)
  unfolding got_simulation
  started-IsCoherent x s fresh c a e =
      ground (arith, find-push same_simulation a.id x s.simulations)

  -- Where the service gives new simulations new ids, every action keeps the active simulation equal
  -- to the one that the list holds under its id.
  pub reduce-IsCoherent :
      (force_directed : P) (a : Action P) (s : TopologyState P)
      → IsFresh a s
      → IsCoherent s
      → IsCoherent (reduce force_directed a s)
  unfolding reduce
  reduce-IsCoherent l (handle_simulation_update x) s f c = updated-IsCoherent x s c
  reduce-IsCoherent l (stop_simulation (fulfilled id)) s f c = stopped-IsCoherent id s c
  reduce-IsCoherent l (start_simulation (fulfilled x)) s f c = started-IsCoherent x s f c
  reduce-IsCoherent l a s f c = λ b e. ground (arith, c b)

  -- A simulation that has stopped is not the active one, and is marked in the list.
  pub stop_simulation_lem :
      (force_directed : P) (id : String) (s : TopologyState P) (x : Simulation P)
      → find_simulation id s.simulations ≡ some x
      → let t = reduce force_directed (stop_simulation (fulfilled id)) s in
        (find_simulation id t.simulations ≡ some (record x { status = stopped }))
        × ((a : Simulation P) → t.active_simulation ≡ some a → a.id ≢ id)
  unfolding reduce drop_active
  stop_simulation_lem l id s x h = (find-stop_self id s.simulations x h, λ a e. ground arith)
