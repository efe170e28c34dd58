-- ===== src/Topology/Busy.antt =====
-- The loading flags of topologySlice.ts against the requests that are in flight.
use net_test_toy.Topology.{
  Action, Loading, Stage, TopologyState, create_topology, export_topology, fetch_topology,
  fulfilled, generate_visualization, initial_state, pending, reduce, rejected, run, run_discovery,
  start_simulation, validate_topology,
}
use net_test_toy.Base.{
  Bool, List, [], arith, false, if◌then◌else◌, suc, true, ℕ, ◌-◌, ◌<◌, ◌∷◌, ◌≡◌,
}

pub data Flag : Type 0 where
  on_topology on_discovery on_validation on_visualization on_simulation on_export : Flag

abbrev pub flag : Flag → Loading → Bool
flag on_topology l = l.topology
flag on_discovery l = l.discovery
flag on_validation l = l.validation
flag on_visualization l = l.visualization
flag on_simulation l = l.simulation
flag on_export l = l.exporting

abbrev same : Flag → Flag → Bool
same on_topology on_topology = true
same on_discovery on_discovery = true
same on_validation on_validation = true
same on_visualization on_visualization = true
same on_simulation on_simulation = true
same on_export on_export = true
same _ _ = false

-- A request with a flag is sent when its thunk is pending, and over when it settles.
pub data Progress : Type 0 where
  sent over : Flag → Progress
  other : Progress

abbrev progress_of {ℓ} : {A : Type ℓ} → Flag → Stage A → Progress
progress_of f pending = sent f
progress_of f (fulfilled a) = over f
progress_of f (rejected m) = over f

abbrev pub progress : {P : Type 0} → Action P → Progress
progress (fetch_topology t) = progress_of on_topology t
progress (create_topology t) = progress_of on_topology t
progress (run_discovery t) = progress_of on_discovery t
progress (validate_topology t) = progress_of on_validation t
progress (generate_visualization t) = progress_of on_visualization t
progress (start_simulation t) = progress_of on_simulation t
progress (export_topology t) = progress_of on_export t
progress _ = other

-- The requests with the flag `f` that are in flight, after one action.
abbrev pub count_one : Flag → Progress → ℕ → ℕ
count_one f (sent g) n = if same f g then suc n else n
count_one f (over g) n = if same f g then n - 1 else n
count_one f other n = n

abbrev pub in_flight : {P : Type 0} → Flag → List (Action P) → ℕ → ℕ
in_flight f [] n = n
in_flight f (a ∷ as') n = in_flight f as' (count_one f (progress a) n)

module _ {P : Type 0} (force_directed : P) where
  flag-reduce :
      (f : Flag) (a : Action P) (s : TopologyState P) (n : ℕ)
      → (flag f s.loading ≡ true → 0 < n)
      → flag f (reduce force_directed a s).loading ≡ true
      → 0 < count_one f (progress a) n
  unfolding reduce
  flag-reduce f a s n h e = ground arith

  flag-run :
      (f : Flag) (as' : List (Action P)) (s : TopologyState P) (n : ℕ)
      → (flag f s.loading ≡ true → 0 < n)
      → flag f (run force_directed as' s).loading ≡ true
      → 0 < in_flight f as' n
  unfolding run
  flag-run f [] s n h e = h e
  flag-run f (a ∷ as') s n h e =
      flag-run f as' (reduce force_directed a s) (count_one f (progress a) n)
        (flag-reduce f a s n h) e

  -- From the initial state, once no request with a flag is in flight the flag is down.
  pub flag_down :
      (f : Flag) (as' : List (Action P))
      → in_flight f as' 0 ≡ 0
      → flag f (run force_directed as' (initial_state force_directed)).loading ≡ false
  flag_down f as' e =
      ground (arith, flag-run f as' (initial_state force_directed) 0 (λ up. ground arith))
