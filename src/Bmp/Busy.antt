-- ===== src/Bmp/Busy.antt =====
-- The loading flags of bmpSlice.ts against the requests that are in flight.
use net_test_toy.Bmp.{
  Action, BmpState, Loading, fetch_data, fetch_flow_spec_rules, fetch_messages, fetch_peers,
  fetch_routes, fetch_server_config, fetch_stats, initial_state, reduce, run,
}
use net_test_toy.Thunk.{Progress, count_one, other, progress_of}
use net_test_toy.Base.{Bool, List, [], arith, false, true, ℕ, ◌<◌, ◌∷◌, ◌≡◌}

pub data Flag : Type 0 where
  on_peers on_routes on_flow_spec on_messages on_stats on_config : Flag

abbrev pub flag : Flag → Loading → Bool
flag on_peers l = l.peers
flag on_routes l = l.routes
flag on_flow_spec l = l.flow_spec
flag on_messages l = l.messages
flag on_stats l = l.stats
flag on_config l = l.config

-- What an action means for the requests with a flag; a fetch of all data has four of them.
abbrev pub progress : {P : Type 0} → Flag → Action P → Progress
progress on_peers (fetch_data t) = progress_of t
progress on_routes (fetch_data t) = progress_of t
progress on_flow_spec (fetch_data t) = progress_of t
progress on_stats (fetch_data t) = progress_of t
progress on_peers (fetch_peers t) = progress_of t
progress on_routes (fetch_routes t) = progress_of t
progress on_flow_spec (fetch_flow_spec_rules t) = progress_of t
progress on_stats (fetch_stats t) = progress_of t
progress on_messages (fetch_messages t) = progress_of t
progress on_config (fetch_server_config t) = progress_of t
progress _ _ = other

abbrev pub in_flight : {P : Type 0} → Flag → List (Action P) → ℕ → ℕ
in_flight f [] n = n
in_flight f (a ∷ as') n = in_flight f as' (count_one (progress f a) n)

module _ {P : Type 0} (no_filter : P) where
  flag-reduce :
      (f : Flag) (a : Action P) (s : BmpState P) (n : ℕ)
      → (flag f s.loading ≡ true → 0 < n)
      → flag f (reduce no_filter a s).loading ≡ true
      → 0 < count_one (progress f a) n
  unfolding reduce
  flag-reduce f a s n h e = ground arith

  flag-run :
      (f : Flag) (as' : List (Action P)) (s : BmpState P) (n : ℕ)
      → (flag f s.loading ≡ true → 0 < n)
      → flag f (run no_filter as' s).loading ≡ true
      → 0 < in_flight f as' n
  unfolding run
  flag-run f [] s n h e = h e
  flag-run f (a ∷ as') s n h e =
      flag-run f as' (reduce no_filter a s) (count_one (progress f a) n) (flag-reduce f a s n h) e

  -- From the initial state, once no request that raises a flag is in flight the flag is down.
  pub flag_down_at_rest :
      (f : Flag) (as' : List (Action P))
      → in_flight f as' 0 ≡ 0
      → flag f (run no_filter as' (initial_state no_filter)).loading ≡ false
  flag_down_at_rest f as' e =
      ground (arith, flag-run f as' (initial_state no_filter) 0 (λ up. ground arith))
