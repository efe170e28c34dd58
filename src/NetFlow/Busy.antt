-- ===== src/NetFlow/Busy.antt =====
-- The loading flags of netflowSlice.ts against the requests that are in flight.
use net_test_toy.NetFlow.{
  Action, Loading, NetFlowState, fetch_alerts, fetch_analysis, fetch_collector_config, fetch_data,
  fetch_exporters, fetch_records, fetch_stats, fetch_time_series, initial_state, reduce, run,
}
use net_test_toy.Thunk.{Progress, count_one, other, progress_of}
use net_test_toy.Base.{Bool, List, [], arith, false, true, ℕ, ◌<◌, ◌∷◌, ◌≡◌}

pub data Flag : Type 0 where
  on_records on_stats on_exporters on_alerts on_analysis on_time_series on_config : Flag

abbrev pub flag : Flag → Loading → Bool
flag on_records l = l.records
flag on_stats l = l.stats
flag on_exporters l = l.exporters
flag on_alerts l = l.alerts
flag on_analysis l = l.analysis
flag on_time_series l = l.time_series
flag on_config l = l.config

-- What an action means for the requests with a flag; a fetch of all data has four of them.
abbrev pub progress : {P : Type 0} → Flag → Action P → Progress
progress on_records (fetch_data t) = progress_of t
progress on_stats (fetch_data t) = progress_of t
progress on_exporters (fetch_data t) = progress_of t
progress on_alerts (fetch_data t) = progress_of t
progress on_records (fetch_records t) = progress_of t
progress on_stats (fetch_stats t) = progress_of t
progress on_exporters (fetch_exporters t) = progress_of t
progress on_alerts (fetch_alerts t) = progress_of t
progress on_analysis (fetch_analysis t) = progress_of t
progress on_time_series (fetch_time_series t) = progress_of t
progress on_config (fetch_collector_config t) = progress_of t
progress _ _ = other

abbrev pub in_flight : {P : Type 0} → Flag → List (Action P) → ℕ → ℕ
in_flight f [] n = n
in_flight f (a ∷ as') n = in_flight f as' (count_one (progress f a) n)

module _ {P : Type 0} (no_filter : P) where
  flag-reduce :
      (f : Flag) (a : Action P) (s : NetFlowState P) (n : ℕ)
      → (flag f s.loading ≡ true → 0 < n)
      → flag f (reduce no_filter a s).loading ≡ true
      → 0 < count_one (progress f a) n
  unfolding reduce
  flag-reduce f a s n h e = ground arith

  flag-run :
      (f : Flag) (as' : List (Action P)) (s : NetFlowState P) (n : ℕ)
      → (flag f s.loading ≡ true → 0 < n)
      → flag f (run no_filter as' s).loading ≡ true
      → 0 < in_flight f as' n
  unfolding run
  flag-run f [] s n h e = h e
  flag-run f (a ∷ as') s n h e =
      flag-run f as' (reduce no_filter a s) (count_one (progress f a) n) (flag-reduce f a s n h) e

  -- From the initial state, once no request that raises a flag is in flight the flag is down.
  pub flag_down_when_settled :
      (f : Flag) (as' : List (Action P))
      → in_flight f as' 0 ≡ 0
      → flag f (run no_filter as' (initial_state no_filter)).loading ≡ false
  unfolding initial_state
  flag_down_when_settled f as' e =
      ground (arith, flag-run f as' (initial_state no_filter) 0 (λ up. ground arith))
