-- ===== src/NetFlow/Tests.antt =====
-- Runs of the reducer at concrete inputs. Records are numbers.
use net_test_toy.NetFlow.{
  NetFlowState, add_record, fetch_records, initial_state, reduce, run, stop_collector,
}
use net_test_toy.Thunk.{fulfilled, pending, rejected}
use net_test_toy.NetFlow.Busy.{flag, flag_down_when_settled, on_records}
use net_test_toy.NetFlow.Content.{IsBounded, add_all, arrivals, reduce-IsBounded}
use net_test_toy.Base.{[], arith, false, none, refl, take, true, ℕ, ◌∷◌, ◌≡◌}

abbrev streaming : NetFlowState ℕ
streaming = record (initial_state 0) { streaming_enabled = true; max_buffer_size = 2 }

arrivals_example :
    ((add_all 0 "now" (1 ∷ 2 ∷ 3 ∷ []) streaming).records ≡ take 10000 (3 ∷ 2 ∷ 1 ∷ []))
    × ((add_all 0 "now" (1 ∷ 2 ∷ 3 ∷ []) streaming).stream_buffer ≡ 3 ∷ 2 ∷ [])
unfolding initial_state
arrivals_example = arrivals 0 "now" (1 ∷ 2 ∷ 3 ∷ []) streaming refl (omega arith) (omega arith)

reduce-IsBounded_example : IsBounded (reduce 0 (add_record "now" 7) streaming)
unfolding initial_state
reduce-IsBounded_example = reduce-IsBounded 0 (add_record "now" 7) streaming refl (omega arith)

flag_down_when_settled_example :
    flag on_records
      (run {P = ℕ} 0
        (fetch_records pending ∷ fetch_records (rejected none) ∷ [])
        (initial_state 0)).loading
    ≡ false
flag_down_when_settled_example =
    flag_down_when_settled 0 on_records (fetch_records pending ∷ fetch_records (rejected none) ∷ [])
      refl

-- Where the collector stops, streaming is off and the stream buffer is not emptied.
kept_buffer :
    (run 0 (add_record "a" 7 ∷ stop_collector (fulfilled "b" 0) ∷ []) streaming).stream_buffer
    ≡ 7 ∷ []
unfolding run reduce initial_state
kept_buffer = refl
