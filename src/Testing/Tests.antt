-- ===== src/Testing/Tests.antt =====
-- The network tests at concrete inputs.
use text.Mathlib.TextEquality.{eq_iff}
use net_test_toy.Testing.{TestingState, finish_test, initial_state, ping, reduce, run, start_test}
use net_test_toy.Testing.History.{finish_test_twice, record_of, test_history-whole_test, whole_test}
use net_test_toy.Base.{[], arith, map, none, take, ℕ, ◌∷◌, ◌≡◌}

abbrev start : TestingState ℕ
start = initial_state

test_history-whole_test_example :
    (run
      (whole_test "t1" ping "10.0.0.1" "10.0.0.2" ("a" ∷ "b" ∷ []) none "now")
      start).test_history
    ≡ record_of "t1" ping "10.0.0.1" "10.0.0.2" ("a" ∷ "b" ∷ []) none "now" ∷ []
test_history-whole_test_example =
    (test_history-whole_test "t1" ping "10.0.0.1" "10.0.0.2" ("a" ∷ "b" ∷ []) none "now" start
      (λ e. ground (arith, eq_iff "t1" ""))).0

finish_test_twice_example :
    take 2 (
      map
        (λ r. r.id)
        (run
          (finish_test "now" ∷ finish_test "later" ∷ [])
          (reduce (start_test "t1" ping "a" "b") start)).test_history)
    ≡ "t1" ∷ "t1" ∷ []
unfolding reduce
finish_test_twice_example =
    finish_test_twice "t1" "now" "later" (reduce (start_test "t1" ping "a" "b") start)
      (ground (arith, eq_iff "t1" ""))
