-- ===== src/Testing.antt =====
-- store/networkTestingSlice.ts: the reducer.
mod Types
pub mod History
mod Tests
pub use Types.*
use net_test_toy.Base.{List, String, [], false, none, some, true, ◌++◌, ◌∷◌}
use net_test_toy.Base.Dict.{erase, insert}
use net_test_toy.Storage.{truthy}
use net_test_toy.Base.Buffer.{cut}

abbrev no_test : CurrentTest
no_test = record {
  id = none;
  tool = none;
  source_ip = none;
  target_ip = none;
  is_running = false;
  output = [];
  error = none;
}

abbrev no_view : ViewingTest
no_view = record { id = none; output = [] }

-- The result that goes into the history.
abbrev result_of : String → String → CurrentTest → TestResult
result_of now id c = record {
  id = id;
  tool = c.tool;
  source_ip = c.source_ip;
  target_ip = c.target_ip;
  start_time = now;
  end_time = none;
  status = elim (truthy c.error) [ none ↦ finished | some e ↦ failed ];
  output = c.output;
  error = truthy c.error;
}

module _ {P : Type 0} where
  abbrev pub initial_state : TestingState P
  initial_state = record {
    active_tests = [];
    current_test = no_test;
    viewing_test = no_view;
    test_history = [];
    selected_tool = ping;
    selected_source_host = "";
    selected_source_ip = "";
    selected_target_host = "";
    selected_target_ip = "";
    active_tab_name = test_tab;
  }

  -- Only the last 50 tests stay in the history; a test without an id is not recorded.
  test_finished : String → TestingState P → TestingState P
  test_finished now s =
      let c = s.current_test in
      record s {
        current_test = record c { is_running = false };
        test_history = elim (truthy c.id) [
          | none ↦ s.test_history
          | some id ↦ cut 50 (result_of now id c ∷ s.test_history)
        ];
      }

  test_started : String → Tool → String → String → TestingState P → TestingState P
  test_started id tool source target s = record s {
    current_test = record {
      id = some id;
      tool = some tool;
      source_ip = some source;
      target_ip = some target;
      is_running = true;
      output = [];
      error = none;
    };
  }

  pub reduce : Action P → TestingState P → TestingState P
  unfolding test_finished test_started
  reduce (set_active_tests port tests) s = record s {
    active_tests = insert port tests s.active_tests;
  }
  reduce (clear_active_tests port) s = record s { active_tests = erase port s.active_tests }
  reduce (start_test id tool source target) s = test_started id tool source target s
  reduce (append_test_output line) s =
      let c = s.current_test in
      record s { current_test = record c { output = c.output ++ line ∷ [] } }
  reduce (set_test_error e) s =
      let c = s.current_test in
      record s { current_test = record c { error = some e; is_running = false } }
  reduce (finish_test now) s = test_finished now s
  reduce clear_current_test s = record s { current_test = no_test }
  reduce (start_viewing_test id) s = record s {
    viewing_test = record { id = some id; output = [] };
  }
  reduce (append_viewing_output line) s =
      let v = s.viewing_test in
      record s { viewing_test = record v { output = v.output ++ line ∷ [] } }
  reduce stop_viewing_test s = record s { viewing_test = no_view }
  reduce (set_selected_tool t) s = record s { selected_tool = t }
  reduce (set_selected_source_host h) s = record s { selected_source_host = h }
  reduce (set_selected_source_ip i) s = record s { selected_source_ip = i }
  reduce (set_selected_target_host h) s = record s { selected_target_host = h }
  reduce (set_selected_target_ip i) s = record s { selected_target_ip = i }
  reduce (set_active_tab t) s = record s { active_tab_name = t }
  reduce clear_all_testing_state s = initial_state

  pub run : List (Action P) → TestingState P → TestingState P
  run [] s = s
  run (a ∷ as') s = run as' (reduce a s)
