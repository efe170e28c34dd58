-- ===== src/Testing/Types.antt =====
-- store/networkTestingSlice.ts: the state of the network tests and the actions on it.
-- `P` stands for the running tests that the service lists, which the slice only stores.
use net_test_toy.Base.{Bool, List, Option, String}
use net_test_toy.Base.Dict.{Dict}

pub data Tool : Type 0 where
  ping traceroute iperf hping curl : Tool

pub data TestStatus : Type 0 where
  running finished failed : TestStatus

-- `tool`, `sourceIP` and `targetIP` come from fields that may be `null`.
pub record TestResult : Type 0 where
  pub id : String
  pub tool : Option Tool
  pub source_ip : Option String
  pub target_ip : Option String
  pub start_time : String
  pub end_time : Option String
  pub status : TestStatus
  pub output : List String
  pub error : Option String

pub record CurrentTest : Type 0 where
  pub id : Option String
  pub tool : Option Tool
  pub source_ip : Option String
  pub target_ip : Option String
  pub is_running : Bool
  pub output : List String
  pub error : Option String

pub record ViewingTest : Type 0 where
  pub id : Option String
  pub output : List String

pub data Tab : Type 0 where
  test_tab active_tab hosts_tab : Tab

pub record TestingState (P : Type 0) : Type 0 where
  pub active_tests : Dict (List P)
  pub current_test : CurrentTest
  pub viewing_test : ViewingTest
  pub test_history : List TestResult
  pub selected_tool : Tool
  pub selected_source_host : String
  pub selected_source_ip : String
  pub selected_target_host : String
  pub selected_target_ip : String
  pub active_tab_name : Tab

pub data Action (P : Type 0) : Type 0 where
  set_active_tests : String → List P → Action P
  clear_active_tests : String → Action P
  start_test : String → Tool → String → String → Action P
  append_test_output : String → Action P
  set_test_error : String → Action P
  -- with the time of the reducer as an ISO text
  finish_test : String → Action P
  clear_current_test : Action P
  start_viewing_test : String → Action P
  append_viewing_output : String → Action P
  stop_viewing_test : Action P
  set_selected_tool : Tool → Action P
  set_selected_source_host : String → Action P
  set_selected_source_ip : String → Action P
  set_selected_target_host : String → Action P
  set_selected_target_ip : String → Action P
  set_active_tab : Tab → Action P
  clear_all_testing_state : Action P
