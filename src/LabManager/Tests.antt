-- ===== src/LabManager/Tests.antt =====
-- The lab manager at concrete inputs.
use net_test_toy.LabManager.{
  HostFile, HostResult, Lab, LabAnswer, ManagedHost, answered, disconnected, fetch_lab_data,
  fetch_single_host_data, fulfilled, has_id, initial_state, lab_data, reduce, remove_managed_host,
}
use net_test_toy.LabManager.Hosts.{
  IsSaved, after, late_answer, lookup-fetch_lab_data, reduce-IsSaved_hosts,
}
use net_test_toy.Base.{String, [], find, none, refl, some, true, ℕ, ◌∷◌, ◌≡◌}
use net_test_toy.Base.Dict.{lookup}

abbrev host_a : ManagedHost
host_a = record {
  id = "a";
  name = "A";
  url = "http://a";
  enabled = true;
  status = disconnected;
  error = none;
}

abbrev any_file : HostFile
any_file = record { stringify = λ hs. "x"; parse = λ t. none; room = λ s k t. true }

abbrev answer_one : String → LabAnswer ℕ
answer_one url = answered (7 ∷ []) (8 ∷ [])

abbrev start : Lab ℕ
start = record {
  state = record (initial_state any_file []) { managed_hosts = host_a ∷ [] };
  storage = [];
}

abbrev result_a : HostResult ℕ
result_a = record { host_id = "a"; daemons = 7 ∷ []; hosts = []; is_connected = true; error = none }

lookup-fetch_lab_data_example :
    lookup "a"
      (reduce any_file
        (fetch_lab_data (fulfilled (lab_data answer_one (host_a ∷ []))))
        start).state.daemons
    ≡ after answer_one (find (has_id "a") (host_a ∷ [])) (lookup "a" start.state.daemons)
lookup-fetch_lab_data_example =
    lookup-fetch_lab_data any_file "a" answer_one (host_a ∷ []) start (refl, tt) (λ s k t. refl)

late_answer_example :
    lookup "a"
      (reduce any_file
        (fetch_single_host_data (fulfilled result_a))
        (reduce any_file (remove_managed_host "a") start)).state.daemons
    ≡ some (7 ∷ [])
late_answer_example = (late_answer any_file result_a start (λ s k t. refl)).1

abbrev empty : Lab ℕ
empty = record { state = initial_state any_file []; storage = [] }

reduce-IsSaved_hosts_example :
    IsSaved any_file
      (reduce any_file (fetch_lab_data (fulfilled (lab_data answer_one (host_a ∷ [])))) empty)
unfolding initial_state
reduce-IsSaved_hosts_example =
    reduce-IsSaved_hosts any_file (fetch_lab_data (fulfilled (lab_data answer_one (host_a ∷ []))))
      empty refl
