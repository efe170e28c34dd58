-- ===== src/FlowSpec.antt =====
-- store/flowspecSlice.ts: the reducer and the thunks.
mod Types
pub mod Service
mod Tests
pub use Types.*
unfoldable pub use Service.*
use net_test_toy.Http.{Prog, bind, done, fetch}
use net_test_toy.Base.{String, [], false, none, some, true, ◌*◌}
use net_test_toy.Base.Dict.{insert}
use net_test_toy.Storage.{or_else}

pub initial_state : FlowSpecState
initial_state = record {
  rules_by_client = [];
  is_loading = false;
  is_deleting = false;
  is_creating = false;
  error_text = none;
  success_message = none;
  selected_backend = "gobgp";
}

abbrev rules_stored : ClientRules → FlowSpecState → FlowSpecState
rules_stored p s = record s { rules_by_client = insert p.client_url p.rules s.rules_by_client }

fetch_stage : RuleStage → FlowSpecState → FlowSpecState
fetch_stage pending s = record s { is_loading = true; error_text = none }
fetch_stage (fulfilled p) s = record (rules_stored p s) { is_loading = false }
fetch_stage (rejected m) s = record s {
  is_loading = false;
  error_text = some (or_else m "Failed to fetch FlowSpec rules");
}

create_stage : RuleStage → FlowSpecState → FlowSpecState
create_stage pending s = record s { is_creating = true; error_text = none }
create_stage (fulfilled p) s = record (rules_stored p s) {
  is_creating = false;
  success_message = some "FlowSpec rule created successfully";
}
create_stage (rejected m) s = record s {
  is_creating = false;
  error_text = some (or_else m "Failed to create FlowSpec rule");
}

delete_stage : RuleStage → FlowSpecState → FlowSpecState
delete_stage pending s = record s { is_deleting = true; error_text = none }
delete_stage (fulfilled p) s = record (rules_stored p s) {
  is_deleting = false;
  success_message = some "FlowSpec rule deleted successfully";
}
delete_stage (rejected m) s = record s {
  is_deleting = false;
  error_text = some (or_else m "Failed to delete FlowSpec rule");
}

cancel_stage : RuleStage → FlowSpecState → FlowSpecState
cancel_stage pending s = record s { is_deleting = true; error_text = none }
cancel_stage (fulfilled p) s = record (rules_stored p s) {
  is_deleting = false;
  success_message = some "FlowSpec mitigation cancelled successfully";
}
cancel_stage (rejected m) s = record s {
  is_deleting = false;
  error_text = some (or_else m "Failed to cancel FlowSpec mitigation");
}

pub reduce : RuleAction → FlowSpecState → FlowSpecState
unfolding fetch_stage create_stage delete_stage cancel_stage initial_state
reduce (set_selected_backend b) s = record s { selected_backend = b }
reduce clear_error s = record s { error_text = none }
reduce clear_success_message s = record s { success_message = none }
reduce reset_state s = initial_state
reduce (fetch_action t) s = fetch_stage t s
reduce (create_action t) s = create_stage t s
reduce (delete_action t) s = delete_stage t s
reduce (cancel_action t) s = cancel_stage t s

module _ (codec : Codec) where
  -- The rules of the client are fetched again after each change.
  refetched : {A : Type 0} → String → String → Prog A → Prog ClientRules
  refetched client_url backend change = bind change (λ a.
      bind (fetch_rules codec client_url backend)
        (λ rules. done (record { client_url = client_url; rules = rules })))

  pub fetch_flow_spec_rules : String → String → Prog ClientRules
  fetch_flow_spec_rules client_url backend =
      bind (fetch_rules codec client_url backend)
        (λ rules. done (record { client_url = client_url; rules = rules }))

  pub create_flow_spec_rule : String → FlowSpecRule → String → Prog ClientRules
  unfolding refetched
  create_flow_spec_rule client_url rule backend =
      refetched client_url backend (create_rule codec client_url rule backend)

  pub delete_flow_spec_rule : String → FlowSpecRule → String → Prog ClientRules
  unfolding refetched
  delete_flow_spec_rule client_url rule backend =
      refetched client_url backend (delete_rule codec client_url (delete_request_of rule) backend)

  pub cancel_flow_spec_mitigation : String → Flow → String → Prog ClientRules
  unfolding refetched
  cancel_flow_spec_mitigation client_url flow backend =
      refetched client_url backend (cancel_mitigation codec client_url flow backend)
