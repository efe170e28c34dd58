-- ===== src/FlowSpec/Types.antt =====
-- services/flowspecService.ts, store/flowspecSlice.ts: rules, the state and the actions.
use net_test_toy.Http.{Json, Outcome}
use net_test_toy.Base.{Bool, List, Option, String, ℕ}
use net_test_toy.Base.Dict.{Dict}

pub record FlowSpecMatch : Type 0 where
  pub source : Option String
  pub destination : Option String
  pub protocol : Option ℕ
  pub source_port : Option ℕ
  pub destination_port : Option ℕ
  pub port : Option ℕ
  pub tcp_flags : Option (List String)
  pub packet_length : Option ℕ
  pub fragment : Option String

pub record FlowSpecAction : Type 0 where
  pub action : String
  pub rate : Option ℕ
  pub redirect : Option String
  pub mark : Option ℕ

pub record FlowSpecRule : Type 0 where
  pub id : Option String
  pub family : Option String
  pub rule_match : FlowSpecMatch
  pub actions : FlowSpecAction
  pub timestamp : Option String
  pub backend : Option String

pub record FlowSpecDeleteRequest : Type 0 where
  pub family : String
  pub rule_match : FlowSpecMatch
  pub actions : FlowSpecAction

pub record Flow : Type 0 where
  pub src_addr : String
  pub dst_addr : String
  pub src_port : Option ℕ
  pub dst_port : Option ℕ
  pub protocol : Option ℕ

-- How rules are read from an answer and written into a request
pub record Codec : Type 0 where
  pub read_rules : Json → Outcome (List FlowSpecRule)
  pub write_rule : FlowSpecRule → Json
  pub write_delete : FlowSpecDeleteRequest → Json

pub record FlowSpecState : Type 0 where
  pub rules_by_client : Dict (List FlowSpecRule)
  pub is_loading : Bool
  pub is_deleting : Bool
  pub is_creating : Bool
  pub error_text : Option String
  pub success_message : Option String
  pub selected_backend : String

-- What the thunks settle with
pub record ClientRules : Type 0 where
  pub client_url : String
  pub rules : List FlowSpecRule

pub data RuleStage : Type 0 where
  pending : RuleStage
  fulfilled : ClientRules → RuleStage
  rejected : Option String → RuleStage

pub data RuleAction : Type 0 where
  set_selected_backend : String → RuleAction
  clear_error clear_success_message reset_state : RuleAction
  fetch_action create_action delete_action cancel_action : RuleStage → RuleAction
