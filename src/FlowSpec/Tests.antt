-- ===== src/FlowSpec/Tests.antt =====
-- A mitigation at concrete inputs. The server's answer has one list of rules, whatever it says.
use net_test_toy.FlowSpec.{
  Codec, Flow, FlowSpecAction, build_rule_from_flow, fetch_action, initial_state, mitigates,
  pending, reduce,
}
use net_test_toy.Http.{Json, Outcome, Request, empty, object, returned, text}
use net_test_toy.Base.{[], none, refl, some, text_dec, true, ◌∷◌, ◌≡◌}
use net_test_toy.Storage.{or_else}

abbrev flow : Flow
flow = record {
  src_addr = "10.0.0.7";
  dst_addr = "10.0.0.9";
  src_port = none;
  dst_port = some 53;
  protocol = some 17;
}

abbrev drop_it : FlowSpecAction
drop_it = record { action = "drop"; rate = none; redirect = none; mark = none }

abbrev codec : Codec
codec = record {
  read_rules = λ v. returned (build_rule_from_flow flow drop_it ∷ []);
  write_rule = λ r. text (or_else r.family "");
  write_delete = λ r. text r.family;
}

abbrev answer : Request → Outcome Json
answer r = returned (object empty)

-- The source port is not compared: the rule of another source port is cancelled.
other_port :
    mitigates (record flow { src_port = some 4000 }) (build_rule_from_flow flow drop_it) ≡ true
unfolding mitigates build_rule_from_flow text_dec
other_port = refl

started : (reduce (fetch_action pending) initial_state).is_loading ≡ true
unfolding reduce
started = refl
