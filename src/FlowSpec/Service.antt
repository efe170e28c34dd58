-- ===== src/FlowSpec/Service.antt =====
-- services/flowspecService.ts: the requests, and the rule that mitigates a flow.
pub mod Mitigation
use net_test_toy.Http.{
  Fault, Json, Prog, Request, array, bind, error, fetch, json_or, lift, nil, read, stop,
}
use net_test_toy.FlowSpec.Types.{Codec, Flow, FlowSpecAction, FlowSpecDeleteRequest, FlowSpecRule}
use net_test_toy.Base.{
  Bool, List, Option, String, [], false, find, leb, none, some, suc, true, zero, ℕ, ◌&&◌, ◌<>◌,
  ◌==◌,
}
use net_test_toy.Storage.{or_else}

module _ (codec : Codec) where
  unfoldable pub rules_request : String → String → String → Option Json → Request
  rules_request method client_url backend body = record {
    method = method;
    url = client_url <> ("/flowspec?backend=" <> backend);
    query = [];
    body = body;
  }

  unfoldable pub fetch_rules : String → String → Prog (List FlowSpecRule)
  unfolding rules_request
  fetch_rules client_url backend =
      bind (fetch (rules_request "GET" client_url backend none)) (λ data'.
        bind (lift (read "rules" data')) (λ o. lift (codec.read_rules (json_or (array nil) o))))

  pub create_rule : String → FlowSpecRule → String → Prog Json
  unfolding rules_request
  create_rule client_url rule backend =
      fetch (rules_request "POST" client_url backend (some (codec.write_rule rule)))

  unfoldable pub delete_rule : String → FlowSpecDeleteRequest → String → Prog Json
  unfolding rules_request
  delete_rule client_url rule backend =
      fetch (rules_request "DELETE" client_url backend (some (codec.write_delete rule)))

-- `a === b` on texts that may be missing
abbrev same_text : Option String → String → Bool
same_text none s = false
same_text (some t) s = t == s

abbrev same_number : ℕ → Option ℕ → Bool
same_number n none = false
same_number n (some m) = leb n m && leb m n

-- `!wanted || wanted === given`: zero counts as missing.
abbrev unless_set : Option ℕ → Option ℕ → Bool
unless_set none given = true
unless_set (some zero) given = true
unless_set (some (suc n)) given = same_number (suc n) given

abbrev pub host_prefix : String → String
host_prefix address = address <> "/32"

-- The test of a rule in `findMatchingRule`
unfoldable pub mitigates : Flow → FlowSpecRule → Bool
mitigates flow rule =
    let m = rule.rule_match in
    same_text m.destination (host_prefix flow.dst_addr)
    && same_text m.source (host_prefix flow.src_addr)
    && unless_set m.protocol flow.protocol
    && unless_set m.destination_port flow.dst_port

unfoldable pub find_matching_rule : List FlowSpecRule → Flow → Option FlowSpecRule
unfolding mitigates
find_matching_rule rules flow = find (mitigates flow) rules

unfoldable pub build_rule_from_flow : Flow → FlowSpecAction → FlowSpecRule
build_rule_from_flow flow action = record {
  id = none;
  family = some "ipv4";
  rule_match = record {
    source = some (host_prefix flow.src_addr);
    destination = some (host_prefix flow.dst_addr);
    protocol = flow.protocol;
    source_port = flow.src_port;
    destination_port = flow.dst_port;
    port = none;
    tcp_flags = none;
    packet_length = none;
    fragment = none;
  };
  actions = action;
  timestamp = none;
  backend = none;
}

-- `{ family: rule.family || 'ipv4', match: rule.match, actions: rule.actions }`
abbrev pub delete_request_of : FlowSpecRule → FlowSpecDeleteRequest
delete_request_of rule = record {
  family = or_else rule.family "ipv4";
  rule_match = rule.rule_match;
  actions = rule.actions;
}

abbrev pub no_rule : Fault
no_rule = error "Error" "No matching FlowSpec rule found for this flow"

unfoldable pub cancel_mitigation : Codec → String → Flow → String → Prog Json
cancel_mitigation codec client_url flow backend =
    bind (fetch_rules codec client_url backend) (λ rules. elim (find_matching_rule rules flow) [
      | none ↦ stop no_rule
      | some rule ↦ delete_rule codec client_url (delete_request_of rule) backend
    ])
