-- ===== src/FlowSpec/Service/Mitigation.antt =====
-- services/flowspecService.ts: the rule that is built from a flow, and the one that is cancelled.
use net_test_toy.FlowSpec.Service.{delete_request_of, rules_request}
use net_test_toy.Http.{Json, Outcome, Request}
use net_test_toy.FlowSpec.Types.{Codec, FlowSpecRule}
use net_test_toy.Base.{String, none, some}

module _ (codec : Codec) (reply : Request → Outcome Json) (client_url backend : String) where
  abbrev pub get_request : Request
  get_request = rules_request codec "GET" client_url backend none

  abbrev pub delete_request : FlowSpecRule → Request
  delete_request rule =
      rules_request codec "DELETE" client_url backend
        (some (codec.write_delete (delete_request_of rule)))
