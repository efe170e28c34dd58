-- ===== src/Http/Tests.antt =====
-- Runs of a call and of the history at concrete inputs.
use net_test_toy.Http.{Json, Outcome, array, error, is_returned, nil, returned, thrown}
use net_test_toy.Http.History.{ApiCallEntry, CallData, get_api_call_stats, log_api_call}
use net_test_toy.Http.Wrapper.{
  FetchOptions, Response, as_json, contains, endpoint_of, fetch_wrapper, json_value,
}
use net_test_toy.Http.Wrapper.Logged.{IsTold, failed_twice, fetch_wrapper-IsTold, unreadable_body}
use net_test_toy.Http.History.Stats.{Counted, length-log_all, log_all, log_api_call-Counted}
use net_test_toy.Base.{
  List, String, [], arith, false, if◌then◌else◌, length, none, refl, some, text_dec, true, ◌==◌,
  ◌∷◌, ◌≡◌, ◌≤◌,
}
use net_test_toy.Base.Texts.{decimal}

abbrev options : FetchOptions
options = record {
  method = some "DELETE";
  body = none;
  suppress_logs = false;
  response_type = as_json;
  timeout = none;
}

-- A parser that knows one text
abbrev parse : String → Outcome Json
parse t =
    if t == "[]" then returned (array nil) else thrown (error "SyntaxError" "Unexpected token")

abbrev missing : Response
missing = record {
  status = 404;
  status_text = "Not Found";
  content = returned "";
  blob_size = returned 0;
}

fetch_wrapper-IsTold_example :
    IsTold parse options "http://h/hosts/a"
      (fetch_wrapper parse options "http://h/hosts/a" 12 13 (returned missing))
fetch_wrapper-IsTold_example =
    fetch_wrapper-IsTold parse options "http://h/hosts/a" 12 13 (returned missing)

logged_twice :
    length (fetch_wrapper parse options "http://h/hosts/a" 12 13 (returned missing)).logged ≡ 2
unfolding contains text_dec decimal
logged_twice = failed_twice parse options "http://h/hosts/a" 12 13 missing refl refl refl refl

-- The call that logs in: its body is a form, and the answer is good.
abbrev login_options : FetchOptions
login_options = record options { method = some "POST"; body = some "grant_type=code" }

abbrev granted : Response
granted = record missing { status = 200; content = returned "[]" }

unreadable_body_example :
    (is_returned (fetch_wrapper parse login_options "u" 5 6 (returned granted)).outcome ≡ false)
    × ((fetch_wrapper parse login_options "u" 5 6 (returned granted)).logged ≡ [])
unfolding text_dec
unreadable_body_example =
    unreadable_body parse login_options "u" 5 6 (returned granted) "grant_type=code"
      (error "SyntaxError" "Unexpected token") refl refl refl refl

fetched :
    (fetch_wrapper parse options "u" 5 6
      (returned (record missing { status = 200; content = returned "[]" }))).outcome
    ≡ returned (json_value (array nil))
unfolding fetch_wrapper text_dec
fetched = refl

abbrev sample_call : CallData
sample_call = record {
  timestamp = some 100;
  url = some "http://h/hosts";
  endpoint = some "/hosts";
  method = none;
  body = none;
  status = some 200;
  status_text = some "OK";
  response = none;
  duration = some 8;
  error_info = none;
}

length-log_all_example :
    length (log_all (λ h. true) ((1, sample_call) ∷ (2, sample_call) ∷ []) []) ≤ 50
length-log_all_example =
    length-log_all (λ h. true) ((1, sample_call) ∷ (2, sample_call) ∷ []) [] (omega arith)

abbrev sample_history : List ApiCallEntry
sample_history = log_all (λ h. true) ((1, sample_call) ∷ (2, sample_call) ∷ []) []

log_api_call-Counted_example :
    Counted 3 sample_call
      (get_api_call_stats 9 sample_history)
      (get_api_call_stats 9 (log_api_call (λ h. true) 3 sample_call sample_history))
unfolding log_api_call
log_api_call-Counted_example =
    log_api_call-Counted (λ h. true) 3 9 sample_call sample_history (omega arith) refl

averaged : (get_api_call_stats 9 sample_history).average_duration ≡ 8
unfolding get_api_call_stats log_api_call
averaged = refl

shortened : endpoint_of "https://h:8010/topologies/lab" ≡ "/topologies/lab"
unfolding endpoint_of
shortened = refl
