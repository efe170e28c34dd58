-- ===== src/Health/Tests.antt =====
-- Checks of clients at concrete inputs. The parser takes every text for `null`.
use net_test_toy.Health.{
  Client, Fetched, called, check_health, check_health_lem, check_multiple_connections,
  connected-check_multiple_connections, id_of, is_connected, late-check_health, without_value,
}
use net_test_toy.Http.{Json, Outcome, error, null, returned, thrown}
use net_test_toy.Http.Wrapper.{Response}
use net_test_toy.Base.{
  String, [], arith, false, filter, if◌then◌else◌, map, text_dec, ◌==◌, ◌∷◌, ◌≡◌,
}

abbrev parse : String → Outcome Json
parse t = returned null

abbrev up : Client
up = record { id = "a"; base_url = "http://a" }

abbrev down : Client
down = record { id = "b"; base_url = "http://b" }

abbrev good : Response
good = record { status = 200; status_text = "OK"; content = returned "[]"; blob_size = returned 2 }

-- `http://a` answers in time, `http://b` does not.
abbrev network : Client → Fetched
network c = record {
  head_at = if c.base_url == "http://a" then 20 else 6000;
  body_at = 30;
  late = 6;
  given = returned good;
}

connected-check_multiple_connections_example :
    map (id_of parse "aborted") (
      filter
        (is_connected parse "aborted")
        (check_multiple_connections parse "aborted" 5000 network (down ∷ up ∷ [])))
    ≡ "a" ∷ []
unfolding text_dec
connected-check_multiple_connections_example =
    connected-check_multiple_connections parse "aborted" 5000 network (down ∷ up ∷ [])

check_health_lem_example :
    (check_health parse "aborted" "http://b" 5000 false (network down)).0
    ≡ without_value (called parse "aborted" "http://b" 5000 false (network down)).outcome
check_health_lem_example = check_health_lem parse "aborted" "http://b" 5000 false (network down)

late_check :
    (check_health parse "aborted" "http://b" 5000 false (network down)).0
    ≡ thrown (error "TimeoutError" "Request timed out after 30000ms")
unfolding text_dec
late_check = late-check_health parse "aborted" "http://b" 5000 false (network down) (omega arith)
