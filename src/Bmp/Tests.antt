-- ===== src/Bmp/Tests.antt =====
-- The theorems of the BGP monitoring slice at concrete inputs.
use net_test_toy.Bmp.{
  BmpData, BmpState, Peer, Route, client_data, fetch_data, fetch_routes, fulfilled, initial_state,
  of_peer, pending, received, reduce, rejected, run, split_routes, store_answers,
}
use net_test_toy.Bmp.Busy.{flag, flag_down_at_rest, on_stats}
use net_test_toy.Bmp.Content.{add_all, lookup-store_answers, messages-add_all, routes-fetch_routes}
use net_test_toy.Base.{[], arith, false, if◌then◌else◌, none, refl, some, ℕ, ◌==◌, ◌∙◌, ◌∷◌, ◌≡◌}
use net_test_toy.Base.Dict.{lookup}

abbrev start : BmpState ℕ
start = initial_state 0

abbrev peer_a : Peer ℕ
peer_a = record { id = "a"; body = 1 }

abbrev route_in : Route ℕ
route_in = record { route_type = received; body = 7 }

abbrev data_u : BmpData ℕ
data_u = record { peers = peer_a ∷ []; routes = []; rules = []; stats = 3; messages = [] }

flag_down_at_rest_example :
    flag on_stats (run 0 (fetch_data pending ∷ fetch_data (rejected none) ∷ []) start).loading
    ≡ false
flag_down_at_rest_example =
    flag_down_at_rest 0 on_stats (fetch_data pending ∷ fetch_data (rejected none) ∷ []) refl

lookup-store_answers_example :
    lookup {V = BmpData ℕ} "u" (store_answers (("u", client_data data_u) ∷ []) [])
    ≡ (if "u" == "u" then some data_u else none)
lookup-store_answers_example =
    lookup-store_answers "u" (("u", client_data data_u) ∷ []) [] (refl, tt) ∙ ground arith

messages-add_all_example : (add_all 0 "t" (1 ∷ 2 ∷ []) start).messages ≡ 2 ∷ 1 ∷ []
messages-add_all_example = messages-add_all 0 "t" (1 ∷ 2 ∷ []) start (omega arith)

routes-fetch_routes_example :
    lookup "b" (reduce 0 (fetch_routes (fulfilled "t" (of_peer "a" (route_in ∷ [])))) start).routes
    ≡ (if "a" == "b" then some (split_routes (route_in ∷ [])) else none)
routes-fetch_routes_example = (routes-fetch_routes 0 "t" "a" "b" (route_in ∷ []) start).0
