-- ===== src/Views/Tests.antt =====
-- Runs of the reducers at concrete inputs.
use net_test_toy.Views.Banner as Banner
use net_test_toy.Views.Search as Search
use net_test_toy.Views.Banner.{Banner, added, dismiss_banner, info, set_current_banner}
use net_test_toy.Views.Search.{SearchState, add_to_search_history}
use net_test_toy.Base.{List, String, [], none, refl, some, ◌∷◌, ◌≡◌}

abbrev banner : String → Banner
banner i = record {
  id = i;
  message = "BGP session lost";
  kind = info;
  timestamp = "";
  dismissible = none;
  auto_hide = none;
  duration = none;
}

abbrev two : List Banner
two = banner "a" ∷ banner "b" ∷ []

abbrev searched : SearchState
searched =
    Search.run
      (add_to_search_history "ospf"
        ∷ add_to_search_history "bgp"
        ∷ add_to_search_history "ospf"
        ∷ [])
      Search.initial_state

searched_terms : searched.search_history ≡ "bgp" ∷ "ospf" ∷ []
unfolding Search.reduce Search.remember net_test_toy.Base.text_dec
searched_terms = refl

-- A dismissed message is gone from the list, and from the screen.
dismissed :
    Banner.run
      (set_current_banner (some (banner "a")) ∷ dismiss_banner "a" ∷ [])
      (Banner.run (added two) Banner.initial_state)
    ≡ record Banner.initial_state { banners = banner "b" ∷ [] }
unfolding Banner.reduce Banner.last_fifty net_test_toy.Base.text_dec
dismissed = refl
