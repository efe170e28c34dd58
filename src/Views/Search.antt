-- ===== src/Views/Search.antt =====
-- store/slices/searchSlice.ts: the search and its history.
use net_test_toy.Base.{
  Bool, Bool-cases, List, Option, String, [], arith, false, if◌then◌else◌, inl, inr, length,
  length-take, none, refl, some, suc, take, true, zero, ℕ, ◌==◌, ◌||◌, ◌∷◌, ◌≡◌, ◌≤◌,
}
use net_test_toy.Base.Texts.{Distinct, includes}

pub data ResultKind : Type 0 where
  link note group : ResultKind

pub record SearchResult : Type 0 where
  pub id : ℕ
  pub kind : ResultKind
  pub title : String
  pub description : Option String
  pub url : Option String
  pub content : Option String
  pub workspace_id : Option ℕ
  pub group_id : Option ℕ

pub record SearchFilters : Type 0 where
  pub show_links : Bool
  pub show_notes : Bool
  pub show_groups : Bool

-- `Partial<SearchFilters>`
pub record SomeFilters : Type 0 where
  pub show_links : Option Bool
  pub show_notes : Option Bool
  pub show_groups : Option Bool

pub record SearchState : Type 0 where
  pub search_term : String
  pub search_results : List SearchResult
  pub search_history : List String
  pub is_searching : Bool
  pub filters : SearchFilters
  pub error : Option String

pub data SearchAction : Type 0 where
  set_search_term : String → SearchAction
  set_search_results : List SearchResult → SearchAction
  add_to_search_history : String → SearchAction
  clear_search_history : SearchAction
  set_is_searching : Bool → SearchAction
  set_filters : SomeFilters → SearchAction
  clear_search : SearchAction
  set_error : Option String → SearchAction

abbrev pub initial_state : SearchState
initial_state = record {
  search_term = "";
  search_results = [];
  search_history = [];
  is_searching = false;
  filters = record { show_links = true; show_notes = true; show_groups = true };
  error = none;
}

-- `if (term && !history.includes(term))`: in front, and the first ten are kept.
unfoldable pub remember : String → List String → List String
remember term history =
    if (term == "") || includes term history then history else take 10 (term ∷ history)

pub given : Option Bool → Bool → Bool
given none b = b
given (some c) b = c

pub merged_filters : SearchFilters → SomeFilters → SearchFilters
merged_filters f g = record {
  show_links = given g.show_links f.show_links;
  show_notes = given g.show_notes f.show_notes;
  show_groups = given g.show_groups f.show_groups;
}

unfoldable pub reduce : SearchState → SearchAction → SearchState
reduce s (set_search_term t) = record s { search_term = t }
reduce s (set_search_results rs) = record s { search_results = rs }
reduce s (add_to_search_history t) = record s { search_history = remember t s.search_history }
reduce s clear_search_history = record s { search_history = [] }
reduce s (set_is_searching b) = record s { is_searching = b }
reduce s (set_filters f) = record s { filters = merged_filters s.filters f }
reduce s clear_search = record s { search_term = ""; search_results = []; is_searching = false }
reduce s (set_error e) = record s { error = e }

abbrev pub run : List SearchAction → SearchState → SearchState
run [] s = s
run (a ∷ actions) s = run actions (reduce s a)

-- At most ten terms, all different, and none of them empty
abbrev pub IsHistory : List String → Type 0
IsHistory ts = (length ts ≤ 10) × Distinct ts × (includes "" ts ≡ false)

take-includes :
    (n : ℕ) (t : String) (ts : List String) → includes t ts ≡ false → includes t (take n ts) ≡ false
take-includes zero t ts h = refl
take-includes (suc n) t [] h = refl
take-includes (suc n) t (u ∷ ts) h = ground (arith, take-includes n t ts)

take-Distinct : (n : ℕ) (ts : List String) → Distinct ts → Distinct (take n ts)
take-Distinct zero ts d = tt
take-Distinct (suc n) [] d = tt
take-Distinct (suc n) (t ∷ ts) (a, d) = (take-includes n t ts a, take-Distinct n ts d)

new-IsHistory :
    (t : String) (ts : List String)
    → ((t == "") || includes t ts) ≡ false
    → IsHistory ts
    → IsHistory (take 10 (t ∷ ts))
new-IsHistory t ts new (l, d, e) = (
  omega (arith, length-take 10 (t ∷ ts)),
  take-Distinct 10 (t ∷ ts) (ground (arith, new), d),
  take-includes 10 "" (t ∷ ts) (ground (arith, new, e)),
)

remember-IsHistory : (t : String) (ts : List String) → IsHistory ts → IsHistory (remember t ts)
unfolding remember
remember-IsHistory t ts h = elim (Bool-cases ((t == "") || includes t ts)) [
  | inl known ↦ rw known h
  | inr new ↦ rw new (new-IsHistory t ts new h)
]

-- The search history has at most ten terms, all different and none of them empty, whatever is
-- dispatched.
pub reduce-IsHistory :
    (a : SearchAction) (s : SearchState)
    → IsHistory s.search_history
    → IsHistory (reduce s a).search_history
unfolding reduce
reduce-IsHistory (add_to_search_history t) s h = remember-IsHistory t s.search_history h
reduce-IsHistory clear_search_history s h = ground arith
reduce-IsHistory (set_search_term t) s h = h
reduce-IsHistory (set_search_results rs) s h = h
reduce-IsHistory (set_is_searching b) s h = h
reduce-IsHistory (set_filters f) s h = h
reduce-IsHistory clear_search s h = h
reduce-IsHistory (set_error e) s h = h
