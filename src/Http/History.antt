-- ===== src/Http/History.antt =====
-- utils/apiLogger.ts: the history of the calls. `room` says which lists the storage has room for;
-- a history that is missing or that cannot be read is the empty list.
pub mod Stats
use net_test_toy.Http.{Json}
use net_test_toy.Base.{
  Bool, List, Option, String, [], false, filter, if◌then◌else◌, leb, length, ltb, map, none, not,
  some, suc, take, zero, ℕ, ◌&&◌, ◌*◌, ◌+◌, ◌/◌, ◌<>◌, ◌∷◌,
}
use net_test_toy.Base.Texts.{decimal}
use net_test_toy.Base.Dict.{Dict, insert, lookup}
use net_test_toy.Storage.{or_else}

pub record ErrorInfo : Type 0 where
  pub message : String
  pub name : String

-- `Partial<ApiCallEntry>`, without the headers, the query and the stack of an error, which are
-- only kept
pub record CallData : Type 0 where
  pub timestamp : Option ℕ
  pub url : Option String
  pub endpoint : Option String
  pub method : Option String
  pub body : Option Json
  pub status : Option ℕ
  pub status_text : Option String
  pub response : Option Json
  pub duration : Option ℕ
  pub error_info : Option ErrorInfo

pub record ApiCallEntry : Type 0 where
  pub timestamp : ℕ
  pub url : String
  pub endpoint : String
  pub method : String
  pub body : Option Json
  pub status : Option ℕ
  pub status_text : Option String
  pub response : Option Json
  pub duration : Option ℕ
  pub error_info : Option ErrorInfo
  pub success : Bool

abbrev max_history_entries : ℕ
max_history_entries = 50

-- `n || m`: zero counts as missing.
abbrev number_or : Option ℕ → ℕ → ℕ
number_or none m = m
number_or (some zero) m = m
number_or (some (suc n)) m = suc n

-- `!callData.error && !!callData.status && callData.status >= 200 && callData.status < 300`
abbrev pub is_success : CallData → Bool
is_success c = elim c.error_info [
  | some e ↦ false
  | none ↦ elim c.status [ none ↦ false | some n ↦ leb 200 n && ltb n 300 ]
]

new_entry : ℕ → CallData → ApiCallEntry
new_entry now c = record {
  timestamp = number_or c.timestamp now;
  url = or_else c.url "";
  endpoint = or_else c.endpoint "";
  method = or_else c.method "GET";
  body = c.body;
  status = c.status;
  status_text = c.status_text;
  response = c.response;
  duration = c.duration;
  error_info = c.error_info;
  success = is_success c;
}

unfoldable pub log_api_call :
    (List ApiCallEntry → Bool) → ℕ → CallData → List ApiCallEntry → List ApiCallEntry
unfolding new_entry
log_api_call room now c history =
    let trimmed = take max_history_entries (new_entry now c ∷ history) in
    if room trimmed then trimmed else history

pub clear_api_call_history : List ApiCallEntry → List ApiCallEntry
clear_api_call_history history = []

pub record ApiCallStats : Type 0 where
  pub total_calls : ℕ
  pub successful_calls : ℕ
  pub failed_calls : ℕ
  pub average_duration : ℕ
  pub method_counts : Dict ℕ
  pub status_counts : Dict ℕ
  pub endpoint_counts : Dict ℕ
  pub recent_calls_last24h : ℕ
  pub oldest_call : Option ℕ
  pub newest_call : Option ℕ

-- `counts[k] = (counts[k] || 0) + 1`
abbrev pub tally : String → Dict ℕ → Dict ℕ
tally k m = insert k (suc (elim (lookup k m) [ none ↦ 0 | some n ↦ n ])) m

abbrev pub tally_all : List String → Dict ℕ → Dict ℕ
tally_all [] m = m
tally_all (k ∷ ks) m = tally_all ks (tally k m)

-- `${Math.floor(call.status / 100) * 100}xx`, for the calls that have a status
abbrev status_groups : List ApiCallEntry → List String
status_groups [] = []
status_groups (e ∷ es) = elim e.status [
  | none ↦ status_groups es
  | some zero ↦ status_groups es
  | some (suc n) ↦ (decimal (suc n / 100 * 100) <> "xx") ∷ status_groups es
]

abbrev durations : List ApiCallEntry → List ℕ
durations [] = []
durations (e ∷ es) = elim e.duration [
  | none ↦ durations es
  | some zero ↦ durations es
  | some (suc n) ↦ suc n ∷ durations es
]

abbrev pub sum : List ℕ → ℕ
sum [] = 0
sum (n ∷ ns) = n + sum ns

-- `Math.round(sum / count)`, which rounds a half up; no duration gives zero.
average_of : List ℕ → ℕ
average_of [] = 0
average_of (n ∷ ns) = (2 * sum (n ∷ ns) + length (n ∷ ns)) / (2 * length (n ∷ ns))

last_timestamp : List ApiCallEntry → Option ℕ
last_timestamp [] = none
last_timestamp (e ∷ []) = some e.timestamp
last_timestamp (e ∷ f ∷ es) = last_timestamp (f ∷ es)

first_timestamp : List ApiCallEntry → Option ℕ
first_timestamp [] = none
first_timestamp (e ∷ es) = some e.timestamp

abbrev is_recent : ℕ → ApiCallEntry → Bool
is_recent now e = ltb now (e.timestamp + 24 * 60 * 60 * 1000)

unfoldable pub get_api_call_stats : ℕ → List ApiCallEntry → ApiCallStats
unfolding average_of last_timestamp first_timestamp
get_api_call_stats now history = record {
  total_calls = length history;
  successful_calls = length (filter (λ e. e.success) history);
  failed_calls = length (filter (λ e. not e.success) history);
  average_duration = average_of (durations history);
  method_counts = tally_all (map (λ e. e.method) history) [];
  status_counts = tally_all (status_groups history) [];
  endpoint_counts = tally_all (map (λ e. e.endpoint) history) [];
  recent_calls_last24h = length (filter (is_recent now) history);
  oldest_call = last_timestamp history;
  newest_call = first_timestamp history;
}
