-- ===== src/Http/Wrapper.antt =====
-- utils/fetchWrapper.ts: one call, from what the browser's `fetch` gives to what the caller gets
-- and what goes into the history.
pub mod Answered
pub mod Logged
use Prim.Native.Char.{code, Char}
use net_test_toy.Http.{
  Fault, Json, Outcome, and_then, empty, error, field, null, number, object, other, returned, text,
  thrown,
}
use net_test_toy.Http.History.{CallData, ErrorInfo}
use net_test_toy.Base.{
  Bool, List, Option, String, [], false, if◌then◌else◌, leb, none, some, true, ℕ, ◌&&◌, ◌++◌, ◌<>◌,
  ◌==◌, ◌||◌, ◌∷◌,
}
use net_test_toy.Base.Texts.{decimal}
use net_test_toy.Storage.{or_else, truthy}

pub data ResponseType : Type 0 where
  as_json as_blob : ResponseType

-- `body` is the text that is sent. A timeout that is not given is 30 seconds.
pub record FetchOptions : Type 0 where
  pub method : Option String
  pub body : Option String
  pub suppress_logs : Bool
  pub response_type : ResponseType
  pub timeout : Option ℕ

-- A response; reading its text or its blob can fail.
pub record Response : Type 0 where
  pub status : ℕ
  pub status_text : String
  pub content : Outcome String
  pub blob_size : Outcome ℕ

-- What the caller gets: a blob is known by its size.
pub data Received : Type 0 where
  json_value : Json → Received
  blob_value : (size : ℕ) → Received

-- `s.startsWith(t)`
starts_with : String → String → Bool
starts_with s String.[] = true
starts_with String.[] (String.◌∷◌ d t) = false
starts_with (String.◌∷◌ c s) (String.◌∷◌ d t) =
    leb (code c) (code d) && leb (code d) (code c) && starts_with s t

-- `s.includes(t)`
unfoldable pub contains : String → String → Bool
unfolding starts_with
contains String.[] t = starts_with "" t
contains (String.◌∷◌ c s) t = starts_with (String.◌∷◌ c s) t || contains s t

is_slash : Char → Bool
is_slash c = leb (code c) 47 && leb 47 (code c)

from_slash : String → String
unfolding is_slash
from_slash String.[] = ""
from_slash (String.◌∷◌ c s) = let rest = from_slash s in if is_slash c then String.◌∷◌ c s else rest

-- What is left of `url` when `scheme` and a host are taken off its front
without_host : String → String → Option String
unfolding is_slash from_slash
without_host String.[] String.[] = none
without_host (String.◌∷◌ c s) String.[] = if is_slash c then none else some (from_slash s)
without_host String.[] (String.◌∷◌ d t) = none
without_host (String.◌∷◌ c s) (String.◌∷◌ d t) =
    let rest = without_host s t in
    if leb (code c) (code d) && leb (code d) (code c) then rest else none

-- `url.replace(/^https?:\/\/[^\/]+/, '')`
unfoldable pub endpoint_of : String → String
unfolding without_host
endpoint_of url = elim (without_host url "https://") [
  | some path ↦ path
  | none ↦ elim (without_host url "http://") [ some path ↦ path | none ↦ url ]
]

-- What every entry of the call has beside the body. `duration` is measured by the clock.
common_data : FetchOptions → String → ℕ → CallData
unfolding endpoint_of
common_data options url duration = record {
  timestamp = none;
  url = some url;
  endpoint = some (endpoint_of url);
  method = some (or_else options.method "GET");
  body = none;
  status = none;
  status_text = none;
  response = none;
  duration = some duration;
  error_info = none;
}

-- A call ends with an outcome and the entries it has logged.
pub record Call : Type 0 where
  pub outcome : Outcome Received
  pub logged : List CallData

abbrev is_http_text : Fault → Bool
is_http_text (error name message) = contains message "HTTP"
is_http_text (other shown) = false

-- `err instanceof Error && err.name === 'AbortError'`
abbrev pub is_abort : Fault → Bool
is_abort (error name message) = name == "AbortError"
is_abort (other shown) = false

fault_info : Fault → ErrorInfo
fault_info (error name message) = record { message = message; name = name }
fault_info (other shown) = record { message = shown; name = "Error" }

-- `response.ok`
abbrev pub is_ok : Response → Bool
is_ok r = leb 200 r.status && leb r.status 299

-- The text of a failed response, or its status text
abbrev pub error_message : Response → String
error_message r = elim r.content [
  | returned t ↦ if t == "" then r.status_text else t
  | thrown f ↦ r.status_text
]

abbrev pub http_message : Response → String
http_message r = decimal r.status <> (" " <> error_message r)

module _ (parse : String → Outcome Json) (options : FetchOptions) (url : String) where
  -- `options.body ? JSON.parse(options.body) : undefined`
  abbrev pub shown_body : Outcome (Option Json)
  shown_body = elim (truthy options.body) [
    | none ↦ returned none
    | some t ↦ and_then (parse t) (λ v. returned (some v))
  ]

  -- `if (!options.suppressLogs) logApiCall({ …, body: … })`, which throws for a body that is not JSON
  abbrev pub log : CallData → Outcome (List CallData)
  log entry =
      if options.suppress_logs
      then returned []
      else and_then shown_body (λ b. returned (record entry { body = b } ∷ []))

  abbrev timeout_ms : ℕ
  timeout_ms = elim options.timeout [ none ↦ 30000 | some n ↦ n ]

  -- An end of the `catch` block: the fault `f`, unless the logging before it throws
  abbrev pub ended : Fault → Outcome (List CallData) → Call
  ended f (returned entries) = record { outcome = thrown f; logged = entries }
  ended f (thrown g) = record { outcome = thrown g; logged = [] }

  timeout_fault : Fault
  timeout_fault = error "TimeoutError" ("Request timed out after " <> (decimal timeout_ms <> "ms"))

  fault_entry : ℕ → Fault → CallData
  unfolding common_data fault_info
  fault_entry duration f = record (common_data options url duration) {
    error_info = some (fault_info f);
  }

  -- The fault is logged and thrown.
  told : ℕ → Fault → Call
  unfolding fault_entry
  told duration f = ended f (log (fault_entry duration f))

  -- The `catch` block
  pub caught : ℕ → Fault → Call
  unfolding timeout_fault told
  caught duration f =
      if is_abort f
      then told duration timeout_fault
      else if is_http_text f
      then ended f (returned [])
      else told duration f

  -- The `try` block from its logging on: `after` is how it ends when that does not throw.
  pub logged_then : ℕ → (List CallData → Call) → Outcome (List CallData) → Call
  unfolding caught
  logged_then late after (returned entries) = after entries
  logged_then late after (thrown g) = caught late g

  with_status : ℕ → Response → CallData
  unfolding common_data
  with_status duration r =
      let common = common_data options url duration in
      record common { status = some r.status; status_text = some r.status_text }

  -- What is logged of a good response, and of a failed one
  answered_entry : ℕ → Response → Json → CallData
  unfolding with_status
  answered_entry duration r shown = record (with_status duration r) { response = some shown }

  failed_entry : ℕ → Response → CallData
  unfolding with_status
  failed_entry duration r = record (with_status duration r) {
    error_info = some (record { name = "HTTP Error"; message = error_message r });
  }

  -- `text ? JSON.parse(text) : null`
  abbrev parsed : String → Outcome Json
  parsed t = if t == "" then returned null else parse t

  -- What the `try` block reads of a good response: what the history shows, and what the caller gets
  read_response : Response → Outcome (Json × Received)
  read_response r =
      if leb r.status 204 && leb 204 r.status
      then returned (null, json_value null)
      else elim options.response_type [
        | as_blob ↦ and_then r.blob_size (λ n. returned (
          object (field "type" (text "blob") (field "size" (number (decimal n)) empty)),
          blob_value n,
        ))
        | as_json ↦ and_then r.content (λ t. and_then (parsed t) (λ v. returned (v, json_value v)))
      ]

  received : ℕ → ℕ → Response → Outcome (Json × Received) → Call
  unfolding answered_entry caught logged_then
  received duration late r (returned (shown, v)) =
      logged_then late (λ entries. record { outcome = returned v; logged = entries })
        (log (answered_entry duration r shown))
  received duration late r (thrown f) = caught late f

  -- `throw new Error(…)` after the response is logged
  failed_response : ℕ → Response → List CallData → Call
  unfolding caught
  failed_response late r entries =
      let c = caught late (error "Error" (http_message r)) in
      record c { logged = entries ++ c.logged }

  -- The `try` block after the response; `late` is the time that the `catch` block measures.
  responded : ℕ → ℕ → Response → Call
  unfolding failed_entry received read_response caught logged_then failed_response
  responded duration late r =
      if is_ok r
      then received duration late r (read_response r)
      else logged_then late (failed_response late r) (log (failed_entry duration r))

  -- `fetched` is what the browser's `fetch` gives.
  unfoldable pub fetch_wrapper : ℕ → ℕ → Outcome Response → Call
  unfolding responded caught
  fetch_wrapper duration late (returned r) = responded duration late r
  fetch_wrapper duration late (thrown f) = caught late f
